-- ===== src/Server/Inheritance.antt =====
-- Which process holds which pipe, after any events.
use mathlib.Core.Path.{subst}
use cftp_server.Base.{
  ℕ, suc, ◌≤◌, ◌<◌, ◌≡◌, refl, ==_iff, Bool, true, false, Option, none, some, List, [], ◌∷◌, arith,
  All, Bool-cases, inl, inr, if◌then◌else◌,
}
use cftp_server.Server.{ServerState, control_connection_accept_cb}
use cftp_server.Server.Family.{
  Child, Family, FamilyEvent, client_connects, child_ends, parent_ends, holds, without,
  held_by_children, fork_child, accept_client, filter_children, family_step, family_run, alone,
}

unfoldable pub Below : ℕ → List ℕ → Type 0
Below n ws = All (λ w. w < n) ws

-- The pipes fall along the list, below a bound, and a child holds only older pipes than its own.
unfoldable pub Ordered : ℕ → List Child → Type 0
unfolding Below
Ordered n [] = Unit
Ordered n (c ∷ cs) = (c.pipe < n) × Below c.pipe c.writers × Ordered c.pipe cs

-- The parent, while it runs, holds the pipe of every child.
abbrev pub Watches : Option (List ℕ) → ℕ → List Child → Type 0
Watches none n cs = Unit
Watches (some ws) n cs = Below n ws × All (λ c. holds c.pipe ws ≡ true) cs

pub record IsFamily (f : Family) : Type 0 where
  pub ordered : Ordered f.next_pipe f.children
  pub watches : Watches f.parent f.next_pipe f.children

pub holds-Below : (p n : ℕ) (ws : List ℕ) → Below n ws → n ≤ p → holds p ws ≡ false
unfolding Below
holds-Below p n [] h le = refl
holds-Below p n (w ∷ ws) h le = ground (arith, holds-Below p n ws h.1 le)

pub held_by_children-Ordered :
    (p n : ℕ) (cs : List Child) → Ordered n cs → n ≤ p → held_by_children p cs ≡ false
unfolding Ordered held_by_children
held_by_children-Ordered p n [] h le = refl
held_by_children-Ordered p n (c ∷ cs) h le =
    rw
      (
        holds-Below p c.pipe c.writers h.1 (omega (arith, h.0)),
        held_by_children-Ordered p c.pipe cs h.2 (omega (arith, h.0)),
      )
      refl

Ordered-mono : (m n : ℕ) (cs : List Child) → m ≤ n → Ordered m cs → Ordered n cs
unfolding Ordered
Ordered-mono m n [] le h = tt
Ordered-mono m n (c ∷ cs) le h = (omega (arith, h.0), h.1, h.2)

filter-Ordered :
    (keep : Child → Bool) (n : ℕ) (cs : List Child)
    → Ordered n cs
    → Ordered n (filter_children keep cs)
unfolding Ordered
filter-Ordered keep n [] h = tt
filter-Ordered keep n (c ∷ cs) h =
    let rest = filter-Ordered keep c.pipe cs h.2 in
    elim (Bool-cases (keep c)) [
      | inl stays ↦ rw stays (h.0, h.1, rest)
      | inr goes ↦ rw goes (Ordered-mono c.pipe n _ (omega (arith, h.0)) rest)
    ]

filter-All :
    (P : Child → Type 0) (keep : Child → Bool) (cs : List Child)
    → All P cs
    → All P (filter_children keep cs)
filter-All P keep [] h = tt
filter-All P keep (c ∷ cs) h =
    let rest = filter-All P keep cs h.1 in
    elim (Bool-cases (keep c)) [ inl stays ↦ rw stays (h.0, rest) | inr goes ↦ rw goes rest ]

filter-Watches :
    (keep : Child → Bool) (o : Option (List ℕ)) (n : ℕ) (cs : List Child)
    → Watches o n cs
    → Watches o n (filter_children keep cs)
filter-Watches keep none n cs h = tt
filter-Watches keep (some ws) n cs h = (h.0, filter-All (λ c. holds c.pipe ws ≡ true) keep cs h.1)

pub filter-IsFamily :
    (keep : Child → Bool) (f : Family)
    → IsFamily f
    → IsFamily (record f { children = filter_children keep f.children })
filter-IsFamily keep f h = record {
  ordered = filter-Ordered keep f.next_pipe f.children h.ordered;
  watches = filter-Watches keep f.parent f.next_pipe f.children h.watches;
}

-- A child that is forked holds what the parent held before.
without-Below : (n : ℕ) (ws : List ℕ) → Below n ws → without n ws ≡ ws
unfolding Below
without-Below n [] h = refl
without-Below n (w ∷ ws) h = ground (arith, without-Below n ws h.1)

Below-mono : (m n : ℕ) (ws : List ℕ) → m ≤ n → Below m ws → Below n ws
unfolding Below
Below-mono m n [] le h = tt
Below-mono m n (w ∷ ws) le h = (omega (arith, h.0), Below-mono m n ws le h.1)

-- The pipes of the children stay held when the parent holds one more.
held-more :
    (p : ℕ) (ws : List ℕ) (cs : List Child)
    → All (λ c. holds c.pipe ws ≡ true) cs
    → All (λ c. holds c.pipe (p ∷ ws) ≡ true) cs
held-more p ws [] h = tt
held-more p ws (c ∷ cs) h = (ground (arith, h.0), held-more p ws cs h.1)

fork_child-IsFamily :
    (server : ServerState) (ws : List ℕ) (f : Family)
    → Ordered f.next_pipe f.children
    → Watches (some ws) f.next_pipe f.children
    → IsFamily (fork_child server ws f)
unfolding fork_child Ordered Below
fork_child-IsFamily server ws f ordered (below, all) =
    let own = (==_iff f.next_pipe f.next_pipe).1 refl in
    record {
      ordered = (omega arith, rw (own, without-Below f.next_pipe ws below) below, ordered);
      watches = (
        (omega arith, Below-mono f.next_pipe (suc f.next_pipe) ws (omega arith) below),
        (rw own refl, held-more f.next_pipe ws f.children all),
      );
    }

started-IsFamily :
    (started : Bool) (server : ServerState) (ws : List ℕ) (f : Family)
    → f.parent ≡ some ws
    → IsFamily f
    → IsFamily (if started then fork_child server ws f else record f { server = server })
started-IsFamily true server ws f alive h =
    fork_child-IsFamily server ws f h.ordered
      (subst (λ o. Watches o f.next_pipe f.children) alive h.watches)
started-IsFamily false server ws f alive h = record { ordered = h.ordered; watches = h.watches }

accepted-IsFamily :
    (paired made : Bool) (o : Option (List ℕ)) (f : Family)
    → f.parent ≡ o
    → IsFamily f
    → IsFamily (elim o [
      | none ↦ f
      | some ws ↦
          (let (started, server) = control_connection_accept_cb paired made f.server in
            if started then fork_child server ws f else record f { server = server })
    ])
accepted-IsFamily paired made none f alive h = h
accepted-IsFamily paired made (some ws) f alive h =
    let (started, server) = control_connection_accept_cb paired made f.server in
    started-IsFamily started server ws f alive h

family_step-IsFamily : (e : FamilyEvent) (f : Family) → IsFamily f → IsFamily (family_step e f)
unfolding family_step accept_client
family_step-IsFamily (client_connects paired made) f h =
    accepted-IsFamily paired made f.parent f refl h
family_step-IsFamily (child_ends p) f h = filter-IsFamily _ f h
family_step-IsFamily parent_ends f h = record { ordered = h.ordered; watches = tt }

pub family_run-IsFamily :
    (es : List FamilyEvent) (f : Family) → IsFamily f → IsFamily (family_run es f)
unfolding family_run
family_run-IsFamily [] f h = h
family_run-IsFamily (e ∷ es) f h =
    family_run-IsFamily es (family_step e f) (family_step-IsFamily e f h)

pub alone-IsFamily : (server : ServerState) → IsFamily (alone server)
unfolding Ordered Below
alone-IsFamily server = record { ordered = tt; watches = (tt, tt) }
