-- ===== src/Server/Family.antt =====
-- The processes of the server and the pipes between them: what `control_connection_accept_cb` of
-- src/core/connection.c opens and closes around its fork, and `on_parent_dead` of
-- src/ipc/interprocess_handler.c, which ends a child when its pipe is at the end. A process that
-- ends closes what it holds; a child that is forked holds what its parent holds.
use cftp_server.Base.{
  ℕ, zero, suc, ◌==◌, Bool, true, false, not, ◌||◌, Option, none, some, List, [], ◌∷◌, Bytes,
  if◌then◌else◌,
}
use cftp_server.Server.{ServerState, control_connection_accept_cb}

-- A child: the pipe whose end for reading it has, and the pipes whose end for writing it holds.
pub record Child : Type 0 where
  pub pipe : ℕ
  pub writers : List ℕ

-- `parent` is what the parent holds for writing, until it ends. The children that run are listed
-- the latest first; pipes have numbers in the order in which they are made.
pub record Family : Type 0 where
  pub server : ServerState
  pub parent : Option (List ℕ)
  pub children : List Child
  pub next_pipe : ℕ

abbrev pub holds : ℕ → List ℕ → Bool
holds p [] = false
holds p (w ∷ ws) = if w == p then true else holds p ws

abbrev pub without : ℕ → List ℕ → List ℕ
without p [] = []
without p (w ∷ ws) = let rest = without p ws in if w == p then rest else w ∷ rest

unfoldable pub held_by_children : ℕ → List Child → Bool
held_by_children p [] = false
held_by_children p (c ∷ cs) = holds p c.writers || held_by_children p cs

abbrev pub held_by_parent : ℕ → Option (List ℕ) → Bool
held_by_parent p none = false
held_by_parent p (some ws) = holds p ws

-- `pipe` and `fork`: the child closes its own end for writing, the parent that for reading.
unfoldable pub fork_child : ServerState → List ℕ → Family → Family
fork_child server ws f =
    let held = f.next_pipe ∷ ws in
    record f {
      server = server;
      parent = some held;
      children = record { pipe = f.next_pipe; writers = without f.next_pipe held } ∷ f.children;
      next_pipe = suc f.next_pipe;
    }

-- The handler of a client that connects, with the pipe and the fork.
unfoldable pub accept_client : Bool → Bool → Family → Family
unfolding fork_child
accept_client paired made f = elim (f.parent) [
  | none ↦ f
  | some ws ↦
      (let (started, server) = control_connection_accept_cb paired made f.server in
        if started then fork_child server ws f else record f { server = server })
]

abbrev pub filter_children : (Child → Bool) → List Child → List Child
filter_children keep [] = []
filter_children keep (c ∷ cs) =
    let rest = filter_children keep cs in if keep c then c ∷ rest else rest

-- `on_parent_dead`, with the result of `read`: whether the child ends.
unfoldable pub on_parent_dead : Option Bytes → Bool
on_parent_dead none = true
on_parent_dead (some []) = true
on_parent_dead (some (b ∷ text)) = false

-- Whether a child goes on. Nothing is written to a pipe, so its event comes only at the end of it,
-- when no process that runs holds it for writing, and `read` gives no bytes. The event loop of the
-- child is taken to run.
unfoldable pub goes_on : Family → Child → Bool
unfolding held_by_children
goes_on f c =
    if held_by_parent c.pipe f.parent || held_by_children c.pipe f.children
    then true
    else not (on_parent_dead (some []))

-- The events of all the pipes that are at their end.
unfoldable pub kill_switch : Family → Family
kill_switch f = record f { children = filter_children (goes_on f) f.children }

unfoldable pub kill_switches : ℕ → Family → Family
kill_switches zero f = f
kill_switches (suc n) f = kill_switches n (kill_switch f)

-- What happens to the processes: a client connects, a child or the parent ends.
pub data FamilyEvent : Type 0 where
  client_connects : Bool → Bool → FamilyEvent
  child_ends : ℕ → FamilyEvent
  parent_ends : FamilyEvent

unfoldable pub family_step : FamilyEvent → Family → Family
family_step (client_connects paired made) f = accept_client paired made f
family_step (child_ends p) f = record f {
  children = filter_children (λ c. not (c.pipe == p)) f.children;
}
family_step parent_ends f = record f { parent = none }

unfoldable pub family_run : List FamilyEvent → Family → Family
family_run [] f = f
family_run (e ∷ es) f = family_run es (family_step e f)

-- The server before the first client.
abbrev pub alone : ServerState → Family
alone server = record { server = server; parent = some []; children = []; next_pipe = 0 }
