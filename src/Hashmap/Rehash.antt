-- ===== src/Hashmap/Rehash.antt =====
-- The rehash at the end of `insert_entry` over the table as a map.
use mathlib.Core.List.{◌++◌, flatten}
use mathlib.Core.Option.{or_else}
use cftp_server.Base.{
  ℕ, zero, suc, ◌+◌, ◌≤◌, ◌<◌, ◌≡◌, refl, ◌∙◌, Option, none, some, List, [], ◌∷◌, Bytes, arith,
  true, length, replicate, length-replicate, get_or-replicate, strcmp_eq, strcmp_eq_refl,
  Bool-cases, inl, inr,
}
use cftp_server.Hashmap.Chains.{Chain, value, count}
use cftp_server.Hashmap.Chains.Laws.{value-eq-none}
use cftp_server.Hashmap.Buckets.{
  IsPlaced, population, length-flatten, view, Holds, update, push-Holds, flatten-view, or_else-none,
}
use cftp_server.Hashmap.{move_elem, move_chain, move_all}

population-replicate {ℓ} : (A : Type ℓ) (n : ℕ) → population {A = A} (replicate n []) ≡ 0
unfolding population replicate
population-replicate A zero = refl
population-replicate A (suc n) = omega (arith, population-replicate A n)

module _ {ℓ} {V : Type ℓ} where
  -- A table straight from `calloc`.
  pub replicate-Holds : (n : ℕ) → Holds {V = V} n 0 (λ _. none) (replicate n [])
  unfolding view count value
  replicate-Holds n = record {
    width = length-replicate n [];
    size = population-replicate _ n;
    placed = λ q i. rw get_or-replicate (omega arith);
    reads = λ q. rw get_or-replicate;
  }

  move_chain-append :
      (n : ℕ) (a b : Chain V) (fresh : List (Chain V))
      → move_chain n (a ++ b) fresh ≡ move_chain n b (move_chain n a fresh)
  unfolding move_chain
  move_chain-append n [] b fresh = refl
  move_chain-append n (e ∷ a) b fresh = move_chain-append n a b (move_elem n e fresh)

  -- The two nested loops are one loop over all the elements.
  move_all-flatten :
      (n : ℕ) (bs fresh : List (Chain V)) → move_all n bs fresh ≡ move_chain n (flatten bs) fresh
  unfolding move_all move_chain flatten
  move_all-flatten n [] fresh = refl
  move_all-flatten n (c ∷ cs) fresh =
      rw (move_chain-append n c (flatten cs) fresh) (move_all-flatten n cs (move_chain n c fresh))

  -- In a list without repeated keys the key of the head is not in the tail.
  head_once :
      (k q : Bytes) (a : Option V) (es : Chain V)
      → count q ((k, a) ∷ es) ≤ 1
      → strcmp_eq k q ≡ true
      → count q es ≡ 0
  unfolding count
  head_once k q a es h e = let h' : 1 + count q es ≤ 1 = rw e at h in omega arith

  tail_apart :
      (f : Bytes → Option (Option V)) (k q : Bytes) (a : Option V) (es : Chain V)
      → count q ((k, a) ∷ es) ≤ 1
      → (0 < count q ((k, a) ∷ es) → f q ≡ none)
      → 0 < count q es
      → update f k (some a) q ≡ none
  unfolding count
  tail_apart f k q a es once apart h = elim (Bool-cases (strcmp_eq k q)) [
    | inl e ↦ absurd (omega (arith, head_once k q a es once e))
    | inr e ↦ rw e (apart (omega arith))
  ]

  update-or_else :
      (f : Bytes → Option (Option V)) (k q : Bytes) (a : Option V) (es : Chain V)
      → count q ((k, a) ∷ es) ≤ 1
      → or_else (value q es) (update f k (some a) q) ≡ or_else (value q ((k, a) ∷ es)) (f q)
  unfolding value or_else
  update-or_else f k q a es once = elim (Bool-cases (strcmp_eq k q)) [
    | inl e ↦ rw (e, value-eq-none q es (head_once k q a es once e))
    | inr e ↦ rw e
  ]

  -- One element whose key is new joins the map.
  move_elem-Holds :
      (n total : ℕ) (f : Bytes → Option (Option V)) (k : Bytes) (a : Option V)
      (fresh : List (Chain V))
      → 0 < n
      → Holds n total f fresh
      → f k ≡ none
      → Holds n (total + 1) (update f k (some a)) (move_elem n (k, a) fresh)
  unfolding move_elem
  move_elem-Holds n total f k a fresh pos t absent =
      let p = push-Holds fresh (rw t.width pos) t.placed k a (t.reads k ∙ absent) in
      rw (← t.width) (record {
        width = p.width;
        size = omega (arith, p.size, t.size);
        placed = p.placed;
        reads = λ q. rw (← t.reads q) (p.reads q);
      })

  -- Elements whose keys differ, and are not in the new table, join its map.
  move_chain-Holds :
      (n total : ℕ) (f : Bytes → Option (Option V)) (es : Chain V) (fresh : List (Chain V))
      → 0 < n
      → Holds n total f fresh
      → ((q : Bytes) → count q es ≤ 1)
      → ((q : Bytes) → 0 < count q es → f q ≡ none)
      → Holds n (total + length es) (λ q. or_else (value q es) (f q)) (move_chain n es fresh)
  unfolding move_chain count value or_else
  move_chain-Holds n total f [] fresh pos t once apart = record {
    width = t.width;
    size = omega (arith, t.size);
    placed = t.placed;
    reads = t.reads;
  }
  move_chain-Holds n total f ((k, a) ∷ es) fresh pos t once apart =
      let step =
        move_elem-Holds n total f k a fresh pos t (apart k (rw strcmp_eq_refl (omega arith))) in
      let all : Holds n _ _ _ =
        move_chain-Holds n (total + 1) (update f k (some a)) es (move_elem n (k, a) fresh) pos step
          (λ q. omega (arith, once q)) (λ q h. tail_apart f k q a es (once q) (apart q) h) in
      record {
        width = all.width;
        size = omega (arith, all.size);
        placed = all.placed;
        reads = λ q. all.reads q ∙ update-or_else f k q a es (once q);
      }

  -- The new table holds the old map.
  pub move_all-Holds :
      (n : ℕ) (bs : List (Chain V))
      → 0 < n
      → IsPlaced bs
      → Holds n (population bs) (view bs) (move_all n bs (replicate n []))
  move_all-Holds n bs pos placed =
      let flat = flatten-view bs placed in
      let all =
        move_chain-Holds n 0 (λ _. none) (flatten bs) (replicate n []) pos (replicate-Holds n)
          (λ q. (flat q).1) (λ q h. refl) in
      rw (move_all-flatten n bs (replicate n [])) (record {
        width = all.width;
        size = omega (arith, all.size, length-flatten bs);
        placed = all.placed;
        reads = λ q. all.reads q ∙ or_else-none (value q (flatten bs)) ∙ (flat q).0;
      })
