-- ===== src/Security.antt =====
-- `is_path_safe` of src/security/security.c; the lookups of users are in the child module.
pub mod Lookup
use cftp_server.Base.{
  ◌≡◌, refl, ap, sym, ◌∙◌, Bool, true, false, not, ◌&&◌, ◌||◌, [], ◌∷◌, ◌++◌, Bytes, bytes, arith,
  ◌==◌, Bool-cases, inl, inr,
}

-- `strncmp(s, prefix, strlen(prefix)) == 0`
unfoldable pub starts_with : Bytes → Bytes → Bool
starts_with [] s = true
starts_with (p ∷ ps) [] = false
starts_with (p ∷ ps) (c ∷ s) = p == c && starts_with ps s

-- `strstr(s, needle) != NULL`
unfoldable pub strstr : Bytes → Bytes → Bool
strstr needle [] = starts_with needle []
strstr needle (c ∷ s) = starts_with needle (c ∷ s) || strstr needle s

unfoldable pub is_path_safe : Bytes → Bool
unfolding strstr starts_with
is_path_safe [] = true
is_path_safe (c ∷ s) = not (strstr (bytes "..") (c ∷ s))

starts_with-append : (p s : Bytes) → starts_with p (p ++ s) ≡ true
unfolding starts_with
starts_with-append [] s = refl
starts_with-append (p ∷ ps) s = ground (arith, starts_with-append ps s)

starts_with-rest : (p s : Bytes) → starts_with p s ≡ true → (r : Bytes) × (s ≡ p ++ r)
unfolding starts_with
starts_with-rest [] s h = (s, refl)
starts_with-rest (p ∷ ps) [] h = cc
starts_with-rest (p ∷ ps) (c ∷ s) h =
    let (r, e) = starts_with-rest ps s (ground arith) in let same : c ≡ p = ground arith in (r, cc)

-- `strstr` finds a needle wherever it stands.
pub strstr-append : (a needle b : Bytes) → strstr needle (a ++ (needle ++ b)) ≡ true
unfolding strstr starts_with
strstr-append [] [] [] = refl
strstr-append [] [] (c ∷ b) = refl
strstr-append [] (n ∷ ns) b = rw (starts_with-append (n ∷ ns) b)
strstr-append (c ∷ a) needle b = rw (strstr-append a needle b) (ground arith)

pub strstr-split :
    (needle s : Bytes)
    → strstr needle s ≡ true
    → (a : Bytes) × (b : Bytes) × (s ≡ a ++ (needle ++ b))
unfolding strstr
strstr-split needle [] h = let (r, e) = starts_with-rest needle [] h in ([], r, e)
strstr-split needle (c ∷ s) h = elim (Bool-cases (starts_with needle (c ∷ s))) [
  | inl here ↦ let (r, e) = starts_with-rest needle (c ∷ s) here in ([], r, e)
  | inr later ↦
      let (a, b, e) = strstr-split needle s (rw later at h) in
      (c ∷ a, b, ap (λ (t : Bytes). c ∷ t) e)
]

is_path_safe-strstr : (p : Bytes) → is_path_safe p ≡ not (strstr (bytes "..") p)
unfolding is_path_safe bytes
is_path_safe-strstr [] = refl
is_path_safe-strstr (c ∷ s) = refl

not-true : (b : Bool) → not b ≡ false → b ≡ true
not-true true h = refl
not-true false h = cc

-- A path is refused exactly if two dots stand next to each other in it: a path that contains them
-- anywhere is refused, and in every refused path they can be pointed out.
pub is_path_safe_iff :
    ((a b : Bytes) → is_path_safe (a ++ (bytes ".." ++ b)) ≡ false)
    × ((p : Bytes)
        → is_path_safe p ≡ false
        → (a : Bytes) × (b : Bytes) × (p ≡ a ++ (bytes ".." ++ b)))
is_path_safe_iff = (
  λ a b. is_path_safe-strstr (a ++ (bytes ".." ++ b)) ∙ ap not (strstr-append a (bytes "..") b),
  λ p h. strstr-split (bytes "..") p (not-true _ (sym (is_path_safe-strstr p) ∙ h)),
)
