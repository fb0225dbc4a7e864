-- ===== src/Config/Lines.antt =====
-- The lines of a file of settings, one for each key with its value.
use cftp_server.Base.{
  ℕ, ◌+◌, ◌-◌, ◌<◌, ◌≡◌, refl, ap, ◌∙◌, Bool, true, false, ◌&&◌, ◌||◌, some, List, [], ◌∷◌, ◌++◌,
  Bytes, arith, length, length-append, isspace, skip_spaces, leb, ◌==◌, All, if◌then◌else◌,
}
use mathlib.Core.List.{append_assoc}
use cftp_server.Config.{
  Configurations, trim_right_inplace, trim_inplace, assign_kv, fgets_lines, split_eq, process_entry,
  process_trimmed, process_line, process_lines, is_nil,
}

-- The text of one setting, without the line feed.
abbrev setting : Bytes → Bytes → Bytes
setting k v = k ++ b'=' ∷ v

unfoldable pub render : List (Bytes × Bytes) → Bytes
render [] = []
render ((k, v) ∷ es) = setting k v ++ 10 ∷ render es

-- A key without spaces and the sign that ends it, and not a comment.
unfoldable pub IsKey : Bytes → Type 0
IsKey [] = ⊥
IsKey (c ∷ k) = ((c == b'#') ≡ false) × All (λ b. (isspace b || b == b'=') ≡ false) (c ∷ k)

-- A value in one line, without spaces around it.
pub record IsValue (v : Bytes) : Type 0 where
  pub begins : skip_spaces v ≡ v
  pub ends : trim_right_inplace v ≡ v
  pub one_line : All (λ c. (c == 10) ≡ false) v

pub not_space :
    (b : ℕ)
    → (isspace b || b == b'=') ≡ false
    → (isspace b ≡ false) × ((b == b'=') ≡ false) × ((b == 10) ≡ false)
unfolding isspace
not_space b h = ground arith

fgets_line :
    (l rest piece : Bytes) (room : ℕ)
    → length l < room
    → All (λ c. (c == 10) ≡ false) l
    → fgets_lines room piece (l ++ 10 ∷ rest) ≡ (piece ++ (l ++ 10 ∷ [])) ∷ fgets_lines 255 [] rest
unfolding fgets_lines
fgets_line [] rest piece room short plain =
    let e : (leb room 1 || true) ≡ true = ground arith in rw e refl
fgets_line (c ∷ l) rest piece room short plain =
    let e : (leb room 1 || c == 10) ≡ false = ground (arith, plain.0) in
    rw (fgets_lines, e)
      (fgets_line l rest (piece ++ c ∷ []) (room - 1) (omega arith) plain.1
        ∙ ap (λ p. p ∷ fgets_lines 255 [] rest) (append_assoc piece (c ∷ []) (l ++ 10 ∷ [])))

trim_right-feed : (s : Bytes) → trim_right_inplace (s ++ 10 ∷ []) ≡ trim_right_inplace s
unfolding trim_right_inplace isspace
trim_right-feed [] = refl
trim_right-feed (c ∷ s) = rw (trim_right-feed s) refl

kept : (b : Bool) (s : Bytes) → (if b && false then [] else s) ≡ s
kept true s = refl
kept false s = refl

setting-nonempty : (k v : Bytes) → is_nil (setting k v) ≡ false
setting-nonempty [] v = refl
setting-nonempty (c ∷ k) v = refl

trim_right-setting :
    (k v : Bytes) → trim_right_inplace v ≡ v → trim_right_inplace (setting k v) ≡ setting k v
unfolding trim_right_inplace isspace
trim_right-setting [] v ends = rw ends (kept (is_nil v) (b'=' ∷ v))
trim_right-setting (c ∷ k) v ends = rw (trim_right-setting k v ends, setting-nonempty k v) refl

pub trim_right-word :
    (k : Bytes) → All (λ b. (isspace b || b == b'=') ≡ false) k → trim_right_inplace k ≡ k
unfolding trim_right_inplace
trim_right-word [] h = refl
trim_right-word (c ∷ k) h =
    rw (trim_right-word k h.1, (not_space c h.0).0) (kept (is_nil k) (c ∷ k))

split_eq-setting :
    (k v : Bytes)
    → All (λ b. (isspace b || b == b'=') ≡ false) k
    → split_eq (setting k v) ≡ some (k, v)
unfolding split_eq
split_eq-setting [] v h = refl
split_eq-setting (c ∷ k) v h = rw ((not_space c h.0).1, split_eq-setting k v h.1) refl

pub skip_first : (c : ℕ) (s : Bytes) → isspace c ≡ false → skip_spaces (c ∷ s) ≡ c ∷ s
unfolding skip_spaces
skip_first c s h = rw h refl

-- The lines of settings are assigned one after the other.
unfoldable pub assign_all : Configurations → List (Bytes × Bytes) → Configurations
assign_all cfg [] = cfg
assign_all cfg ((k, v) ∷ es) = assign_all (assign_kv cfg k v) es

-- A line that fits the buffer of 256 bytes.
pub record IsEntry (e : Bytes × Bytes) : Type 0 where
  pub key : IsKey e.0
  pub value : IsValue e.1
  pub fits : length e.0 + length e.1 < 254

process_line-setting :
    (cfg : Configurations) (k v : Bytes)
    → IsKey k
    → IsValue v
    → process_line cfg (setting k v ++ 10 ∷ []) ≡ assign_kv cfg k v
unfolding process_line process_trimmed process_entry trim_inplace IsKey
process_line-setting cfg [] v key value = absurd key
process_line-setting cfg (c ∷ k) v (first, plain) value =
    let c_space = (not_space c plain.0).0 in
    rw
      (
        skip_first c (k ++ b'=' ∷ v ++ 10 ∷ []) c_space,
        trim_right-feed (setting (c ∷ k) v),
        trim_right-setting (c ∷ k) v value.ends,
      )
      (rw (process_trimmed, first, split_eq-setting (c ∷ k) v plain)
        (rw (skip_first c k c_space, trim_right-word (c ∷ k) plain, value.begins, value.ends) refl))

setting-one_line :
    (k v : Bytes)
    → All (λ b. (isspace b || b == b'=') ≡ false) k
    → All (λ c. (c == 10) ≡ false) v
    → All (λ c. (c == 10) ≡ false) (setting k v)
setting-one_line [] v h plain = (refl, plain)
setting-one_line (c ∷ k) v h plain = ((not_space c h.0).2, setting-one_line k v h.1 plain)

key-plain : (k : Bytes) → IsKey k → All (λ b. (isspace b || b == b'=') ≡ false) k
unfolding IsKey
key-plain [] h = absurd h
key-plain (c ∷ k) h = h.1

pub process-render :
    (cfg : Configurations) (es : List (Bytes × Bytes))
    → All IsEntry es
    → process_lines cfg (fgets_lines 255 [] (render es)) ≡ assign_all cfg es
unfolding render assign_all process_lines
process-render cfg [] h = unfold fgets_lines in refl
process-render cfg ((k, v) ∷ es) h =
    let entry = h.0 in
    let line =
      fgets_line (setting k v) (render es) [] 255
        (omega (arith, length-append k (b'=' ∷ v), entry.fits))
        (setting-one_line k v (key-plain k entry.key) entry.value.one_line) in
    rw (line, process_lines, process_line-setting cfg k v entry.key entry.value)
      (process-render (assign_kv cfg k v) es h.1)
