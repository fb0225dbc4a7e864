-- ===== src/Faults.antt =====
-- Runs of code that may read through a null pointer, past the end of an array or freed memory, or
-- not end within the fuel that a loop is given.
use mathlib.Core.Path.{◌≡◌, refl, subst}
use mathlib.Core.Logic.{◌≢◌}
use mathlib.Core.Bool.{Bool, true, false}
use mathlib.Core.Option.{Option, none, some}
use cftp_server.Base.{if◌then◌else◌}

pub data Fault : Type 0 where
  null_pointer division_by_zero out_of_range use_after_free out_of_fuel : Fault

pub data Run {ℓ} (A : Type ℓ) : Type ℓ where
  fault : Fault → Run A
  ok : A → Run A

infixl 5 ◌>>=◌
abbrev pub ◌>>=◌ {ℓ κ} : {A : Type ℓ} {B : Type κ} (first : Run A) (next : A → Run B) → Run B
fault why >>= next = fault why
ok value >>= next = next value

-- The run does not fault, and its value satisfies `P`.
abbrev pub Returns {ℓ κ} : {Value : Type ℓ} → Run Value → (Value → Type κ) → Type (ℓ ⊔ κ)
Returns {Value} run P = (value : Value) × (run ≡ ok value) × P value

-- Inversion of a bind that does not fault.
pub >>=-eq-ok {ℓ κ} :
    {A : Type ℓ} {B : Type κ} (next : A → Run B) (first : Run A) {b : B}
    → (first >>= next) ≡ ok b
    → (a : A) × (first ≡ ok a) × (next a ≡ ok b)
>>=-eq-ok next (fault e) h = cc
>>=-eq-ok next (ok a) h = (a, refl, h)

pub ok_injective {ℓ} : {A : Type ℓ} {a b : A} → ok a ≡ ok b → a ≡ b
ok_injective h = cc

-- The run uses no freed memory, and a value that it gives satisfies `P`. Nothing is said of the
-- other faults.
abbrev pub Keeps {ℓ} : {A : Type ℓ} → (A → Type 0) → Run A → Type 0
Keeps P (ok a) = P a
Keeps P (fault null_pointer) = Unit
Keeps P (fault division_by_zero) = Unit
Keeps P (fault out_of_range) = Unit
Keeps P (fault use_after_free) = ⊥
Keeps P (fault out_of_fuel) = Unit

-- The rule for a bind.
pub >>=-Keeps {ℓ κ} :
    {A : Type ℓ} {B : Type κ} (Q : A → Type 0) (P : B → Type 0) (first : Run A) (next : A → Run B)
    → Keeps Q first
    → ((a : A) → Q a → Keeps P (next a))
    → Keeps P (first >>= next)
>>=-Keeps Q P (ok a) next q h = h a q
>>=-Keeps Q P (fault null_pointer) next q h = tt
>>=-Keeps Q P (fault division_by_zero) next q h = tt
>>=-Keeps Q P (fault out_of_range) next q h = tt
>>=-Keeps Q P (fault use_after_free) next q h = q
>>=-Keeps Q P (fault out_of_fuel) next q h = tt

pub Keeps-mono {ℓ} :
    {A : Type ℓ} (Q P : A → Type 0) (r : Run A) → ((a : A) → Q a → P a) → Keeps Q r → Keeps P r
Keeps-mono Q P (ok a) h q = h a q
Keeps-mono Q P (fault null_pointer) h q = tt
Keeps-mono Q P (fault division_by_zero) h q = tt
Keeps-mono Q P (fault out_of_range) h q = tt
Keeps-mono Q P (fault use_after_free) h q = q
Keeps-mono Q P (fault out_of_fuel) h q = tt

pub Keeps-ok {ℓ} : {A : Type ℓ} (P : A → Type 0) (r : Run A) {a : A} → Keeps P r → r ≡ ok a → P a
Keeps-ok P (ok a) k h = subst P (ok_injective h) k
Keeps-ok P (fault why) k h = cc

pub Keeps-use_after_free {ℓ} :
    {A : Type ℓ} (P : A → Type 0) (r : Run A) → Keeps P r → r ≢ fault use_after_free
Keeps-use_after_free P (ok a) k h = cc
Keeps-use_after_free P (fault null_pointer) k h = cc
Keeps-use_after_free P (fault division_by_zero) k h = cc
Keeps-use_after_free P (fault out_of_range) k h = cc
Keeps-use_after_free P (fault use_after_free) k h = k
Keeps-use_after_free P (fault out_of_fuel) k h = cc

-- The rules for tests.
pub if-Keeps {ℓ} :
    {A : Type ℓ} (P : A → Type 0) (b : Bool) (x y : Run A)
    → Keeps P x
    → Keeps P y
    → Keeps P (if b then x else y)
if-Keeps P true x y p q = p
if-Keeps P false x y p q = q

pub option-Keeps {ℓ κ} :
    {A : Type ℓ} {B : Type κ} (P : B → Type 0) (o : Option A) (x : Run B) (f : A → Run B)
    → Keeps P x
    → ((a : A) → o ≡ some a → Keeps P (f a))
    → Keeps P (elim o [ none ↦ x | some a ↦ f a ])
option-Keeps P none x f p q = p
option-Keeps P (some a) x f p q = q a refl

-- A value that the run gives satisfies `P`. Nothing is said of faults.
abbrev pub Gives {ℓ} : {A : Type ℓ} → (A → Type 0) → Run A → Type 0
Gives P (ok a) = P a
Gives P (fault why) = Unit

pub Keeps-Gives {ℓ} : {A : Type ℓ} (P : A → Type 0) (r : Run A) → Keeps P r → Gives P r
Keeps-Gives P (ok a) k = k
Keeps-Gives P (fault why) k = tt

pub >>=-Gives {ℓ κ} :
    {A : Type ℓ} {B : Type κ} (Q : A → Type 0) (P : B → Type 0) (first : Run A) (next : A → Run B)
    → Gives Q first
    → ((a : A) → Q a → Gives P (next a))
    → Gives P (first >>= next)
>>=-Gives Q P (ok a) next q h = h a q
>>=-Gives Q P (fault why) next q h = tt

pub option-Gives {ℓ κ} :
    {A : Type ℓ} {B : Type κ} (P : B → Type 0) (o : Option A) (x : Run B) (f : A → Run B)
    → Gives P x
    → ((a : A) → Gives P (f a))
    → Gives P (elim o [ none ↦ x | some a ↦ f a ])
option-Gives P none x f p q = p
option-Gives P (some a) x f p q = q a

pub Gives-ok {ℓ} : {A : Type ℓ} (P : A → Type 0) (r : Run A) {a : A} → Gives P r → r ≡ ok a → P a
Gives-ok P (ok a) k h = subst P (ok_injective h) k
Gives-ok P (fault why) k h = cc
