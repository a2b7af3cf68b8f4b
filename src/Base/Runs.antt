-- ===== src/Base/Runs.antt =====
-- Runs that may fault or exhaust their fuel, and a state monad over them.
use mathlib.Core.Option.{Option, none, some}
use mathlib.Core.Path.{◌≡◌, refl}

-- `fault` is undefined behaviour: a null, dangling or out-of-range access, or a jump to `NULL`.
pub data Run {ℓ} (A : Type ℓ) : Type ℓ where
  ok : A → Run A
  fault : Run A
  out_of_fuel : Run A

abbrev pub and_then {ℓ κ} : {A : Type ℓ} {B : Type κ} → Run A → (A → Run B) → Run B
and_then (ok a) f = f a
and_then fault f = fault
and_then out_of_fuel f = out_of_fuel

abbrev pub M : Type 0 → Type 0 → Type 0
M S A = S → Run (A × S)

module _ {S : Type 0} where
  abbrev pub pure : {A : Type 0} → A → M S A
  pure a s = ok (a, s)

  abbrev pub raise : {A : Type 0} → M S A
  raise s = fault

  infixl 5 ◌>>=◌ ◌>>◌
  abbrev pub ◌>>=◌ : {A B : Type 0} → M S A → (A → M S B) → M S B
  ◌>>=◌ m f s = and_then (m s) λ (a, t). f a t

  abbrev pub ◌>>◌ : {A B : Type 0} → M S A → M S B → M S B
  ◌>>◌ m k = m >>= λ _. k

  abbrev pub get_state : M S S
  get_state s = ok (s, s)

  abbrev pub put_state : S → M S (Unit {0})
  put_state t s = ok (tt, t)

  -- What an optional pointer holds; `NULL` is a fault.
  abbrev pub deref : {A : Type 0} → Option A → M S A
  deref none s = fault
  deref (some a) s = ok (a, s)

-- A chain that succeeds is one whose parts do.
pub and_then-ok :
    {A B : Type 0} (m : Run A) (f : A → Run B) (b : B)
    → and_then m f ≡ ok b
    → (a : A) × (m ≡ ok a) × (f a ≡ ok b)
and_then-ok (ok a) f b e = (a, refl, e)
and_then-ok fault f b e = absurd (cc e)
and_then-ok out_of_fuel f b e = absurd (cc e)

pub ok-inj : {A : Type 0} {a b : A} → ok a ≡ ok b → a ≡ b
ok-inj e = cc
