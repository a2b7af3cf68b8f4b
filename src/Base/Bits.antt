-- ===== src/Base/Bits.antt =====
-- `bit_and` and `bit_or` at variables: digit by digit, under shifts, and on the low bits.
use Prim.Native.Nat.{
  ℕ, zero, suc, ◌+◌, ◌*◌, ◌/◌, ◌%◌, ◌^◌, ◌≤◌, ◌<◌, min, max, bit_and, bit_or, digits,
  bit_and-bitwise, bit_or-bitwise,
}
use mathlib.Core.Path.{◌≡◌, refl, ap, ap₂, ◌∙◌, sym}
use mathlib.Core.Bool.{Bool, true, ◌&&◌}
use native.Mathlib.Omega.{arith}
use native.Mathlib.Nat.{pow-suc}

-- The number of digits that `digits` is told does not matter once it is large enough.
module _ (z : ℕ → ℕ) (f : ℕ → ℕ → ℕ) where
  enough_digits : (n k a b : ℕ) → a ≤ n → a ≤ k → digits z f n a b ≡ digits z f k a b
  enough_digits zero zero a b p q = refl
  enough_digits zero (suc k) zero b p q = refl
  enough_digits (suc n) zero zero b p q = refl
  enough_digits (suc n) (suc k) zero b p q = refl
  enough_digits zero (suc k) (suc a) b p q = absurd (omega arith)
  enough_digits (suc n) zero (suc a) b p q = absurd (omega arith)
  enough_digits (suc n) (suc k) (suc a) b p q =
      ap (λ (t : ℕ). t * 2 + f (suc a % 2) (b % 2))
        (enough_digits n k (suc a / 2) (b / 2) (omega arith) (omega arith))

pub bit_and_step : (a b : ℕ) → bit_and a b ≡ bit_and (a / 2) (b / 2) * 2 + min (a % 2) (b % 2)
bit_and_step zero b = omega (arith, bit_and-bitwise 0 b, bit_and-bitwise 0 (b / 2))
bit_and_step (suc a) b = omega (
  arith,
  bit_and-bitwise (suc a) b,
  bit_and-bitwise (suc a / 2) (b / 2),
  enough_digits (λ _. 0) min a (suc a / 2) (suc a / 2) (b / 2) (omega arith) (omega arith),
)

pub bit_or_step : (a b : ℕ) → bit_or a b ≡ bit_or (a / 2) (b / 2) * 2 + max (a % 2) (b % 2)
bit_or_step zero b = omega (arith, bit_or-bitwise 0 b, bit_or-bitwise 0 (b / 2))
bit_or_step (suc a) b = omega (
  arith,
  bit_or-bitwise (suc a) b,
  bit_or-bitwise (suc a / 2) (b / 2),
  enough_digits (λ y. y) max a (suc a / 2) (suc a / 2) (b / 2) (omega arith) (omega arith),
)

bit_and_cons :
    (x a y b : ℕ) → a < 2 → b < 2 → bit_and (x * 2 + a) (y * 2 + b) ≡ bit_and x y * 2 + min a b
bit_and_cons x a y b p q =
    bit_and_step (x * 2 + a) (y * 2 + b)
    ∙ ap₂ (λ (s t : ℕ). s * 2 + t) (ap₂ bit_and (omega arith) (omega arith))
        (ap₂ min (omega arith) (omega arith))

bit_or_cons :
    (x a y b : ℕ) → a < 2 → b < 2 → bit_or (x * 2 + a) (y * 2 + b) ≡ bit_or x y * 2 + max a b
bit_or_cons x a y b p q =
    bit_or_step (x * 2 + a) (y * 2 + b)
    ∙ ap₂ (λ (s t : ℕ). s * 2 + t) (ap₂ bit_or (omega arith) (omega arith))
        (ap₂ max (omega arith) (omega arith))

-- A shift to the right, bit by bit.
abbrev pub shr : ℕ → ℕ → ℕ
shr n zero = n
shr n (suc k) = shr (n / 2) k

pub shr-bit_and : (k a b : ℕ) → shr (bit_and a b) k ≡ bit_and (shr a k) (shr b k)
shr-bit_and zero a b = refl
shr-bit_and (suc k) a b =
    ap (λ t. shr t k) (omega (arith, bit_and_step a b)) ∙ shr-bit_and k (a / 2) (b / 2)

pub shr-bit_or : (k a b : ℕ) → shr (bit_or a b) k ≡ bit_or (shr a k) (shr b k)
shr-bit_or zero a b = refl
shr-bit_or (suc k) a b =
    ap (λ t. shr t k) (omega (arith, bit_or_step a b)) ∙ shr-bit_or k (a / 2) (b / 2)

-- The low `w` bits of a number.
abbrev pub low : ℕ → ℕ → ℕ
low zero n = 0
low (suc w) n = low w (n / 2) * 2 + n % 2

pub low-bit_and : (w a b : ℕ) → low w (bit_and a b) ≡ bit_and (low w a) (low w b)
low-bit_and zero a b = refl
low-bit_and (suc w) a b =
    ap₂ (λ (s t : ℕ). low w s * 2 + t) {x = bit_and a b / 2} {y = bit_and (a / 2) (b / 2)}
      {u = bit_and a b % 2} {v = min (a % 2) (b % 2)} (omega (arith, bit_and_step a b))
      (omega (arith, bit_and_step a b))
    ∙ ap (λ (s : ℕ). s * 2 + min (a % 2) (b % 2)) (low-bit_and w (a / 2) (b / 2))
    ∙ sym (bit_and_cons (low w (a / 2)) (a % 2) (low w (b / 2)) (b % 2) (omega arith) (omega arith))

pub low-bit_or : (w a b : ℕ) → low w (bit_or a b) ≡ bit_or (low w a) (low w b)
low-bit_or zero a b = refl
low-bit_or (suc w) a b =
    ap₂ (λ (s t : ℕ). low w s * 2 + t) {x = bit_or a b / 2} {y = bit_or (a / 2) (b / 2)}
      {u = bit_or a b % 2} {v = max (a % 2) (b % 2)} (omega (arith, bit_or_step a b))
      (omega (arith, bit_or_step a b))
    ∙ ap (λ (s : ℕ). s * 2 + max (a % 2) (b % 2)) (low-bit_or w (a / 2) (b / 2))
    ∙ sym (bit_or_cons (low w (a / 2)) (a % 2) (low w (b / 2)) (b % 2) (omega arith) (omega arith))

-- `w` bits of a number from bit `k` on.
abbrev pub field : (k w n : ℕ) → ℕ
field k w n = low w (shr n k)

pub field-bit_and : (k w a b : ℕ) → field k w (bit_and a b) ≡ bit_and (field k w a) (field k w b)
field-bit_and k w a b = ap (low w) (shr-bit_and k a b) ∙ low-bit_and w (shr a k) (shr b k)

pub field-bit_or : (k w a b : ℕ) → field k w (bit_or a b) ≡ bit_or (field k w a) (field k w b)
field-bit_or k w a b = ap (low w) (shr-bit_or k a b) ∙ low-bit_or w (shr a k) (shr b k)

-- With no bits, and with a mask of `w` ones.
pub bit_and-zero : (w n : ℕ) → bit_and (low w n) 0 ≡ 0
bit_and-zero zero n = refl
bit_and-zero (suc w) n = omega (
  arith,
  bit_and_cons (low w (n / 2)) (n % 2) 0 0 (omega arith) (omega arith),
  bit_and-zero w (n / 2),
)

pub bit_or-zero : (w n : ℕ) → bit_or (low w n) 0 ≡ low w n
bit_or-zero zero n = refl
bit_or-zero (suc w) n = omega (
  arith,
  bit_or_cons (low w (n / 2)) (n % 2) 0 0 (omega arith) (omega arith),
  bit_or-zero w (n / 2),
)

bit_and_none_from : (n a : ℕ) → a ≤ n → bit_and a 0 ≡ 0
bit_and_none_from zero zero h = refl
bit_and_none_from zero (suc a) h = absurd (omega arith)
bit_and_none_from (suc n) zero h = refl
bit_and_none_from (suc n) (suc a) h =
    omega (arith, bit_and_step (suc a) 0, bit_and_none_from n (suc a / 2) (omega arith))

pub bit_and_none : (a : ℕ) → bit_and a 0 ≡ 0
bit_and_none a = bit_and_none_from a a (omega arith)

-- A single bit.
pub bit_and-pow : (k n : ℕ) → bit_and n (2 ^ k) ≡ low 1 (shr n k) * 2 ^ k
bit_and-pow zero n = omega (arith, bit_and_step n 1, bit_and_none (n / 2))
bit_and-pow (suc k) n = omega (
  arith,
  bit_and_step n (2 ^ suc k),
  pow-suc 2 k,
  ap (bit_and (n / 2)) {x = 2 ^ suc k / 2} {y = 2 ^ k} (omega (arith, pow-suc 2 k)),
  bit_and-pow k (n / 2),
  ap (λ (t : ℕ). low 1 (shr n (suc k)) * t) (pow-suc 2 k),
)

abbrev pub ones : ℕ → ℕ
ones zero = 0
ones (suc w) = ones w * 2 + 1

pub bit_and-ones : (w n : ℕ) → bit_and (low w n) (ones w) ≡ low w n
bit_and-ones zero n = refl
bit_and-ones (suc w) n = omega (
  arith,
  bit_and_cons (low w (n / 2)) (n % 2) (ones w) 1 (omega arith) (omega arith),
  bit_and-ones w (n / 2),
)

pub zero-bit_or : (b : ℕ) → bit_or 0 b ≡ b
zero-bit_or b = bit_or-bitwise 0 b

-- Over a small range, every value is checked by evaluation.
unfoldable pub all_below : ℕ → (ℕ → Bool) → Bool
all_below zero p = true
all_below (suc n) p = p n && all_below n p

pub all_below-lt : (n : ℕ) (p : ℕ → Bool) (x : ℕ) → all_below n p ≡ true → x < n → p x ≡ true
unfolding all_below
all_below-lt zero p x h l = absurd (omega arith)
all_below-lt (suc n) p x h l = ground (arith, all_below-lt n p x)

bit_or_none_from : (n a : ℕ) → a ≤ n → bit_or a 0 ≡ a
bit_or_none_from zero a h = ap (λ (b : ℕ). bit_or b 0) {x = a} {y = 0} (omega arith) ∙ omega arith
bit_or_none_from (suc n) a h =
    omega (arith, bit_or_step a 0, bit_or_none_from n (a / 2) (omega arith))

-- An `or` of bits above and below bit `k` is a sum.
pub bit_or-apart : (k n f : ℕ) → f < 2 ^ k → bit_or (n * 2 ^ k) f ≡ n * 2 ^ k + f
bit_or-apart zero n f h =
    ap₂ bit_or {x = n * 1} {y = n} {u = f} {v = 0} (omega arith) (omega arith)
    ∙ bit_or_none_from n n (omega arith)
    ∙ omega arith
bit_or-apart (suc k) n f h =
    bit_or_step (n * 2 ^ suc k) f
    ∙ ap (λ (t : ℕ). t * 2 + max (n * 2 ^ suc k % 2) (f % 2))
        (ap (λ (t : ℕ). bit_or t (f / 2)) {x = n * 2 ^ suc k / 2} {y = n * 2 ^ k} halves
          ∙ bit_or-apart k n (f / 2) (omega (arith, pow-suc 2 k)))
    ∙ omega (arith, double)
  where
    double : n * 2 ^ suc k ≡ n * 2 ^ k * 2
    double = ap (λ (p : ℕ). n * p) (pow-suc 2 k) ∙ omega arith

    halves : n * 2 ^ suc k / 2 ≡ n * 2 ^ k
    halves = omega (arith, double)
