-- ===== src/Gic/Pending.antt =====
-- Which interrupt `gic_v3_find_pending_irq` finds.
use nbos.Base.{
  ℕ, zero, suc, ◌+◌, ◌*◌, ◌/◌, ◌%◌, ◌^◌, ◌<◌, ◌≤◌, ◌≡◌, refl, ◌∙◌, ap, arith, Bool, true, false,
  not, ◌==◌, Option, none, some, Bool-cases, ==→eq, inl, inr,
}
use nbos.Base.Bits.{field, bit_and-pow}
use native.Mathlib.Nat.{one-le-pow}
use nbos.Gic.{is_pending, gicd_probe_pending, find_from, gic_v3_find_pending_irq}
use nbos.Gic.Gicd

-- Bit `k` of a word.
abbrev pub bit : ℕ → ℕ → Bool
bit k word = field k 1 word == 1

digit_test : (f p : ℕ) → f < 2 → 0 < p → not (f * p == 0) ≡ (f == 1)
digit_test zero p h z = ground arith
digit_test (suc zero) p h z = ground arith
digit_test (suc (suc f)) p h z = absurd (omega arith)

is_pending-bit : (word irq : ℕ) → is_pending word irq ≡ bit (irq % 32) word
is_pending-bit word irq =
    ap (λ (t : ℕ). not (t == 0)) (bit_and-pow (irq % 32) word)
    ∙ digit_test (field (irq % 32) 1 word) (2 ^ (irq % 32)) (omega arith)
        (omega (arith, one-le-pow (irq % 32) 2))

module _ {Dev : Type 0} (read : Dev → ℕ → ℕ × Dev) (write : Dev → ℕ → ℕ → Dev) where
  -- A read of the pending registers tells their state and changes nothing.
  abbrev pub IsQuiet : Type 0
  IsQuiet = (d : Dev) (k : ℕ) → (read d (Gicd.ispendr k)).1 ≡ d

  -- The controller shows the interrupt as pending.
  abbrev pub raised : Dev → ℕ → Bool
  raised d irq = bit (irq % 32) (read d (Gicd.ispendr (irq / 32))).0

  -- The least pending interrupt from `i` on, `n` of them being looked at.
  abbrev pub IsLeast : (d : Dev) (n i : ℕ) → Option ℕ → Type 0
  IsLeast d n i none = (j : ℕ) → i ≤ j → j < i + n → raised d j ≡ false
  IsLeast d n i (some k) =
      (i ≤ k) × (k < i + n) × (raised d k ≡ true) × ((j : ℕ) → i ≤ j → j < k → raised d j ≡ false)

  probe : (d : Dev) (irq : ℕ) → IsQuiet → gicd_probe_pending read write irq d ≡ (raised d irq, d)
  unfolding gicd_probe_pending
  probe d irq q =
      ap (λ (b : Bool). (b, (read d (Gicd.ispendr (irq / 32))).1))
        (is_pending-bit (read d (Gicd.ispendr (irq / 32))).0 irq)
      ∙ ap (λ (e : Dev). (raised d irq, e)) (q d (irq / 32))

  later :
      (d : Dev) (n i : ℕ) (r : Option ℕ)
      → raised d i ≡ false
      → IsLeast d n (i + 1) r
      → IsLeast d (suc n) i r
  later d n i none e l = λ j a b. elim (Bool-cases (j == i)) [
    | inl h ↦ ap (raised d) (==→eq j i h) ∙ e
    | inr h ↦ l j (ground arith) (omega arith)
  ]
  later d n i (some k) e (a, b, c, l) = (
    omega arith,
    omega arith,
    c,
    λ j p q. elim (Bool-cases (j == i)) [
      | inl h ↦ ap (raised d) (==→eq j i h) ∙ e
      | inr h ↦ l j (ground arith) q
    ],
  )

  find_from-IsLeast :
      (n i : ℕ) (d : Dev)
      → IsQuiet
      → (r : Option ℕ) × (find_from read write n i d ≡ (r, d)) × IsLeast d n i r
  unfolding find_from
  find_from-IsLeast zero i d q = (none, refl, λ j a b. absurd (omega arith))
  find_from-IsLeast (suc n) i d q =
      let (r, run, least) = find_from-IsLeast n (i + 1) d q in
      elim (Bool-cases (raised d i)) [
        | inl e ↦ (
          some i,
          rw (probe d i q, e),
          (omega arith, omega arith, e, λ j a b. absurd (omega arith)),
        )
        | inr e ↦ (r, rw (probe d i q, e, run), later d n i r e least)
      ]

  -- On a controller that shows its pending interrupts, `gic_v3_find_pending_irq` returns the pending
  -- interrupt with the lowest number, or `IRQ_NOT_FOUND` if none of the 64 is pending; the controller
  -- is as before.
  pub gic_v3_find_pending_irq-IsLeast :
      (d : Dev)
      → IsQuiet
      → (r : Option ℕ) × (gic_v3_find_pending_irq read write d ≡ (r, d)) × IsLeast d 64 0 r
  unfolding gic_v3_find_pending_irq
  gic_v3_find_pending_irq-IsLeast d q = find_from-IsLeast 64 0 d q
