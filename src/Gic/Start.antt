-- ===== src/Gic/Start.antt =====
-- The controller after `gic_v3_initialize`.
use Prim.Native.Nat.{bit_and}
use nbos.Base.{
  ℕ, zero, suc, ◌+◌, ◌/◌, ◌%◌, ◌^◌, ◌<◌, ◌≤◌, ◌≡◌, refl, ◌∙◌, ap, arith, Bool, false, not, ◌&&◌,
  ◌||◌, ◌==◌, ltb, leb, ok,
}
use nbos.Gic.{
  timer_irq, spurious_intr, all_ones, fill, init_gicd, init_gicc, clear_active, gic_v3_initialize,
  update_field, gicd_enable_int, gicd_clear_pending, gicd_set_target, gicd_set_priority,
  gicd_config, icfgr_edge,
}
use nbos.Gic.Gicd
use nbos.Gic.Gicc

-- The registers that enable and disable interrupts.
abbrev pub is_enabler : ℕ → Bool
is_enabler a = leb (Gicd.isenabler 0) a && ltb a (Gicd.ispendr 0)

-- The registers that can raise an interrupt, or enable one from 64 on.
abbrev pub is_raiser : ℕ → Bool
is_raiser a =
    (leb (Gicd.ispendr 0) a && ltb a (Gicd.icpendr 0))
    || (leb (Gicd.isenabler 2) a && ltb a (Gicd.icenabler 0))
    || (leb (Gicd.icfgr 64) a && ltb a Gicc.base)

-- The controllers on which a write to GICD_ISENABLER enables the interrupt of its bit, a write of ones
-- to GICD_ICENABLER disables those of the register, and nothing else enables or disables one, for the
-- interrupts 16 to 63; `enabled` tells which of them are. `Silent` holds of a controller where no
-- software-generated interrupt (0 to 15) is pending and none from 64 on is enabled, which a write to
-- another register does not change. If no interrupt from 16 to 63 is enabled either, GICC_IAR reads as
-- spurious.
pub record IsController {Dev : Type 0} (read : Dev → ℕ → ℕ × Dev) (write : Dev → ℕ → ℕ → Dev)
    (enabled : Dev → ℕ → Bool) (Silent : Dev → Type 0) : Type 0 where
  pub enable :
      (d : Dev) (irq i : ℕ)
      → irq < 64
      → 16 ≤ i
      → i < 64
      → enabled (write d (Gicd.isenabler (irq / 32)) (2 ^ (irq % 32))) i
        ≡ ((i == irq) || enabled d i)
  pub disable :
      (d : Dev) (k i : ℕ)
      → k < 2
      → 16 ≤ i
      → i < 64
      → enabled (write d (Gicd.icenabler k) all_ones) i ≡ (not (i / 32 == k) && enabled d i)
  pub other :
      (d : Dev) (a v i : ℕ)
      → is_enabler a ≡ false
      → 16 ≤ i
      → i < 64
      → enabled (write d a v) i ≡ enabled d i
  pub quiet : (d : Dev) (a i : ℕ) → 16 ≤ i → i < 64 → enabled (read d a).1 i ≡ enabled d i
  pub silent : (d : Dev) (a v : ℕ) → Silent d → is_raiser a ≡ false → Silent (write d a v)
  pub spurious :
      (d : Dev)
      → Silent d
      → ((i : ℕ) → 16 ≤ i → i < 64 → enabled d i ≡ false)
      → bit_and (read d Gicc.iar).0 0x3ff ≡ spurious_intr

two_words : (i : ℕ) (x : Bool) → i < 64 → (not (i / 32 == 1) && (not (i / 32 == 0) && x)) ≡ false
two_words i x l = ground arith

module _ {Dev : Type 0} (read : Dev → ℕ → ℕ × Dev) (write : Dev → ℕ → ℕ → Dev)
    (enabled : Dev → ℕ → Bool) (Silent : Dev → Type 0)
    (c : IsController read write enabled Silent) where
  fill-other :
      (reg : ℕ → ℕ) (n j v : ℕ) (d : Dev) (i : ℕ)
      → ((k : ℕ) → k < j + n → is_enabler (reg k) ≡ false)
      → 16 ≤ i
      → i < 64
      → enabled (fill read write reg n j v d) i ≡ enabled d i
  unfolding fill
  fill-other reg zero j v d i o m l = refl
  fill-other reg (suc n) j v d i o m l =
      fill-other reg n (j + 1) v (write d (reg j) v) i (λ k h. o k (omega (arith, h))) m l
      ∙ c.other d (reg j) v i (o j (omega arith)) m l

  update_field-other :
      (a mask shift v : ℕ) (d : Dev) (i : ℕ)
      → is_enabler a ≡ false
      → 16 ≤ i
      → i < 64
      → enabled (update_field read write a mask shift v d) i ≡ enabled d i
  unfolding update_field
  update_field-other a mask shift v d i o m l = c.other (read d a).1 a _ i o m l ∙ c.quiet d a i m l

  fill-Silent :
      (reg : ℕ → ℕ) (n j v : ℕ) (d : Dev)
      → ((k : ℕ) → k < j + n → is_raiser (reg k) ≡ false)
      → Silent d
      → Silent (fill read write reg n j v d)
  unfolding fill
  fill-Silent reg zero j v d o q = q
  fill-Silent reg (suc n) j v d o q =
      fill-Silent reg n (j + 1) v (write d (reg j) v) (λ k h. o k (omega (arith, h)))
        (c.silent d (reg j) v q (o j (omega arith)))

  init_gicd-Silent : (d : Dev) → Silent d → Silent (init_gicd read write d)
  unfolding init_gicd
  init_gicd-Silent d q =
      let d₀ = write d Gicd.ctlr 0 in
      let d₁ = fill read write Gicd.icenabler 2 0 all_ones d₀ in
      let d₂ = fill read write Gicd.icpendr 2 0 all_ones d₁ in
      let d₃ = fill read write Gicd.ipriorityr 16 0 all_ones d₂ in
      let d₄ = fill read write Gicd.itargetsr 8 8 0x01010101 d₃ in
      let d₅ = fill read write Gicd.icfgr 3 1 0 d₄ in
      let q₀ = c.silent d Gicd.ctlr 0 q refl in
      let q₁ = fill-Silent Gicd.icenabler 2 0 all_ones d₀ (λ k h. ground (arith, h)) q₀ in
      let q₂ = fill-Silent Gicd.icpendr 2 0 all_ones d₁ (λ k h. ground (arith, h)) q₁ in
      let q₃ = fill-Silent Gicd.ipriorityr 16 0 all_ones d₂ (λ k h. ground (arith, h)) q₂ in
      let q₄ = fill-Silent Gicd.itargetsr 8 8 0x01010101 d₃ (λ k h. ground (arith, h)) q₃ in
      let q₅ = fill-Silent Gicd.icfgr 3 1 0 d₄ (λ k h. ground (arith, h)) q₄ in
      c.silent d₅ Gicd.ctlr 1 q₅ refl

  init_gicd-disabled :
      (d : Dev) (i : ℕ) → 16 ≤ i → i < 64 → enabled (init_gicd read write d) i ≡ false
  unfolding init_gicd fill
  init_gicd-disabled d i m l =
      let d₀ = write d Gicd.ctlr 0 in
      let d₁ = fill read write Gicd.icenabler 2 0 all_ones d₀ in
      let d₂ = fill read write Gicd.icpendr 2 0 all_ones d₁ in
      let d₃ = fill read write Gicd.ipriorityr 16 0 all_ones d₂ in
      let d₄ = fill read write Gicd.itargetsr 8 8 0x01010101 d₃ in
      let d₅ = fill read write Gicd.icfgr 3 1 0 d₄ in
      c.other d₅ Gicd.ctlr 1 i refl m l
      ∙ fill-other Gicd.icfgr 3 1 0 d₄ i (λ k h. ground (arith, h)) m l
      ∙ fill-other Gicd.itargetsr 8 8 0x01010101 d₃ i (λ k h. ground (arith, h)) m l
      ∙ fill-other Gicd.ipriorityr 16 0 all_ones d₂ i (λ k h. ground (arith, h)) m l
      ∙ fill-other Gicd.icpendr 2 0 all_ones d₁ i (λ k h. ground (arith, h)) m l
      ∙ c.disable (write d₀ (Gicd.icenabler 0) all_ones) 1 i (omega arith) m l
      ∙ ap (λ (x : Bool). not (i / 32 == 1) && x) (c.disable d₀ 0 i (omega arith) m l)
      ∙ two_words i (enabled d₀ i) l

  init_gicc-disabled :
      (fuel : ℕ) (d : Dev)
      → Silent d
      → ((i : ℕ) → 16 ≤ i → i < 64 → enabled d i ≡ false)
      → (e : Dev) × (init_gicc read write (suc fuel) d ≡ ok e)
        × ((i : ℕ) → 16 ≤ i → i < 64 → enabled e i ≡ false)
  unfolding init_gicc clear_active
  init_gicc-disabled fuel d q o =
      let d₀ = write d Gicc.ctlr 0 in
      let d₁ = write d₀ Gicc.pmr 0xff in
      let d₂ = write d₁ Gicc.bpr 0 in
      let disabled : (i : ℕ) → 16 ≤ i → i < 64 → enabled d₂ i ≡ false = λ i m l.
        c.other d₁ Gicc.bpr 0 i refl m l
        ∙ c.other d₀ Gicc.pmr 0xff i refl m l
        ∙ c.other d Gicc.ctlr 0 i refl m l
        ∙ o i m l in
      let silent : Silent d₂ =
        c.silent d₁ Gicc.bpr 0 (c.silent d₀ Gicc.pmr 0xff (c.silent d Gicc.ctlr 0 q refl) refl)
          refl in
      let e = (read d₂ Gicc.iar).1 in
      (
        write e Gicc.ctlr 1,
        rw (c.spurious d₂ silent disabled, init_gicc),
        λ i m l. c.other e Gicc.ctlr 1 i refl m l ∙ c.quiet d₂ Gicc.iar i m l ∙ disabled i m l,
      )

  -- On such a controller, when it is silent, `gic_v3_initialize` returns, in the first round of its
  -- loop, and of the interrupts 16 to 63 exactly that of the timer is enabled then.
  pub gic_v3_initialize-enabled :
      (fuel : ℕ) (d : Dev)
      → Silent d
      → (e : Dev) × (gic_v3_initialize read write (suc fuel) d ≡ ok e)
        × ((i : ℕ) → 16 ≤ i → i < 64 → enabled e i ≡ (i == timer_irq))
  unfolding gic_v3_initialize gicd_enable_int gicd_clear_pending gicd_set_target gicd_set_priority
      gicd_config
  gic_v3_initialize-enabled fuel d q =
      let (e, run, disabled) =
        init_gicc-disabled fuel (init_gicd read write d) (init_gicd-Silent d q)
          (init_gicd-disabled d) in
      let e₁ = gicd_config read write timer_irq icfgr_edge e in
      let e₂ = gicd_set_priority read write timer_irq 0 e₁ in
      let e₃ = gicd_set_target read write timer_irq 1 e₂ in
      let e₄ = gicd_clear_pending read write timer_irq e₃ in
      (
        gicd_enable_int read write timer_irq e₄,
        rw (run, gic_v3_initialize),
        λ i m l.
            c.enable e₄ timer_irq i (omega arith) m l
            ∙ ap (λ (x : Bool). (i == timer_irq) || x)
                (c.other e₃ (Gicd.icpendr 0) (2 ^ 27) i refl m l
                  ∙ update_field-other (Gicd.itargetsr 6) 0xff 24 1 e₂ i refl m l
                  ∙ update_field-other (Gicd.ipriorityr 6) 0xff 24 0 e₁ i refl m l
                  ∙ update_field-other (Gicd.icfgr 1) 0x03 22 icfgr_edge e i refl m l
                  ∙ disabled i m l)
            ∙ ground arith,
      )
