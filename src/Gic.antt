-- ===== src/Gic.antt =====
-- arch/gic_v3.c and include/gic_v3.h: the driver of the interrupt controller. The controller is a
-- parameter: `read` and `write` are the accesses to its registers by address; a read may change it.
pub mod Gicd
pub mod Gicc
pub mod Fields
pub mod Pending
pub mod Start
use Gicd
use Gicc
use Prim.Native.Nat.{bit_and, bit_or}
use nbos.Base.{
  ℕ, zero, suc, ◌+◌, ◌-◌, ◌*◌, ◌/◌, ◌%◌, ◌^◌, Bool, not, ◌==◌, if◌then◌else◌, Option, none, some,
  Run, ok, out_of_fuel,
}
use nbos.Cpu.{complement}

abbrev pub gic_int_max : ℕ
gic_int_max = 64

abbrev pub timer_irq : ℕ
timer_irq = 27

abbrev pub icfgr_edge : ℕ
icfgr_edge = 0x2

abbrev pub spurious_intr : ℕ
spurious_intr = 0x3ff

abbrev pub all_ones : ℕ
all_ones = 2 ^ 32 - 1

-- `reg &= ~(mask << shift); reg |= (value << shift);` on 32 bits
unfoldable pub put_field : (mask shift value reg : ℕ) → ℕ
put_field mask shift value reg =
    bit_or (bit_and reg (complement (mask * 2 ^ shift))) (value * 2 ^ shift % 2 ^ 32)

-- The test of `gicd_probe_pending` on the word that it reads.
abbrev pub is_pending : (word irq : ℕ) → Bool
is_pending word irq = not (bit_and word (2 ^ (irq % 32)) == 0)

module _ {Dev : Type 0} (read : Dev → ℕ → ℕ × Dev) (write : Dev → ℕ → ℕ → Dev) where
  unfoldable pub gicd_disable_int : (irq : ℕ) → Dev → Dev
  gicd_disable_int irq d = write d (Gicd.icenabler (irq / 32)) (2 ^ (irq % 32))

  unfoldable pub gicd_enable_int : (irq : ℕ) → Dev → Dev
  gicd_enable_int irq d = write d (Gicd.isenabler (irq / 32)) (2 ^ (irq % 32))

  unfoldable pub gicd_clear_pending : (irq : ℕ) → Dev → Dev
  gicd_clear_pending irq d = write d (Gicd.icpendr (irq / 32)) (2 ^ (irq % 32))

  unfoldable pub gicd_probe_pending : (irq : ℕ) → Dev → Bool × Dev
  gicd_probe_pending irq d =
      let (word, e) = read d (Gicd.ispendr (irq / 32)) in (is_pending word irq, e)

  -- A register is read, one field of it is changed, and it is written.
  unfoldable pub update_field : (addr mask shift value : ℕ) → Dev → Dev
  update_field addr mask shift value d =
      let (reg, e) = read d addr in write e addr (put_field mask shift value reg)

  unfoldable pub gicd_set_target : (irq p : ℕ) → Dev → Dev
  unfolding update_field
  gicd_set_target irq p d = update_field (Gicd.itargetsr (irq / 4)) 0xff (irq % 4 * 8) p d

  unfoldable pub gicd_set_priority : (irq prio : ℕ) → Dev → Dev
  unfolding update_field
  gicd_set_priority irq prio d = update_field (Gicd.ipriorityr (irq / 4)) 0xff (irq % 4 * 8) prio d

  unfoldable pub gicd_config : (irq config : ℕ) → Dev → Dev
  unfolding update_field
  gicd_config irq config d = update_field (Gicd.icfgr (irq / 16)) 0x03 (irq % 16 * 2) config d

  abbrev pub gic_v3_eoi : (irq : ℕ) → Dev → Dev
  gic_v3_eoi irq = gicd_clear_pending irq

  -- `n` registers from index `i` on get the same value.
  unfoldable pub fill : (reg : ℕ → ℕ) → (n i value : ℕ) → Dev → Dev
  fill reg zero i value d = d
  fill reg (suc n) i value d = fill reg n (i + 1) value (write d (reg i) value)

  unfoldable pub init_gicd : Dev → Dev
  unfolding fill
  init_gicd d =
      let d = write d Gicd.ctlr 0 in
      let d = fill Gicd.icenabler (gic_int_max / 32) 0 all_ones d in
      let d = fill Gicd.icpendr (gic_int_max / 32) 0 all_ones d in
      let d = fill Gicd.ipriorityr (gic_int_max / 4) 0 all_ones d in
      let d = fill Gicd.itargetsr (gic_int_max / 4 - 32 / 4) (32 / 4) 0x01010101 d in
      let d = fill Gicd.icfgr (gic_int_max / 16 - 16 / 16) (16 / 16) 0 d in write d Gicd.ctlr 1

  -- `*REG_GIC_GICC_EOIR = *REG_GIC_GICC_IAR` acknowledges once more, until the identifier that the
  -- loop reads is the spurious one.
  unfoldable pub clear_active : ℕ → Dev → Run Dev
  clear_active zero d = out_of_fuel
  clear_active (suc k) d =
      let (word, d₁) = read d Gicc.iar in
      let (again, d₂) = read d₁ Gicc.iar in
      let rest = clear_active k (write d₂ Gicc.eoir again) in
      if bit_and word 0x3ff == spurious_intr then ok d₁ else rest

  unfoldable pub init_gicc : ℕ → Dev → Run Dev
  unfolding clear_active
  init_gicc fuel d =
      elim (clear_active fuel (write (write (write d Gicc.ctlr 0) Gicc.pmr 0xff) Gicc.bpr 0)) [
        | ok e ↦ ok (write e Gicc.ctlr 1)
        | r ↦ r
      ]

  unfoldable pub gic_v3_initialize : ℕ → Dev → Run Dev
  gic_v3_initialize fuel d = elim (init_gicc fuel (init_gicd d)) [
    | ok e ↦ ok (
        gicd_enable_int timer_irq (
          gicd_clear_pending timer_irq (
            gicd_set_target timer_irq 1
              (gicd_set_priority timer_irq 0 (gicd_config timer_irq icfgr_edge e)))))
    | r ↦ r
  ]

  -- The loop over the interrupts, from `i` on; `none` is `IRQ_NOT_FOUND`.
  unfoldable pub find_from : (n i : ℕ) → Dev → Option ℕ × Dev
  find_from zero i d = (none, d)
  find_from (suc n) i d =
      let (found, e) = gicd_probe_pending i d in
      let rest = find_from n (i + 1) e in if found then (some i, e) else rest

  unfoldable pub gic_v3_find_pending_irq : Dev → Option ℕ × Dev
  unfolding find_from
  gic_v3_find_pending_irq d = find_from gic_int_max 0 d
