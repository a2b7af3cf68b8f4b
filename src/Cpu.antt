-- ===== src/Cpu.antt =====
-- arch/aarch64.c and include/aarch64.h: the system registers that the kernel reads and writes, one
-- instruction each. Registers of 32 bits are read and written as such.
pub mod Masks
use Prim.Native.Nat.{bit_and, bit_or}
use nbos.Base.{ℕ, ◌-◌, ◌*◌, ◌/◌, ◌%◌, ◌^◌, Bool, ◌==◌, if◌then◌else◌}

-- `cntvct` counts by itself: it is what a read finds at that time.
pub record Cpu : Type 0 where
  pub current_el : ℕ
  pub daif : ℕ
  pub spsr_el1 : ℕ
  pub isr_el1 : ℕ
  pub rvbar_el1 : ℕ
  pub vbar_el1 : ℕ
  pub cntv_ctl : ℕ
  pub cntfrq_el0 : ℕ
  pub cntvct_el0 : ℕ
  pub cntv_cval_el0 : ℕ

abbrev pub daif_dbg_bit : ℕ
daif_dbg_bit = 2 ^ 3

abbrev pub daif_abt_bit : ℕ
daif_abt_bit = 2 ^ 2

abbrev pub daif_irq_bit : ℕ
daif_irq_bit = 2 ^ 1

abbrev pub daif_fiq_bit : ℕ
daif_fiq_bit = 2 ^ 0

abbrev pub spsr_daif_shift : ℕ
spsr_daif_shift = 6

abbrev pub cntv_ctl_enable : ℕ
cntv_ctl_enable = 2 ^ 0

-- `~m` on 32 bits
abbrev pub complement : ℕ → ℕ
complement m = 2 ^ 32 - 1 - m

-- `msr DAIFSet, #bits` and `msr DAIFClr, #bits`
unfoldable pub daif_set : ℕ → Cpu → Cpu
daif_set bits c = record c { daif = bit_or c.daif (bits * 2 ^ spsr_daif_shift) }

unfoldable pub daif_clr : ℕ → Cpu → Cpu
daif_clr bits c = record c { daif = bit_and c.daif (complement (bits * 2 ^ spsr_daif_shift)) }

abbrev pub raw_read_current_el : Cpu → ℕ
raw_read_current_el c = c.current_el % 2 ^ 32

abbrev pub get_current_el : Cpu → ℕ
get_current_el c = bit_and (raw_read_current_el c / 2 ^ 2) 0x3

abbrev pub raw_read_daif : Cpu → ℕ
raw_read_daif c = c.daif % 2 ^ 32

abbrev pub raw_write_daif : ℕ → Cpu → Cpu
raw_write_daif v c = record c { daif = v }

abbrev pub enable_debug_exceptions : Cpu → Cpu
enable_debug_exceptions = daif_clr daif_dbg_bit

abbrev pub enable_serror_exceptions : Cpu → Cpu
enable_serror_exceptions = daif_clr daif_abt_bit

abbrev pub enable_irq : Cpu → Cpu
enable_irq = daif_clr daif_irq_bit

abbrev pub enable_fiq : Cpu → Cpu
enable_fiq = daif_clr daif_fiq_bit

abbrev pub disable_debug_exceptions : Cpu → Cpu
disable_debug_exceptions = daif_set daif_dbg_bit

abbrev pub disable_serror_exceptions : Cpu → Cpu
disable_serror_exceptions = daif_set daif_abt_bit

abbrev pub disable_irq : Cpu → Cpu
disable_irq = daif_set daif_irq_bit

abbrev pub disable_fiq : Cpu → Cpu
disable_fiq = daif_set daif_fiq_bit

abbrev pub raw_read_spsr_el1 : Cpu → ℕ
raw_read_spsr_el1 c = c.spsr_el1 % 2 ^ 32

abbrev pub raw_write_spsr_el1 : ℕ → Cpu → Cpu
raw_write_spsr_el1 v c = record c { spsr_el1 = v }

abbrev pub raw_read_isr_el1 : Cpu → ℕ
raw_read_isr_el1 c = c.isr_el1 % 2 ^ 32

abbrev pub raw_read_rvbar_el1 : Cpu → ℕ
raw_read_rvbar_el1 c = c.rvbar_el1

abbrev pub raw_write_rvbar_el1 : ℕ → Cpu → Cpu
raw_write_rvbar_el1 v c = record c { rvbar_el1 = v }

abbrev pub raw_read_vbar_el1 : Cpu → ℕ
raw_read_vbar_el1 c = c.vbar_el1

abbrev pub raw_write_vbar_el1 : ℕ → Cpu → Cpu
raw_write_vbar_el1 v c = record c { vbar_el1 = v }

abbrev pub raw_read_cntv_ctl : Cpu → ℕ
raw_read_cntv_ctl c = c.cntv_ctl % 2 ^ 32

unfoldable pub disable_cntv : Cpu → Cpu
disable_cntv c = record c { cntv_ctl = bit_and (raw_read_cntv_ctl c) (complement cntv_ctl_enable) }

unfoldable pub enable_cntv : Cpu → Cpu
enable_cntv c = record c { cntv_ctl = bit_or (raw_read_cntv_ctl c) cntv_ctl_enable }

abbrev pub raw_read_cntfrq_el0 : Cpu → ℕ
raw_read_cntfrq_el0 c = c.cntfrq_el0 % 2 ^ 32

abbrev pub raw_write_cntfrq_el0 : ℕ → Cpu → Cpu
raw_write_cntfrq_el0 v c = record c { cntfrq_el0 = v }

abbrev pub raw_read_cntvct_el0 : Cpu → ℕ
raw_read_cntvct_el0 c = c.cntvct_el0

abbrev pub raw_read_cntv_cval_el0 : Cpu → ℕ
raw_read_cntv_cval_el0 c = c.cntv_cval_el0

abbrev pub raw_write_cntv_cval_el0 : ℕ → Cpu → Cpu
raw_write_cntv_cval_el0 v c = record c { cntv_cval_el0 = v }

-- The flag is the mask bit of interrupts as it was.
unfoldable pub disable_irqsave : Cpu → ℕ × Cpu
unfolding daif_set
disable_irqsave c = (bit_and c.daif (daif_irq_bit * 2 ^ spsr_daif_shift), daif_set daif_irq_bit c)

unfoldable pub enable_irqsave : (flag : ℕ) → Cpu → Cpu
unfolding daif_clr
enable_irqsave flag c =
    if bit_and flag (daif_irq_bit * 2 ^ spsr_daif_shift) == 0 then daif_clr daif_irq_bit c else c
