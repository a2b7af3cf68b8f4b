-- ===== src/Tests/Controller.antt =====
-- A controller whose registers keep what is written, with the processor and the tasks beside it.
use nbos.Base.{ℕ, ◌^◌, ◌≡◌, refl, arith, ◌==◌, if◌then◌else◌, Option, ok}
use nbos.Cpu.{Cpu}
use nbos.Cpu.Masks.{Sections, leaf, nest, run_sections, Masked, run_sections-Masked}
use nbos.Gic.{gic_v3_find_pending_irq, gicd_set_priority, gicd_set_target, gicd_config}
use nbos.Gic.Gicd
use nbos.Gic.Fields.{SetsField, gicd_set-SetsField}
use nbos.Gic.Pending.{IsQuiet, IsLeast, gic_v3_find_pending_irq-IsLeast}
use nbos.Interrupt.{Machine, irq_dispatch}
use nbos.Interrupt.Dispatch.{is_timer, Handled, irq_dispatch-Handled}
use nbos.Tests.Tasks.{kernel, kernel-IsBalanced}

abbrev Registers : Type 0
Registers = ℕ → ℕ

abbrev read : Registers → ℕ → ℕ × Registers
read d a = (d a, d)

abbrev write : Registers → ℕ → ℕ → Registers
write d a v b = if b == a then v else d b

-- The interrupt of the timer is pending.
abbrev registers : Registers
registers a = if a == Gicd.ispendr 0 then 2 ^ 27 else 0

registers-IsQuiet : IsQuiet read write
registers-IsQuiet d k = refl

gicd_set-SetsField_example :
    SetsField read write
      (Gicd.ipriorityr 6)
      8
      4
      3
      0
      registers
      (gicd_set_priority read write 27 0 registers)
    × SetsField read write
        (Gicd.itargetsr 6)
        8
        4
        3
        1
        registers
        (gicd_set_target read write 27 1 registers)
    × SetsField read write
        (Gicd.icfgr 1)
        2
        16
        11
        2
        registers
        (gicd_config read write 27 2 registers)
gicd_set-SetsField_example =
    gicd_set-SetsField read write registers 27 0 1 2 (omega arith) (omega arith) (omega arith)

gic_v3_find_pending_irq-IsLeast_example :
    (r : Option ℕ) × (gic_v3_find_pending_irq read write registers ≡ (r, registers))
    × IsLeast read write registers 64 0 r
gic_v3_find_pending_irq-IsLeast_example =
    gic_v3_find_pending_irq-IsLeast read write registers registers-IsQuiet

abbrev cpu : Cpu
cpu = record {
  current_el = 4;
  daif = 0;
  spsr_el1 = 0;
  isr_el1 = 0;
  rvbar_el1 = 0;
  vbar_el1 = 0;
  cntv_ctl = 1;
  cntfrq_el0 = 62500000;
  cntvct_el0 = 1000;
  cntv_cval_el0 = 1000;
}

abbrev machine : Machine Registers
machine = record { dev = registers; cpu = cpu; kernel = kernel; jiffies = 3; ticks = 625000 }

irq_dispatch-Handled_example :
    (r : Option ℕ) × (t : Machine Registers) × IsLeast read write registers 64 0 r
    × (irq_dispatch read write machine ≡ ok t)
    × Handled read write (is_timer r) machine t
irq_dispatch-Handled_example =
    irq_dispatch-Handled read write machine registers-IsQuiet kernel-IsBalanced refl (omega arith)
      (omega arith)

abbrev sections : Sections
sections = nest (nest leaf leaf) (nest leaf leaf)

run_sections-Masked_example : Masked sections cpu × (run_sections sections cpu ≡ cpu)
run_sections-Masked_example = run_sections-Masked sections cpu (0, omega arith, refl)
