-- ===== src/Interrupt.antt =====
-- arch/exception.c and arch/timer.c: an interrupt from its arrival to the switch of tasks, over the
-- processor, the interrupt controller and the tasks. The messages that `irq_dispatch` prints are left
-- out. The controller is the parameter of `Gic`.
pub mod Dispatch
use Prim.Native.Nat.{bit_and}
use nbos.Base.{
  ℕ, ◌+◌, ◌*◌, ◌/◌, ◌%◌, ◌^◌, ◌-◌, ◌==◌, if◌then◌else◌, Option, none, some, List, [], ◌∷◌, M, Run,
  ok, and_then, ◌>>=◌, ◌>>◌,
}
use nbos.Console.{num, Printed, printf}
use nbos.Cpu.{
  Cpu, disable_cntv, enable_cntv, raw_read_cntvct_el0, raw_read_cntfrq_el0, raw_write_cntv_cval_el0,
}
use nbos.Gic.{timer_irq, gicd_clear_pending, gic_v3_find_pending_irq, gic_v3_initialize}
use nbos.Task.{Kernel, scheduler_tick}

abbrev pub timer_period_ms : ℕ
timer_period_ms = 10

-- `ESR_EC_MASK` with its shift, and `ESR_ISS_MASK`, as `put_exception` decodes the syndrome.
abbrev pub exception_class : ℕ → ℕ
exception_class esr = bit_and esr (0x3f * 2 ^ 26) / 2 ^ 26

abbrev pub exception_syndrome : ℕ → ℕ
exception_syndrome esr = bit_and esr (2 ^ 24 - 1)

-- What is printed of an exception that is not handled. A loop without end follows.
unfoldable pub put_exception : {S : Type 0} → (number lr esr : ℕ) → M (Printed S) (Unit {0})
put_exception number lr esr = do
  printf "enter exception %d, entry is 0x%x, " (num number ∷ num lr ∷ [])
  printf "exception class %#x, ISS is %#x\n"
      (num (exception_class esr) ∷ num (exception_syndrome esr) ∷ [])

-- Of the processor the handler uses the timer; whether interrupts are on is `irq_on` of the kernel,
-- which `scheduler_tick` changes.
pub record Machine (Dev : Type 0) : Type 0 where
  pub dev : Dev
  pub cpu : Cpu
  pub kernel : Kernel
  pub jiffies : ℕ
  pub ticks : ℕ

module _ {Dev : Type 0} (read : Dev → ℕ → ℕ × Dev) (write : Dev → ℕ → ℕ → Dev) where
  -- Up to `scheduler_tick`: the timer is stopped, set to its next period, and started again.
  unfoldable pub next_period : Machine Dev → Machine Dev
  unfolding disable_cntv enable_cntv
  next_period m =
      let c = disable_cntv m.cpu in
      let d = gicd_clear_pending read write timer_irq m.dev in
      let c = raw_write_cntv_cval_el0 ((raw_read_cntvct_el0 c + m.ticks) % 2 ^ 64) c in
      record m { dev = d; cpu = enable_cntv c; jiffies = (m.jiffies + 1) % 2 ^ 64 }

  -- `scheduler_tick` lets interrupts in; one that arrives there is a run of its own and not modelled.
  unfoldable pub timer_handler : Machine Dev → Run (Machine Dev)
  unfolding next_period
  timer_handler m =
      let n = next_period m in
      and_then (scheduler_tick n.kernel) λ (_, k). ok (record n { kernel = k })

  -- The part of `irq_dispatch` that handles the interrupt found.
  unfoldable pub handle_irq : Option ℕ → Machine Dev → Run (Machine Dev)
  unfolding timer_handler
  handle_irq none m = ok m
  handle_irq (some irq) m = if irq == timer_irq then timer_handler m else ok m

  unfoldable pub irq_dispatch : Machine Dev → Run (Machine Dev)
  unfolding handle_irq
  irq_dispatch m =
      let (irq, d) = gic_v3_find_pending_irq read write m.dev in
      handle_irq irq (record m { dev = d })

  unfoldable pub timer_init : ℕ → Machine Dev → Run (Machine Dev)
  timer_init fuel m = and_then (gic_v3_initialize read write fuel m.dev) λ d.
      let c = disable_cntv m.cpu in
      let ticks = timer_period_ms * (raw_read_cntfrq_el0 c / 1000) in
      let c = raw_write_cntv_cval_el0 ((raw_read_cntvct_el0 c + ticks) % 2 ^ 64) c in
      ok (record m { dev = d; cpu = enable_cntv c; ticks = ticks })
