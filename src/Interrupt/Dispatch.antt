-- ===== src/Interrupt/Dispatch.antt =====
-- What an interrupt does to the whole machine.
use nbos.Base.{
  ℕ, if◌then◌else◌, ◌+◌, ◌%◌, ◌^◌, ◌<◌, arith, ◌≡◌, refl, ◌∙◌, ap, Bool, true, false, not, ◌==◌,
  Option, none, some, ok, Bool-cases, inl, inr,
}
use nbos.Cpu.{disable_cntv, enable_cntv}
use nbos.Gic.{timer_irq, gicd_clear_pending}
use nbos.Gic.Pending.{IsQuiet, IsLeast, gic_v3_find_pending_irq-IsLeast}
use nbos.Task.{node_of}
use nbos.Task.Switch.{IsBalanced, can_switch_to, successor}
use nbos.Task.Schedule.{is_in_tick, Scheduled, scheduler_tick-Scheduled}
use nbos.Interrupt.{Machine, next_period, timer_handler, handle_irq, irq_dispatch}

abbrev pub is_timer : Option ℕ → Bool
is_timer none = false
is_timer (some i) = i == timer_irq

module _ {Dev : Type 0} (read : Dev → ℕ → ℕ × Dev) (write : Dev → ℕ → ℕ → Dev) where
  -- One period of the timer: its interrupt is cleared at the controller, the next one is due `ticks`
  -- after the counter and ahead of it, so that no further interrupt of the timer is due when the
  -- scheduler lets interrupts in, one more jiffy has passed, and the scheduler ran; interrupts stay off unless a
  -- task runs on that `schedule` had left or that is new.
  pub record Ticked (m t : Machine Dev) : Type 0 where
    pub cleared : t.dev ≡ gicd_clear_pending read write timer_irq m.dev
    pub due : t.cpu.cntv_cval_el0 ≡ (m.cpu.cntvct_el0 + m.ticks) % 2 ^ 64
    pub started : t.cpu.cntv_ctl ≡ (enable_cntv (disable_cntv m.cpu)).cntv_ctl
    pub irq_on : t.kernel.irq_on ≡ (
        if can_switch_to (successor m.kernel) m.kernel
        then not (is_in_tick (m.kernel.task (successor m.kernel)).resume)
        else false)
    pub ahead : t.cpu.cntvct_el0 < t.cpu.cntv_cval_el0
    pub passed : t.jiffies ≡ (m.jiffies + 1) % 2 ^ 64
    pub period : t.ticks ≡ m.ticks
    pub tasks : Scheduled m.kernel t.kernel

  abbrev pub Handled : Bool → Machine Dev → Machine Dev → Type 0
  Handled true m t = Ticked m t
  Handled false m t = t ≡ m

  timer_handler-Ticked :
      (m : Machine Dev)
      → IsBalanced m.kernel
      → m.kernel.ring.live (node_of m.kernel.current) ≡ true
      → 0 < m.ticks
      → m.cpu.cntvct_el0 + m.ticks < 2 ^ 64
      → (t : Machine Dev) × (timer_handler read write m ≡ ok t) × Ticked m t
  unfolding timer_handler next_period disable_cntv enable_cntv
  timer_handler-Ticked m b l p w =
      let (k, run, c, on) = scheduler_tick-Scheduled m.kernel b l in
      (
        record (next_period read write m) { kernel = k },
        rw run,
        record {
          cleared = refl;
          due = refl;
          started = refl;
          ahead = omega (arith, p, w);
          irq_on = on;
          passed = refl;
          period = refl;
          tasks = c;
        },
      )

  handle_irq-Handled :
      (r : Option ℕ) (m : Machine Dev)
      → IsBalanced m.kernel
      → m.kernel.ring.live (node_of m.kernel.current) ≡ true
      → 0 < m.ticks
      → m.cpu.cntvct_el0 + m.ticks < 2 ^ 64
      → (t : Machine Dev) × (handle_irq read write r m ≡ ok t) × Handled (is_timer r) m t
  unfolding handle_irq
  handle_irq-Handled none m b l p w = (m, refl, refl)
  handle_irq-Handled (some irq) m b l p w = elim (Bool-cases (irq == timer_irq)) [
    | inl e ↦ let (t, run, k) = timer_handler-Ticked m b l p w in rw e (t, run, k)
    | inr e ↦ rw e (m, refl, refl)
  ]

  -- An interrupt that arrives while a task runs that may be preempted, on a controller that shows its
  -- pending interrupts, with a period that is not zero and no wrap-around of the counter in it, is
  -- handled without a fault if no other interrupt arrives meanwhile: if the lowest pending one is that of
  -- the timer, a period of the timer passes, the next interrupt is due only later than the counter shows,
  -- and the scheduler runs; else nothing changes at all.
  pub irq_dispatch-Handled :
      (m : Machine Dev)
      → IsQuiet read write
      → IsBalanced m.kernel
      → m.kernel.ring.live (node_of m.kernel.current) ≡ true
      → 0 < m.ticks
      → m.cpu.cntvct_el0 + m.ticks < 2 ^ 64
      → (r : Option ℕ) × (t : Machine Dev) × IsLeast read write m.dev 64 0 r
        × (irq_dispatch read write m ≡ ok t)
        × Handled (is_timer r) m t
  unfolding irq_dispatch
  irq_dispatch-Handled m q b l p w =
      let (r, run, least) = gic_v3_find_pending_irq-IsLeast read write m.dev q in
      let (t, done, h) = handle_irq-Handled r m b l p w in
      (
        r,
        t,
        least,
        ap (λ (s : Option ℕ × Dev). handle_irq read write s.0 (record m { dev = s.1 })) run ∙ done,
        h,
      )
