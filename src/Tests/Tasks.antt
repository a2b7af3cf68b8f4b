-- ===== src/Tests/Tasks.antt =====
-- The queue of two tasks: the first task at 4096, which runs, and one at 8192.
use nbos.Base.{ℕ, ◌≡◌, refl, arith, inl, false, not, ltb, ◌==◌, if◌then◌else◌, [], ◌∷◌, ok}
use nbos.LinkedList
use nbos.LinkedList.Chain.{IsRing}
use nbos.Task.{kthread_create, zombie, Kernel, Task, running, fresh, schedule, scheduler_tick}
use nbos.Task.Switch.{IsBalanced, can_switch_to, successor}
use nbos.Task.Schedule.{Scheduled, is_in_tick, schedule-Scheduled, scheduler_tick-Scheduled}
use nbos.Task.Create.{Created, kthread_create-Created}
use nbos.Base.Int.{pos}
use nbos.Syscall.{sys_exit}
use nbos.Syscall.Exit.{sys_exit-IsBalanced}
use nbos.Tests.Memory.{free_pages}

abbrev pub ring : LinkedList.Heap
ring = record {
  live = λ p. ltb 0 p;
  prev = λ p. if p == 4224 then 8320 else if p == 8320 then 4224 else 0;
  next = λ p. if p == 4224 then 8320 else if p == 8320 then 4224 else 0;
}

abbrev pub task : Task
task = record {
  resume = fresh;
  x19 = 1;
  x20 = 0;
  sp = 0;
  state = running;
  preempt_count = 0;
  mm = 0;
  canary = 0xdeadbeef;
}

abbrev pub kernel : Kernel
kernel = record {
  ring = ring;
  task = λ _. task;
  current = 4096;
  next = 0;
  init_task = 4096;
  irq_on = false;
  pgd = 0;
  pages = free_pages;
}

pub kernel-IsBalanced : IsBalanced kernel
kernel-IsBalanced = record { running = refl; others = λ p ne. refl }

pub ring-IsRing : IsRing ring 4224 (8320 ∷ [])
ring-IsRing = record {
  chain = (refl, refl, (refl, refl));
  nodup = (refl, (refl, tt));
  live = (refl, (refl, tt));
}

schedule-Scheduled_example : (t : Kernel) × (schedule kernel ≡ ok (tt, t)) × Scheduled kernel t
schedule-Scheduled_example = schedule-Scheduled kernel kernel-IsBalanced refl

scheduler_tick-Scheduled_example :
    (t : Kernel) × (scheduler_tick kernel ≡ ok (tt, t))
    × Scheduled kernel t
    × (t.irq_on ≡ (
        if can_switch_to (successor kernel) kernel
        then not (is_in_tick (kernel.task (successor kernel)).resume)
        else false))
scheduler_tick-Scheduled_example = scheduler_tick-Scheduled kernel kernel-IsBalanced refl

sys_exit-IsBalanced_example :
    (t : Kernel) × (sys_exit kernel ≡ ok (pos 0, t))
    × IsBalanced t
    × ((p : ℕ) → (t.task p).state ≡ (if p == 4096 then zombie else (kernel.task p).state))
    × (t.current ≡ (if can_switch_to (successor kernel) kernel then successor kernel else 4096))
sys_exit-IsBalanced_example = sys_exit-IsBalanced kernel kernel-IsBalanced refl

kthread_create-Created_example :
    (i : ℕ) × (t : Kernel) × (kthread_create 7 kernel ≡ ok (tt, t))
    × Created kernel 7 (8320 ∷ []) i t
kthread_create-Created_example =
    kthread_create-Created kernel 7 (8320 ∷ []) 5 kernel-IsBalanced ring-IsRing
      (
        (λ j h z. inl (omega arith)),
        ((λ j h z. inl (omega arith)), ((λ j h z. inl (omega arith)), tt)),
      )
      (omega arith) refl
