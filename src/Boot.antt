-- ===== src/Boot.antt =====
-- init/init_task.c: the kernel from the end of arch/start.S to the loop of the first task. A `Boot` is
-- all of its state: tasks, heap and file system, the processor, the interrupt controller, the soft
-- timers, and what was printed. The nodes of timers and of tasks lie in heaps of their own.
pub mod Tasks
use nbos.Base.{
  ℕ, zero, suc, ◌+◌, Bool, true, false, List, [], ◌∷◌, Option, none, some, M, Run, ok, pure, ◌>>=◌,
  ◌>>◌, and_then,
}
use nbos.Base.Int.{ℤ}
use nbos.LinkedList
use nbos.LinkedList.{init_list_head}
use nbos.Console.{Line, Printed, text}
use nbos.Cpu.{Cpu, disable_irq, enable_irq}
use nbos.Page.{Pages}
use nbos.Paging.{init_mm}
use nbos.Kmalloc
use nbos.Timer.{Timer, Timers, periodic, timer_add}
use nbos.Fs.{Fs}
use nbos.Fs.Init.{init_fs}
use nbos.Fs.Print.{print_root_bdev}
use nbos.Interrupt.{Machine, timer_init}
use nbos.Task.{Kernel, running, node_of, canary_magic_num, set_task, on_ring, kthread_create}
use nbos.Task.Exec.{System, Mmu, heap_of, with_heap, on_kernel, on_fs, modify}
use nbos.Syscall.{sys_execv}

-- `stack` is the address of `stack_init_task`.
unfoldable pub init_init_task : (stack : ℕ) → M Kernel (Unit {0})
init_init_task stack = do
  λ s. ok (tt, record s { init_task = stack })
  on_ring (init_list_head (node_of stack))
  λ s.
      ok (
        tt,
        set_task stack (record (s.task stack) { state = running; canary = canary_magic_num }) s,
      )

-- `init_timer` of kernel/soft_timer.c; `handler` is the address of `timer_handler0`.
unfoldable pub init_timer : (fuel handler : ℕ) → M Timers (Unit {0})
init_timer fuel handler = timer_add fuel 100 handler periodic

pub record Boot (Dev : Type 0) : Type 0 where
  pub system : System
  pub dev : Dev
  pub cpu : Cpu
  pub jiffies : ℕ
  pub ticks : ℕ
  pub timer_ring : LinkedList.Heap
  pub timer : ℕ → Timer
  pub fired : List ℕ
  pub out : List Line

module _ {Dev : Type 0} where
  abbrev pub on_system : {A : Type 0} → M System A → M (Boot Dev) A
  on_system m b = and_then (m b.system) λ (a, s). ok (a, record b { system = s })

  abbrev pub on_print_pages : {A : Type 0} → M (Printed Pages) A → M (Boot Dev) A
  on_print_pages m b = and_then (m (b.out, b.system.kernel.pages)) λ (a, (out, pages)). ok (
    a,
    record b {
      out = out;
      system = record b.system { kernel = record b.system.kernel { pages = pages } };
    },
  )

  abbrev pub on_print : {A : Type 0} → M (Printed Fs) A → M (Boot Dev) A
  on_print m b =
      and_then (m (b.out, b.system.fs))
        λ (a, (out, fs)). ok (a, record b { out = out; system = record b.system { fs = fs } })

  abbrev pub on_timers : {A : Type 0} → M Timers A → M (Boot Dev) A
  on_timers m b =
      let timers : Timers = record {
        ring = b.timer_ring;
        timer = b.timer;
        heap = heap_of b.system;
        jiffies = b.jiffies;
        fired = b.fired;
      } in
      and_then (m timers) λ (a, t). ok (
        a,
        record b {
          timer_ring = t.ring;
          timer = t.timer;
          fired = t.fired;
          system = with_heap b.system t.heap;
        },
      )

  abbrev pub on_machine : (Machine Dev → Run (Machine Dev)) → M (Boot Dev) (Unit {0})
  on_machine f b =
      let machine : Machine Dev = record {
        dev = b.dev;
        cpu = b.cpu;
        kernel = b.system.kernel;
        jiffies = b.jiffies;
        ticks = b.ticks;
      } in
      and_then (f machine) λ m. ok (
        tt,
        record b {
          dev = m.dev;
          cpu = m.cpu;
          jiffies = m.jiffies;
          ticks = m.ticks;
          system = record b.system { kernel = m.kernel };
        },
      )

  -- `disable_irq` and `enable_irq`
  abbrev pub mask_irq : (on : Bool) → (Cpu → Cpu) → M (Boot Dev) (Unit {0})
  mask_irq on f b = ok (
    tt,
    record b {
      cpu = f b.cpu;
      system = record b.system { kernel = record b.system.kernel { irq_on = on } };
    },
  )

-- `pgd` is the address of the kernel's top table, `img_end` the end of the image, `stack` that of `stack_init_task`; `idle_main` and
-- `handler` are those of the functions. Behind it the first task prints in a loop without end.
module _ {Dev : Type 0} (read : Dev → ℕ → ℕ × Dev) (write : Dev → ℕ → ℕ → Dev) (mmu : Mmu)
    (fuel pgd img_end stack idle_main handler : ℕ) where
  unfoldable pub init_main : M (Boot Dev) ℤ
  unfolding init_init_task init_timer
  init_main = do
    mask_irq false disable_irq
    on_system (on_kernel (init_init_task stack))
    on_print_pages (init_mm pgd img_end)
    on_machine (timer_init read write fuel)
    on_timers (init_timer fuel handler)
    on_system (on_fs init_fs)
    on_print (print_root_bdev fuel)
    on_system (on_kernel (kthread_create idle_main))
    r ← on_system (sys_execv mmu fuel (some (text "/user_code.bin")))
    mask_irq true enable_irq
    pure r
