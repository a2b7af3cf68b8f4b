-- ===== src/Task.antt =====
-- kernel/task.c and include/task.h: the scheduler and the life of tasks, with the parts of
-- arch/aarch64.c and arch/vector.S that switch tasks (`switch_mm`, `cpu_switch_to`). A task is named
-- by the address of its `task_struct`; its list node lies `list_offset` bytes further.
pub mod Switch
pub mod Schedule
pub mod Queue
pub mod Rotation
pub mod Zombies
pub mod Start
pub mod Create
pub mod Exec
pub mod Dump
use nbos.Base.{
  ℕ, zero, suc, ◌+◌, ◌-◌, ◌*◌, ◌%◌, ◌^◌, Bool, true, false, not, ◌||◌, ◌==◌, ltb, if◌then◌else◌, M,
  Run, ok, fault, pure, raise, ◌>>=◌, ◌>>◌, get_state, and_then,
}
use nbos.LinkedList
use nbos.LinkedList.{null, get_next, init_list_head, list_add_tail, list_del, list_for_each}
use nbos.Page.{Pages, va_of, get_free_page, free_page}
use nbos.Page
use nbos.Paging.{max_user_pages, max_pgtbl_pages, vma_at, pgtbl_page_at}

-- `TASK_DEAD`, `TASK_RUNNING`, `TASK_STOP`, `TASK_ZOMBIE`
pub data TaskState : Type 0 where
  dead running stop zombie : TaskState

abbrev pub is_running : TaskState → Bool
is_running running = true
is_running _ = false

abbrev pub is_zombie : TaskState → Bool
is_zombie zombie = true
is_zombie _ = false

-- Where the saved context of a task goes on: at `ret_from_fork`, or behind the `cpu_switch_to` of a
-- `switch_to` that `schedule` or `scheduler_tick` called.
pub data Resume : Type 0 where
  fresh in_schedule in_tick : Resume

abbrev pub is_fresh : Resume → Bool
is_fresh fresh = true
is_fresh _ = false

-- `struct task_struct`; `resume` stands for `cpu_context.pc` and the frames on the stack at
-- `cpu_context.sp`. `x19` is the entry of a kernel thread, or 0
-- for a process, whose top table is at `x20`.
pub record Task : Type 0 where
  pub resume : Resume
  pub x19 : ℕ
  pub x20 : ℕ
  pub sp : ℕ
  pub state : TaskState
  pub preempt_count : ℕ
  pub mm : ℕ
  pub canary : ℕ

-- `pgd` is `ttbr0_el1`; `current` is what `get_current` finds from the stack pointer.
pub record Kernel : Type 0 where
  pub ring : LinkedList.Heap
  pub task : ℕ → Task
  pub current : ℕ
  pub next : ℕ
  pub init_task : ℕ
  pub irq_on : Bool
  pub pgd : ℕ
  pub pages : Pages

abbrev pub stack_sz : ℕ
stack_sz = 4096

abbrev pub canary_magic_num : ℕ
canary_magic_num = 0xdeadbeef

abbrev pub list_offset : ℕ
list_offset = 128

-- `&p->list`, and `list_entry(pos, struct task_struct, list)`
abbrev pub node_of : ℕ → ℕ
node_of p = p + list_offset

abbrev pub task_of : ℕ → ℕ
task_of pos = pos - list_offset

abbrev pub update_task : (ℕ → Task) → ℕ → Task → ℕ → Task
update_task f p t q = if q == p then t else f q

abbrev pub set_task : ℕ → Task → Kernel → Kernel
set_task p t s = record s { task = update_task s.task p t }

abbrev pub on_ring : {A : Type 0} → M LinkedList.Heap A → M Kernel A
on_ring m s = and_then (m s.ring) λ (a, h). ok (a, record s { ring = h })

abbrev pub on_pages : {A : Type 0} → M Pages A → M Kernel A
on_pages m s = and_then (m s.pages) λ (a, p). ok (a, record s { pages = p })

unfoldable pub preempt_disable : Kernel → Kernel
preempt_disable s =
    let t = s.task s.current in
    set_task s.current (record t { preempt_count = (t.preempt_count + 1) % 2 ^ 64 }) s

unfoldable pub preempt_enable : Kernel → Kernel
preempt_enable s =
    let t = s.task s.current in
    set_task s.current (record t { preempt_count = (t.preempt_count + 2 ^ 64 - 1) % 2 ^ 64 }) s

-- `ttbr0_el1` keeps its value for a kernel thread, whose `mm` is `NULL`.
unfoldable pub switch_mm : ℕ → Kernel → Kernel
switch_mm mm s = record s { pgd = if mm == 0 then s.pgd else s.pages.mem mm }

-- The processor goes on with the saved context of `next`.
unfoldable pub cpu_switch_to : Resume → (prev next : ℕ) → Kernel → Kernel
cpu_switch_to here prev next s = record (set_task prev (record (s.task prev) { resume = here }) s) {
  current = next;
}

-- With the caller in `here`. The result tells where the task that runs then goes on: `here` without
-- a switch; a task that resumes leaves its own `switch_to` first, a fresh one never was in it.
unfoldable pub switch_to : Resume → ℕ → Kernel → Resume × Kernel
unfolding preempt_disable preempt_enable switch_mm cpu_switch_to
switch_to here next s =
    let d = preempt_disable s in
    if (s.current == next) || (next == null) || not (is_running (d.task next).state)
    then (here, preempt_enable d)
    else let e = cpu_switch_to here s.current next (switch_mm (d.task next).mm d) in
      let there = (e.task next).resume in (there, if is_fresh there then e else preempt_enable e)

-- `scheduler_tick` ends with `disable_irq`, `schedule` with nothing.
abbrev pub leave : Resume × Kernel → Kernel
leave (in_tick, s) = record s { irq_on = false }
leave (in_schedule, s) = s
leave (fresh, s) = s

unfoldable pub select_next_task : M Kernel (Unit {0})
unfolding preempt_disable preempt_enable
select_next_task s =
    let d = preempt_disable s in
    and_then (get_next (node_of d.current) d.ring)
      λ (pos, _). ok (tt, preempt_enable (record d { next = task_of pos }))

unfoldable pub schedule : M Kernel (Unit {0})
schedule s =
    if ltb 0 (s.task s.current).preempt_count
    then ok (tt, s)
    else and_then (select_next_task s) λ (_, t). ok (tt, leave (switch_to in_schedule t.next t))

unfoldable pub scheduler_tick : M Kernel (Unit {0})
scheduler_tick s =
    if ltb 0 (s.task s.current).preempt_count
    then ok (tt, s)
    else and_then (select_next_task s)
        λ (_, t). ok (tt, leave (switch_to in_tick t.next (record t { irq_on = true })))

unfoldable pub task_add : ℕ → M Kernel (Unit {0})
task_add new = do
  s ← get_state
  on_ring (list_add_tail (node_of new) (node_of s.init_task))
  λ t. ok (tt, set_task new (record (t.task new) { state = running }) t)

-- The new page, cleared by `get_free_page`, becomes a task; its list node is part of it.
abbrev pub new_task : ℕ → Task
new_task x19 = record {
  resume = fresh;
  x19 = x19;
  x20 = 0;
  sp = 0;
  state = dead;
  preempt_count = 0;
  mm = null;
  canary = 0;
}

abbrev pub allocate_node : ℕ → LinkedList.Heap → LinkedList.Heap
allocate_node p h = record h { live = λ q. (q == node_of p) || h.live q }

unfoldable pub kthread_create : ℕ → M Kernel (Unit {0})
kthread_create main = do
  λ s. ok (tt, preempt_disable s)
  p ← on_pages get_free_page
  λ s. ok (
    tt,
    record (set_task p (record (new_task main) { sp = p + stack_sz; canary = canary_magic_num })
        s) { ring = allocate_node p s.ring },
  )
  task_add p
  λ s. ok (tt, preempt_enable s)

-- The pages of `vma`, from index `i` on, up to the first empty entry.
unfoldable pub free_vmas : (n i mm : ℕ) → M Pages (Unit {0})
free_vmas zero i mm = pure tt
free_vmas (suc n) i mm = do
  pa ← Page.load (vma_at mm i + 8)
  let rest = free_vmas n (i + 1) mm
  if pa == 0 then pure tt else (do free_page (va_of pa); rest)

unfoldable pub free_pgtbl_pages : (n i mm : ℕ) → M Pages (Unit {0})
free_pgtbl_pages zero i mm = pure tt
free_pgtbl_pages (suc n) i mm = do
  va ← Page.load (pgtbl_page_at mm i)
  (if va == 0 then pure tt else free_page va)
  free_pgtbl_pages n (i + 1) mm

-- The pages of a deleted process go back. Through an `mm` of `NULL` they cannot be found.
unfoldable pub free_task : ℕ → M Kernel (Unit {0})
unfolding free_vmas free_pgtbl_pages
free_task p s =
    if (s.task p).mm == null
    then fault
    else (do
      on_pages (free_vmas max_user_pages 0 (s.task p).mm)
      on_pages (free_pgtbl_pages max_pgtbl_pages 0 (s.task p).mm)
      on_pages (free_page p))
        s

unfoldable pub delete_process : ℕ → M Kernel (Unit {0})
unfolding free_task
delete_process p s =
    if (p == null) || not (is_zombie (s.task p).state)
    then ok (tt, s)
    else (do on_ring (list_del (node_of p)); free_task p) s

abbrev pub ring_of : Kernel → LinkedList.Heap
ring_of s = s.ring

-- The body of the loop of `clear_zombie`
unfoldable pub reap : ℕ → M Kernel (Unit {0})
reap pos s =
    if is_zombie (s.task (task_of pos)).state then delete_process (task_of pos) s else ok (tt, s)

unfoldable pub clear_zombie : ℕ → M Kernel (Unit {0})
clear_zombie fuel = do
  λ s. ok (tt, preempt_disable s)
  s ← get_state
  list_for_each ring_of reap fuel (node_of s.init_task)
  λ s. ok (tt, preempt_enable s)

-- The loop of `task_nums` carries the counter beside the kernel.
abbrev pub counted_ring : ℕ × Kernel → LinkedList.Heap
counted_ring (count, s) = s.ring

abbrev pub count_up : ℕ → ℕ × Kernel → ℕ × Kernel
count_up pos (count, s) = (count + 1, s)

abbrev pub count_task : ℕ → M (ℕ × Kernel) (Unit {0})
count_task pos c = ok (tt, count_up pos c)

unfoldable pub task_nums : ℕ → M Kernel ℕ
task_nums fuel s =
    and_then (list_for_each counted_ring count_task fuel (node_of s.init_task) (0, s))
      λ (_, (count, t)). ok (count + 1, t)
