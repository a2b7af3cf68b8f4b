-- ===== src/Timer.antt =====
-- kernel/soft_timer.c and include/soft_timer.h: the list of soft timers. A `struct timer` begins with
-- its list node, so both have the same address. The handlers are not run: `fired` records the calls
-- of `main` in their order, the last one first; the one handler of the source prints a line.
pub mod OneShot
pub mod Periodic
use nbos.Base.{
  ℕ, ◌+◌, ◌%◌, ◌^◌, Bool, true, false, fault, ◌==◌, not, ltb, if◌then◌else◌, List, ◌∷◌, M, ok,
  ◌>>=◌, ◌>>◌, and_then,
}
use nbos.LinkedList
use nbos.LinkedList.{list_add, list_del, list_for_each}
use nbos.Kmalloc
use nbos.Kmalloc.{kmalloc, kfree}

-- `struct timer` without its list node; `main` is 0 for `NULL`.
pub record Timer : Type 0 where
  pub count : ℕ
  pub goal : ℕ
  pub main : ℕ
  pub mode : ℕ

pub record Timers : Type 0 where
  pub ring : LinkedList.Heap
  pub timer : ℕ → Timer
  pub heap : Kmalloc.Heap
  pub jiffies : ℕ
  pub fired : List ℕ

abbrev pub periodic : ℕ
periodic = 1

-- `&timer_head`
abbrev pub timer_head : ℕ
timer_head = 1

abbrev pub timer_size : ℕ
timer_size = 48

abbrev pub update_timer : (ℕ → Timer) → ℕ → Timer → ℕ → Timer
update_timer f p t q = if q == p then t else f q

abbrev pub on_ring : {A : Type 0} → M LinkedList.Heap A → M Timers A
on_ring m s = and_then (m s.ring) λ (a, h). ok (a, record s { ring = h })

abbrev pub on_heap : {A : Type 0} → M Kmalloc.Heap A → M Timers A
on_heap m s = and_then (m s.heap) λ (a, h). ok (a, record s { heap = h })

-- The node of a timer becomes usable with its memory, and is lost with it.
abbrev pub set_live : ℕ → Bool → LinkedList.Heap → LinkedList.Heap
set_live p b h = record h { live = λ q. if q == p then b else h.live q }

unfoldable pub timer_add : (fuel count main mode : ℕ) → M Timers (Unit {0})
timer_add fuel count main mode = do
  new ← on_heap (kmalloc fuel timer_size)
  λ s. ok (
    tt,
    record s {
      ring = set_live new true s.ring;
      timer =
          update_timer s.timer new (record {
            count = count;
            goal = (s.jiffies + count) % 2 ^ 64;
            main = main;
            mode = mode;
          });
    },
  )
  on_ring (list_add new timer_head)

unfoldable pub timer_delete : (fuel t : ℕ) → M Timers (Unit {0})
timer_delete fuel t = do
  on_ring (list_del t)
  on_heap (kfree fuel t)
  λ s. ok (tt, record s { ring = set_live t false s.ring })

-- The call of `main`, if there is one.
abbrev pub call_main : ℕ → Timers → Timers
call_main pos s = record s { fired = if (s.timer pos).main == 0 then s.fired else pos ∷ s.fired }

abbrev pub rearm : ℕ → Timers → Timers
rearm pos s = record s {
  timer =
      update_timer s.timer pos
        (record (s.timer pos) { goal = (s.jiffies + (s.timer pos).count) % 2 ^ 64 });
}

-- The body of the loop. A node that is not allocated is a fault.
unfoldable pub visit : (fuel pos : ℕ) → M Timers (Unit {0})
unfolding timer_delete
visit fuel pos s =
    if not (s.ring.live pos)
    then fault
    else if ltb (s.timer pos).goal s.jiffies
    then ok (tt, s)
    else let u = call_main pos s in
      if (u.timer pos).mode == periodic then ok (tt, rearm pos u) else timer_delete fuel pos u

abbrev pub ring_of : Timers → LinkedList.Heap
ring_of s = s.ring

unfoldable pub walk_timer_list : ℕ → M Timers (Unit {0})
unfolding visit
walk_timer_list fuel = list_for_each ring_of (visit fuel) fuel timer_head
