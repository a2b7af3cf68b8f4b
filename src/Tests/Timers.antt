-- ===== src/Tests/Timers.antt =====
-- Two timers in the list: a periodic one at address 2 and one at address 3.
use nbos.Base.{ℕ, ◌≡◌, ◌≢◌, refl, arith, ◌==◌, if◌then◌else◌, [], ◌∷◌, ok}
use nbos.Timer.{Timers, Timer, walk_timer_list}
use nbos.Timer.OneShot.{walk_timer_list-ne_ok}
use nbos.Timer.Periodic.{Walked, walk_timer_list-Walked}
use nbos.Tests.Rings.{heap, heap-IsRing}
use nbos.Tests.Memory

-- The timer at `p`, with this mode, is due at 10 and has a handler.
abbrev timer : ℕ → Timer
timer mode = record { count = 5; goal = 10; main = 7; mode = mode }

abbrev timers : (mode : ℕ) → Timers
timers mode = record {
  ring = heap;
  timer = λ p. if p == 2 then timer 1 else timer mode;
  heap = Memory.heap;
  jiffies = 9;
  fired = [];
}

walk_timer_list-Walked_example :
    (t : Timers) × (walk_timer_list 3 (timers 1) ≡ ok (tt, t)) × Walked (timers 1) (2 ∷ 3 ∷ []) t
walk_timer_list-Walked_example =
    walk_timer_list-Walked (timers 1) (2 ∷ 3 ∷ []) 3 heap-IsRing (refl, (refl, tt)) (omega arith)

walk_timer_list-ne_ok_example : walk_timer_list 3 (timers 0) ≢ ok (tt, timers 0)
walk_timer_list-ne_ok_example =
    walk_timer_list-ne_ok (2 ∷ []) (timers 0) 3 3 [] (tt, timers 0) heap-IsRing (refl, refl)
