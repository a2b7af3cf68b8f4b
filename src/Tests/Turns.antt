-- ===== src/Tests/Turns.antt =====
-- Rounds of the scheduler on the queue of two tasks, and a queue that holds a zombie.
use nbos.Base.{ℕ, ◌+◌, inl, ◌≡◌, ◌≢◌, refl, arith, ◌==◌, if◌then◌else◌, [], ◌∷◌, ok}
use nbos.Task.Start.{kthread_create-turn}
use nbos.Task.{fresh, kthread_create, zombie, Kernel, clear_zombie}
use nbos.Task.Rotation.{schedule_times, schedule_times-turn}
use nbos.Task.Zombies.{clear_zombie-ne_ok}
use nbos.Tests.Tasks.{task, kernel, kernel-IsBalanced, ring-IsRing}

schedule_times-turn_example :
    (t : Kernel) × (schedule_times 2 kernel ≡ ok (tt, t)) × (t.current ≡ 4096)
schedule_times-turn_example =
    schedule_times-turn kernel (8320 ∷ []) 1 4224 kernel-IsBalanced ring-IsRing
      (refl, (λ e. omega (arith, e)), refl, (refl, (λ e. omega (arith, e)), refl, tt)) refl

-- The task at 8192 has exited.
abbrev with_zombie : Kernel
with_zombie = record kernel {
  task = λ p. if p == 8192 then record task { state = zombie } else task;
}

clear_zombie-ne_ok_example : clear_zombie 3 with_zombie ≢ ok (tt, kernel)
clear_zombie-ne_ok_example =
    clear_zombie-ne_ok with_zombie 3 8320 [] [] (tt, kernel) ring-IsRing refl tt refl
      (λ e. omega (arith, e)) refl

kthread_create-turn_example :
    (p : ℕ) × (t : Kernel) × (u : Kernel) × (kthread_create 7 kernel ≡ ok (tt, t))
    × ((t.task p).x19 ≡ 7)
    × ((t.task p).resume ≡ fresh)
    × (schedule_times (1 + 1) t ≡ ok (tt, u))
    × (u.current ≡ p)
kthread_create-turn_example =
    kthread_create-turn kernel 7 (8320 ∷ []) 5 kernel-IsBalanced refl ring-IsRing
      (
        (λ j h z. inl (omega arith)),
        ((λ j h z. inl (omega arith)), ((λ j h z. inl (omega arith)), tt)),
      )
      (refl, (λ e. omega (arith, e)), refl, (refl, (λ e. omega (arith, e)), refl, tt)) (omega arith)
      refl
