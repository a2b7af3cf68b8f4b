-- ===== src/Syscall/Exit.antt =====
-- `sys_exit`: the caller becomes a zombie and gives up the processor.
use nbos.Base.{
  ℕ, ◌≡◌, ◌∙◌, ap, arith, true, false, ok, ◌==◌, if◌then◌else◌, ==_refl, ==_ne, and_then,
  Bool-cases, inl, inr,
}
use nbos.Base.Int.{pos}
use nbos.Task.{Kernel, zombie, node_of, set_task}
use nbos.Task.Switch.{IsBalanced, can_switch_to, successor}
use nbos.Task.Schedule.{schedule-Scheduled}
use nbos.Syscall.{sys_exit}

-- `sys_exit` of a task that may be preempted and is on the ring succeeds: the task is a zombie, all
-- other tasks keep their states, the counts are balanced, and the successor on the ring runs if it is
-- another task and can run; else the zombie itself goes on, and its call returns 0.
pub sys_exit-IsBalanced :
    (s : Kernel)
    → IsBalanced s
    → s.ring.live (node_of s.current) ≡ true
    → (t : Kernel) × (sys_exit s ≡ ok (pos 0, t))
      × IsBalanced t
      × ((p : ℕ) → (t.task p).state ≡ (if p == s.current then zombie else (s.task p).state))
      × (t.current ≡ (if can_switch_to (successor s) s then successor s else s.current))
unfolding sys_exit
sys_exit-IsBalanced s b l =
    let (t, run, c) = schedule-Scheduled z balanced l in
    (
      t,
      ap (λ r. and_then r λ (_, t). ok (pos 0, t)) run,
      c.balanced,
      λ p. c.states p ∙ ground arith,
      c.runs ∙ same,
    )
  where
    z : Kernel
    z = set_task s.current (record (s.task s.current) { state = zombie }) s

    balanced : IsBalanced z
    balanced = record {
      running = rw (==_refl s.current) b.running;
      others = λ p ne. rw (==_ne p s.current ne) (b.others p ne);
    }

    n : ℕ
    n = successor s

    other : (s.current == n) ≡ false → (n == s.current) ≡ false
    other e = ground arith

    same :
        (if can_switch_to (successor z) z then successor z else z.current)
        ≡ (if can_switch_to (successor s) s then successor s else s.current)
    same = elim (Bool-cases (s.current == n)) [ inl e ↦ rw e | inr e ↦ rw (e, other e) ]
