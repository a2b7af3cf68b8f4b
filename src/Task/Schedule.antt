-- ===== src/Task/Schedule.antt =====
-- Which task runs after `schedule` and `scheduler_tick`, and the preemption counts.
use nbos.Base.{
  ℕ, ◌≡◌, refl, arith, true, false, Bool, not, ◌&&◌, ◌==◌, if◌then◌else◌, ok, Bool-cases, inl, inr,
  ==_refl, ==_ne, ◌∙◌,
}
use nbos.LinkedList.{null}
use nbos.Task.{
  Kernel, Resume, is_fresh, fresh, in_schedule, in_tick, node_of, leave, switch_to, schedule,
  scheduler_tick,
}
use nbos.Task.Switch.{
  IsBalanced, successor, can_switch_to, after_switch, switch_to-go, switch_to-stay,
  select_next_task-ok,
}

-- `t` is `s` after the scheduler ran: the successor of the running task on the ring runs if it can,
-- and else the same task goes on. The counts are balanced again; the ring, the states of all tasks
-- and the memory are unchanged, and the address space is that of the new task, if it has one.
pub record Scheduled (s t : Kernel) : Type 0 where
  pub runs : t.current ≡ (if can_switch_to (successor s) s then successor s else s.current)
  pub balanced : IsBalanced t
  pub ring : t.ring ≡ s.ring
  pub states : (p : ℕ) → (t.task p).state ≡ (s.task p).state
  pub pages : t.pages ≡ s.pages
  pub space : t.pgd ≡ (
      if can_switch_to (successor s) s && not ((s.task (successor s)).mm == null)
      then s.pages.mem (s.task (successor s)).mm
      else s.pgd)

after-IsBalanced :
    (here : Resume) (n : ℕ) (s : Kernel)
    → IsBalanced s
    → is_fresh here ≡ false
    → IsBalanced (after_switch here n s)
after-IsBalanced here n s b o = record {
  running = rw (==_refl n);
  others = λ p ne. rw (==_ne p n ne) (elim (Bool-cases (p == s.current)) [
    | inl k ↦ rw (k, o)
    | inr k ↦ rw k (b.others p (ground arith))
  ]);
}

leave-Scheduled : (s t : Kernel) (r : Resume) → Scheduled s t → Scheduled s (leave (r, t))
leave-Scheduled s t fresh c = c
leave-Scheduled s t in_schedule c = c
leave-Scheduled s t in_tick c = record {
  runs = c.runs;
  balanced = record { running = c.balanced.running; others = c.balanced.others };
  ring = c.ring;
  states = c.states;
  pages = c.pages;
  space = c.space;
}

switch_to-Scheduled :
    (here : Resume) (on : Bool) (s : Kernel)
    → IsBalanced s
    → is_fresh here ≡ false
    → Scheduled s
        (leave (switch_to here (successor s) (record s { next = successor s; irq_on = on })))
switch_to-Scheduled here on s b o = elim (Bool-cases (can_switch_to n s)) [
  | inl can ↦ rw (switch_to-go here n t (record { running = b.running; others = b.others }) o can) (
      leave-Scheduled s (after_switch here n t) (s.task n).resume (record {
        runs = rw can;
        balanced = after-IsBalanced here n t (record { running = b.running; others = b.others }) o;
        ring = refl;
        states = λ p. ground arith;
        pages = refl;
        space = rw can (ground arith);
      }))
  | inr stay ↦
      rw (switch_to-stay here n t (record { running = b.running; others = b.others }) stay) (
        leave-Scheduled s t here (record {
          runs = rw stay;
          balanced = record { running = b.running; others = b.others };
          ring = refl;
          states = λ p. refl;
          pages = refl;
          space = rw stay;
        }))
]
  where
    n : ℕ
    n = successor s

    t : Kernel
    t = record s { next = successor s; irq_on = on }

-- `schedule`, called by a task that may be preempted and is on the ring, succeeds: the successor on
-- the ring runs if it is another task and can run, and else the caller goes on, whatever tasks stand
-- behind the successor. The preemption counts are balanced again, and the ring, the states, the
-- memory and the address space are as `Scheduled` says.
pub schedule-Scheduled :
    (s : Kernel)
    → IsBalanced s
    → s.ring.live (node_of s.current) ≡ true
    → (t : Kernel) × (schedule s ≡ ok (tt, t)) × Scheduled s t
unfolding schedule
schedule-Scheduled s b l = (
  leave (switch_to in_schedule (successor s) (record s { next = successor s })),
  rw (b.running, select_next_task-ok s b l),
  switch_to-Scheduled in_schedule s.irq_on s b refl,
)

abbrev pub is_in_tick : Resume → Bool
is_in_tick in_tick = true
is_in_tick _ = false

leave-irq_on :
    (r : Resume) (u : Kernel) → (leave (r, u)).irq_on ≡ (if is_in_tick r then false else u.irq_on)
leave-irq_on fresh u = refl
leave-irq_on in_schedule u = refl
leave-irq_on in_tick u = refl

-- `scheduler_tick`, run while such a task is interrupted, does the same; interrupts are off again
-- unless the task that runs then is new or left the processor through `schedule`.
pub scheduler_tick-Scheduled :
    (s : Kernel)
    → IsBalanced s
    → s.ring.live (node_of s.current) ≡ true
    → (t : Kernel) × (scheduler_tick s ≡ ok (tt, t))
      × Scheduled s t
      × (t.irq_on ≡ (
          if can_switch_to (successor s) s
          then not (is_in_tick (s.task (successor s)).resume)
          else false))
unfolding scheduler_tick
scheduler_tick-Scheduled s b l = (
  leave (switch_to in_tick (successor s) (record s { next = successor s; irq_on = true })),
  rw (b.running, select_next_task-ok s b l),
  switch_to-Scheduled in_tick true s b refl,
  elim (Bool-cases (can_switch_to n s)) [
    | inl can ↦
        rw (can, switch_to-go in_tick n t c refl can)
          (leave-irq_on (s.task n).resume (after_switch in_tick n t) ∙ flip (s.task n).resume)
    | inr stay ↦ rw (stay, switch_to-stay in_tick n t c stay)
  ],
)
  where
    n : ℕ
    n = successor s

    t : Kernel
    t = record s { next = successor s; irq_on = true }

    c : IsBalanced t
    c = record { running = b.running; others = b.others }

    flip : (r : Resume) → (if is_in_tick r then false else true) ≡ not (is_in_tick r)
    flip r = elim (Bool-cases (is_in_tick r)) [ inl e ↦ rw e | inr e ↦ rw e ]
