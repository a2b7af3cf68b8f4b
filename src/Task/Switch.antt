-- ===== src/Task/Switch.antt =====
-- What `switch_to` and `select_next_task` do when the preemption counts are balanced.
use nbos.Base.{
  ℕ, ◌+◌, ◌-◌, ◌%◌, ◌^◌, ◌≡◌, ◌≢◌, arith, true, false, Bool, not, ◌&&◌, ◌==◌, if◌then◌else◌, ok,
  Bool-cases, inl, inr, ==_refl, ==→eq, fun_ext, ap, ◌∙◌,
}
use nbos.LinkedList.{null, get_next-ok}
use nbos.Task.{
  Kernel, Task, Resume, is_running, is_fresh, node_of, task_of, update_task, preempt_disable,
  preempt_enable, switch_mm, cpu_switch_to, switch_to, select_next_task,
}

-- A task outside `switch_to` has count 0; one that was switched out holds the count of its own
-- `switch_to`.
abbrev pub parked : Resume → ℕ
parked r = if is_fresh r then 0 else 1

-- The running task may be preempted, and every other task was switched out once, or is new.
pub record IsBalanced (s : Kernel) : Type 0 where
  pub running : (s.task s.current).preempt_count ≡ 0
  pub others : (p : ℕ) → p ≢ s.current → (s.task p).preempt_count ≡ parked (s.task p).resume

-- The successor of the running task on the ring.
abbrev pub successor : Kernel → ℕ
successor s = task_of (s.ring.next (node_of s.current))

-- The task `n` can run, and is another one.
abbrev pub can_switch_to : ℕ → Kernel → Bool
can_switch_to n s = not (s.current == n) && not (n == null) && is_running (s.task n).state

abbrev pub with_count : Task → ℕ → Task
with_count t c = record t { preempt_count = c }

preempt_enable-disable :
    (s : Kernel) → (s.task s.current).preempt_count ≡ 0 → preempt_enable (preempt_disable s) ≡ s
unfolding preempt_disable preempt_enable
preempt_enable-disable s z = ap (λ (f : ℕ → Task). record s { task = f }) (fun_ext λ q. pointwise q)
  where
    pointwise :
        (q : ℕ)
        → update_task
            (preempt_disable s).task
            s.current
            (record ((preempt_disable s).task s.current) {
              preempt_count =
                  (((preempt_disable s).task s.current).preempt_count + 2 ^ 64 - 1) % 2 ^ 64;
            })
            q
          ≡ s.task q
    pointwise q = elim (Bool-cases (q == s.current)) [
      | inl eq ↦
          rw (==→eq q s.current eq, ==_refl s.current)
            (ap (with_count (s.task s.current)) (omega (arith, z)))
      | inr ne ↦ rw ne
    ]

pub select_next_task-ok :
    (s : Kernel)
    → IsBalanced s
    → s.ring.live (node_of s.current) ≡ true
    → select_next_task s ≡ ok (tt, record s { next = successor s })
unfolding select_next_task preempt_disable preempt_enable
select_next_task-ok s b l = rw (get_next-ok s.ring (node_of s.current) l) (
    ap (λ (t : Kernel). ok (tt, record t { next = successor s }))
      (preempt_enable-disable s b.running))

-- The tasks and the kernel after a switch to `n`.
abbrev pub task_after : Resume → ℕ → Kernel → ℕ → Task
task_after here n s p =
    if p == n
    then with_count (s.task n) 0
    else if p == s.current
    then record (s.task p) { resume = here; preempt_count = 1 }
    else s.task p

abbrev pub after_switch : Resume → ℕ → Kernel → Kernel
after_switch here n s = record s {
  task = task_after here n s;
  current = n;
  pgd = if (s.task n).mm == 0 then s.pgd else s.pages.mem (s.task n).mm;
}

switch_to-switch :
    (here : Resume) (n : ℕ) (s : Kernel)
    → IsBalanced s
    → is_fresh here ≡ false
    → (s.current == n) ≡ false
    → (n == null) ≡ false
    → is_running (s.task n).state ≡ true
    → switch_to here n s ≡ ((s.task n).resume, after_switch here n s)
unfolding switch_to preempt_disable preempt_enable switch_mm cpu_switch_to
switch_to-switch here n s b o e z r = elim (Bool-cases (is_fresh (s.task n).resume)) [
  | inl new ↦
      rw (e, z, other, r, new)
        (ap after (
          fun_ext λ p. elim (Bool-cases (p == n)) [
            | inl h ↦
                rw (==→eq p n h, other, ==_refl n)
                  (ap (with_count (s.task n)) (omega (arith, here_count new)))
            | inr h ↦ elim (Bool-cases (p == s.current)) [
              | inl k ↦
                  rw (h, ==→eq p s.current k, ==_refl s.current)
                    (ap (λ c. record (s.task s.current) { resume = here; preempt_count = c })
                      (omega (arith, b.running)))
              | inr k ↦ rw (h, k)
            ]
          ]))
  | inr old ↦
      rw (e, z, other, r, old)
        (ap after (
          fun_ext λ p. elim (Bool-cases (p == n)) [
            | inl h ↦
                rw (==→eq p n h, other, ==_refl n)
                  (ap (with_count (s.task n)) (omega (arith, there_count old)))
            | inr h ↦ elim (Bool-cases (p == s.current)) [
              | inl k ↦
                  rw (h, ==→eq p s.current k, ==_refl s.current)
                    (ap (λ c. record (s.task s.current) { resume = here; preempt_count = c })
                      (omega (arith, b.running)))
              | inr k ↦ rw (h, k)
            ]
          ]))
]
  where
    other : (n == s.current) ≡ false
    other = ground arith

    after : (ℕ → Task) → Resume × Kernel
    after f = ((s.task n).resume, record (after_switch here n s) { task = f })

    here_count : is_fresh (s.task n).resume ≡ true → (s.task n).preempt_count ≡ 0
    here_count new = b.others n (ground arith) ∙ rw new

    there_count : is_fresh (s.task n).resume ≡ false → (s.task n).preempt_count ≡ 1
    there_count old = b.others n (ground arith) ∙ rw old

pub switch_to-go :
    (here : Resume) (n : ℕ) (s : Kernel)
    → IsBalanced s
    → is_fresh here ≡ false
    → can_switch_to n s ≡ true
    → switch_to here n s ≡ ((s.task n).resume, after_switch here n s)
switch_to-go here n s b o can =
    switch_to-switch here n s b o (ground arith) (ground arith) (ground arith)

pub switch_to-stay :
    (here : Resume) (n : ℕ) (s : Kernel)
    → IsBalanced s
    → can_switch_to n s ≡ false
    → switch_to here n s ≡ (here, s)
unfolding switch_to
switch_to-stay here n s b h = elim (Bool-cases (s.current == n)) [
  | inl e ↦ rw e same
  | inr e ↦ elim (Bool-cases (n == null)) [
    | inl z ↦ rw (e, z) same
    | inr z ↦ rw (e, z, other e, not_running e z) same
  ]
]
  where
    pair : Kernel → Resume × Kernel
    pair k = (here, k)

    same : pair (preempt_enable (preempt_disable s)) ≡ pair s
    same = ap pair (preempt_enable-disable s b.running)

    other : (s.current == n) ≡ false → (n == s.current) ≡ false
    other e = ground arith

    not_running :
        (s.current == n) ≡ false → (n == null) ≡ false → is_running (s.task n).state ≡ false
    not_running e z = rw (e, z) at h
