-- ===== src/Task/Rotation.antt =====
-- Round robin: where the scheduler gets to when it is called again and again.
use nbos.Base.{
  ℕ, zero, suc, ◌≡◌, ◌≢◌, sym, ◌∙◌, ap, true, ◌==◌, ==→eq, ==_ne, List, [], ◌∷◌, ◌++◌, get_elem?,
  some, some-inj, M, ok, pure, ◌>>◌, Bool-cases, inl, inr, subst,
}
use nbos.LinkedList
use nbos.LinkedList.Chain.{Chain, AllLive, IsRing}
use nbos.Task.{Kernel, running, node_of, task_of, schedule}
use nbos.Task.Switch.{IsBalanced, successor}
use nbos.Task.Schedule.{Scheduled, schedule-Scheduled}

-- `schedule`, called `n` times, each time by the task that runs then.
unfoldable pub schedule_times : ℕ → M Kernel (Unit {0})
schedule_times zero = pure tt
schedule_times (suc n) = do schedule; schedule_times n

-- The nodes of runnable tasks, none of them at `NULL`.
abbrev pub AllRunnable : Kernel → List ℕ → Type 0
AllRunnable s [] = Unit
AllRunnable s (x ∷ xs) =
    (node_of (task_of x) ≡ x)
    × (task_of x ≢ 0)
    × ((s.task (task_of x)).state ≡ running)
    × AllRunnable s xs

-- When the successor can run, it runs next, also where it is the caller.
schedule-successor :
    (s t : Kernel)
    → Scheduled s t
    → successor s ≢ 0
    → (s.task (successor s)).state ≡ running
    → t.current ≡ successor s
schedule-successor s t c z r = elim (Bool-cases (s.current == successor s)) [
  | inl e ↦ c.runs ∙ rw e (==→eq s.current (successor s) e)
  | inr e ↦ c.runs ∙ rw (e, ==_ne (successor s) 0 z, r)
]

still_runnable :
    (s t : Kernel) (xs : List ℕ)
    → ((p : ℕ) → (t.task p).state ≡ (s.task p).state)
    → AllRunnable s xs
    → AllRunnable t xs
still_runnable s t [] e a = tt
still_runnable s t (x ∷ xs) e (n, z, r, a) = (n, z, e (task_of x) ∙ r, still_runnable s t xs e a)

one_turn :
    (s : Kernel) (x : ℕ)
    → IsBalanced s
    → s.ring.live (node_of s.current) ≡ true
    → s.ring.next (node_of s.current) ≡ x
    → node_of (task_of x) ≡ x
    → task_of x ≢ 0
    → (s.task (task_of x)).state ≡ running
    → (t : Kernel) × (schedule s ≡ ok (tt, t))
      × Scheduled s t
      × (t.current ≡ task_of x)
      × (node_of t.current ≡ x)
one_turn s x b l e n z r =
    let (t, run, k) = schedule-Scheduled s b l in
    let here : successor s ≡ task_of x = ap task_of e in
    let arrived : t.current ≡ task_of x =
      schedule-successor s t k (λ h. z (sym here ∙ h)) (ap (λ p. (s.task p).state) here ∙ r)
      ∙ here in
    (t, run, k, arrived, ap node_of arrived ∙ n)

-- Along a chain from the node of the running task.
turns_from :
    (xs : List ℕ) (i : ℕ) (s : Kernel) (q y : ℕ)
    → IsBalanced s
    → Chain s.ring (node_of s.current) xs q
    → AllLive s.ring (node_of s.current ∷ xs)
    → AllRunnable s (xs ++ q ∷ [])
    → get_elem? (xs ++ q ∷ []) i ≡ some y
    → (t : Kernel) × (schedule_times (suc i) s ≡ ok (tt, t)) × (t.current ≡ task_of y)
unfolding schedule_times
turns_from [] zero s q y b (e, _) (l, ls) (n, z, r, _) h =
    let (t, run, k, arrived, _) = one_turn s q b l e n z r in
    (t, rw run, arrived ∙ ap task_of (some-inj h))
turns_from [] (suc i) s q y b c ls a h = absurd (cc h)
turns_from (x ∷ xs) zero s q y b (e, _, _) (l, ls) (n, z, r, _) h =
    let (t, run, k, arrived, _) = one_turn s x b l e n z r in
    (t, rw run, arrived ∙ ap task_of (some-inj h))
turns_from (x ∷ xs) (suc i) s q y b (e, _, c) (l, ls) (n, z, r, a) h =
    let (t, run, k, arrived, here) = one_turn s x b l e n z r in
    let (u, rest, done) =
      turns_from xs i t q y k.balanced
        (subst (λ (g : LinkedList.Heap). Chain g (node_of t.current) xs q) (sym k.ring)
          (subst (λ (p : ℕ). Chain s.ring p xs q) (sym here) c))
        (subst (λ (g : LinkedList.Heap). AllLive g (node_of t.current ∷ xs)) (sym k.ring)
          (subst (λ (p : ℕ). AllLive s.ring (p ∷ xs)) (sym here) ls))
        (still_runnable s t (xs ++ q ∷ []) k.states a) h in
    (u, rw run rest, done)

-- Take the queue in its order from the running task on: the nodes `xs`, then the running task again.
-- If all these tasks can run, the task at place `i` runs after `i + 1` calls of `schedule`: each
-- task has its turn within one round, in the order of the queue, and the caller again after it.
pub schedule_times-turn :
    (s : Kernel) (xs : List ℕ) (i y : ℕ)
    → IsBalanced s
    → IsRing s.ring (node_of s.current) xs
    → AllRunnable s (xs ++ node_of s.current ∷ [])
    → get_elem? (xs ++ node_of s.current ∷ []) i ≡ some y
    → (t : Kernel) × (schedule_times (suc i) s ≡ ok (tt, t)) × (t.current ≡ task_of y)
schedule_times-turn s xs i y b ring a e =
    turns_from xs i s (node_of s.current) y b ring.chain ring.live a e
