-- ===== src/Task/Zombies.antt =====
-- `clear_zombie` deletes tasks from the list that it walks.
use nbos.Base.{
  or_true, ℕ, zero, suc, ◌≡◌, ◌≢◌, sym, ◌∙◌, ap, arith, true, false, ◌==◌, ==_ne, ==_refl, List, [],
  ◌∷◌, ◌++◌, M, ok, and_then, and_then-ok, ok-inj, Bool-cases, inl, inr, ◌>>◌,
}
use nbos.LinkedList
use nbos.LinkedList.{null, list_del, list_for_each, for_each_from, advance}
use nbos.LinkedList.Chain.{
  AllLive-split, AllLive-front, has-front, has, has-append, Chain, AllLive, IsRing,
}
use nbos.LinkedList.Delete.{list_del-IsRing}
use nbos.Page.{Pages, free_page}
use nbos.Paging.{max_user_pages, max_pgtbl_pages}
use nbos.Task.{
  Kernel, is_zombie, node_of, task_of, on_pages, ring_of, free_vmas, free_pgtbl_pages, free_task,
  delete_process, reap, clear_zombie, preempt_disable, preempt_enable,
}

on_pages-ring :
    {A : Type 0} (m : M Pages A) (a : A) (s t : Kernel) → on_pages m s ≡ ok (a, t) → t.ring ≡ s.ring
on_pages-ring {A} m a s t e =
    let ((_, p), _, r) = and_then-ok (m s.pages) _ (a, t) e in
    ap (λ (z : A × Kernel). z.1.ring) (sym (ok-inj r))

chain-ring :
    (a b c : M Pages (Unit {0})) (s t : Kernel)
    → (on_pages a >> (on_pages b >> on_pages c)) s ≡ ok (tt, t)
    → t.ring ≡ s.ring
chain-ring a b c s t e =
    let ((x, u), run, e₁) =
      and_then-ok (on_pages a s) (λ (_, u). (on_pages b >> on_pages c) u) (tt, t) e in
    let ((y, v), run', e₂) = and_then-ok (on_pages b u) (λ (_, v). on_pages c v) (tt, t) e₁ in
    on_pages-ring c tt v t e₂ ∙ on_pages-ring b y u v run' ∙ on_pages-ring a x s u run

free_task-ring : (p : ℕ) (s t : Kernel) → free_task p s ≡ ok (tt, t) → t.ring ≡ s.ring
unfolding free_task
free_task-ring p s t e = elim (Bool-cases ((s.task p).mm == null)) [
  | inl h ↦ absurd (cc (rw h at e))
  | inr h ↦
      chain-ring (free_vmas max_user_pages 0 (s.task p).mm)
        (free_pgtbl_pages max_pgtbl_pages 0 (s.task p).mm) (free_page p) s t (rw h at e)
]

-- A deletion that succeeds leaves the ring as `list_del` does.
delete_process-ring :
    (p : ℕ) (s t : Kernel) (g : LinkedList.Heap)
    → p ≢ null
    → is_zombie (s.task p).state ≡ true
    → list_del (node_of p) s.ring ≡ ok (tt, g)
    → delete_process p s ≡ ok (tt, t)
    → t.ring ≡ g
unfolding delete_process
delete_process-ring p s t g n z d e =
    free_task-ring p (record s { ring = g }) t (rw (==_ne p null n, z, d) at e)

-- The tasks of the nodes are no zombies.
abbrev pub NoZombie : Kernel → List ℕ → Type 0
NoZombie s [] = Unit
NoZombie s (x ∷ xs) = (is_zombie (s.task (task_of x)).state ≡ false) × NoZombie s xs

-- Behind the node that was deleted the walk reaches `NULL`.
null_walk :
    (k head : ℕ) (t : Kernel) (r : Unit {0} × Kernel)
    → head ≢ null
    → t.ring.live null ≡ false
    → for_each_from ring_of reap k head null t ≢ ok r
unfolding for_each_from advance reap delete_process
null_walk zero head t r n l e = cc e
null_walk (suc k) head t r n l e = elim (Bool-cases (is_zombie (t.task 0).state)) [
  | inl z ↦ cc (rw (==_ne null head (λ h. n (sym h)), z, l) at e)
  | inr z ↦ cc (rw (==_ne null head (λ h. n (sym h)), z, l) at e)
]

module _ (s : Kernel) (head x : ℕ) (front back : List ℕ)
    (ring : IsRing s.ring head (front ++ x ∷ back)) (null_free : s.ring.live null ≡ false)
    (node : node_of (task_of x) ≡ x) (other : task_of x ≢ null)
    (zombie : is_zombie (s.task (task_of x)).state ≡ true) where
  x_ne : (x == head) ≡ false
  x_ne = ==_ne x head λ e.
      cc (ring.nodup.0, has-append head front (x ∷ back), ==_refl head, e, or_true (has head front))

  head_ne : head ≢ null
  head_ne e = cc (ring.live.0, null_free, e)

  -- What is known after a deletion of `x`.
  deleted_links :
      (t : Kernel)
      → delete_process (task_of x) s ≡ ok (tt, t)
      → (advance ring_of reap x t ≡ ok (null, t)) × (t.ring.live null ≡ false)
  unfolding advance
  deleted_links t e =
      let (g, run, _, _, gone, live) = list_del-IsRing s.ring head x front back ring in
      let q : t.ring ≡ g = delete_process-ring (task_of x) s t g other zombie (rw node run) e in
      (rw (q, live, AllLive-split s.ring front x back ring.live.1, gone), rw (q, live, null_free))

  at_zombie : (k : ℕ) (r : Unit {0} × Kernel) → for_each_from ring_of reap k head x s ≢ ok r
  unfolding for_each_from reap
  at_zombie zero r e = cc e
  at_zombie (suc k) r e =
      let ((_, t), run, e₁) =
        and_then-ok (delete_process (task_of x) s)
          (λ (_, t).
            and_then (advance ring_of reap x t) (λ (p, u). for_each_from ring_of reap k head p u))
          r (rw (x_ne, zombie) at e) in
      let (adv, free) = deleted_links t run in null_walk k head t r head_ne free (rw adv at e₁)

  -- From a node before `x`, over tasks that are no zombies.
  before_zombie :
      (xs : List ℕ) (k p : ℕ) (r : Unit {0} × Kernel)
      → Chain s.ring p (xs ++ x ∷ back) head
      → AllLive s.ring (p ∷ xs)
      → NoZombie s xs
      → has head xs ≡ false
      → and_then (advance ring_of reap p s) (λ (q, u). for_each_from ring_of reap k head q u) ≢ ok r
  unfolding for_each_from reap advance
  before_zombie [] k p r (n, _, _) (l, _) z h e = at_zombie k r (rw (l, n) at e)
  before_zombie (y ∷ xs) zero p r (n, _, _) (l, _) z h e = cc (rw l at e)
  before_zombie (y ∷ xs) (suc k) p r (n, _, c) (l, ls) (z, zs) h e =
      before_zombie xs k y r c ls zs (ground arith)
        (rw (l, n, ==_ne y head (λ q. cc (h, q, ==_refl head)), z) at e)

-- If the queue holds a zombie, `clear_zombie` never returns, with any fuel: even where the deletion of
-- the first zombie succeeds, the walk goes on from its cleared link and faults.
pub clear_zombie-ne_ok :
    (s : Kernel) (fuel x : ℕ) (front back : List ℕ) (r : Unit {0} × Kernel)
    → IsRing s.ring (node_of s.init_task) (front ++ x ∷ back)
    → s.ring.live null ≡ false
    → NoZombie s front
    → node_of (task_of x) ≡ x
    → task_of x ≢ null
    → is_zombie (s.task (task_of x)).state ≡ true
    → clear_zombie fuel s ≢ ok r
unfolding clear_zombie list_for_each preempt_disable
clear_zombie-ne_ok s fuel x front back r ring free nz n o z e =
    let d = preempt_disable s in
    let ((_, t), run, _) =
      and_then-ok (list_for_each ring_of reap fuel (node_of s.init_task) d)
        (λ (_, t). ok (tt, preempt_enable t)) r e in
    before_zombie d (node_of s.init_task) x front back ring free n o (same_state (task_of x) ∙ z)
      front fuel (node_of s.init_task) (tt, t) ring.chain
      (ring.live.0, AllLive-front s.ring front (x ∷ back) ring.live.1) (same_states front nz)
      (has-front (node_of s.init_task) front (x ∷ back) ring.nodup.0) run
  where
    same_state : (p : ℕ) → is_zombie ((preempt_disable s).task p).state ≡ is_zombie (s.task p).state
    same_state p = ground arith

    same_states : (xs : List ℕ) → NoZombie s xs → NoZombie (preempt_disable s) xs
    same_states [] z = tt
    same_states (y ∷ ys) (z, zs) = (same_state (task_of y) ∙ z, same_states ys zs)
