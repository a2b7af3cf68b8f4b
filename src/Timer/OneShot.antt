-- ===== src/Timer/OneShot.antt =====
-- A timer that is not periodic and fires within the walk is deleted under the walk.
use nbos.Base.{
  ℕ, zero, suc, ◌≡◌, refl, ◌≢◌, subst, sym, ◌∙◌, ap, arith, true, false, ◌==◌, ==_ne, ==_refl, ltb,
  List, [], ◌∷◌, ◌++◌, ok, and_then, and_then-ok, ok-inj, Bool-cases, inl, inr,
}
use nbos.LinkedList
use nbos.LinkedList.{list_del, list_for_each, for_each_from, advance}
use nbos.LinkedList.Chain.{AllLive-front, Nodup-front, has, Chain, AllLive, IsRing}
use nbos.Kmalloc.{kfree}
use nbos.Timer.{
  Timers, Timer, periodic, timer_head, on_ring, on_heap, set_live, timer_delete, call_main, rearm,
  visit, ring_of, walk_timer_list,
}

-- The walk runs the timer's handler, and the timer is not periodic.
abbrev pub IsLast : Timers → ℕ → Type 0
IsLast s x = (ltb (s.timer x).goal s.jiffies ≡ false) × (((s.timer x).mode == periodic) ≡ false)

timer_delete-live :
    (fuel x : ℕ) (s t : Timers) → timer_delete fuel x s ≡ ok (tt, t) → t.ring.live x ≡ false
unfolding timer_delete
timer_delete-live fuel x s t e =
    let ((_, u), _, e₁) =
      and_then-ok (on_ring (list_del x) s)
        (λ (_, u).
          and_then (on_heap (kfree fuel x) u)
            (λ (_, v). ok (tt, record v { ring = set_live x false v.ring })))
        (tt, t) e in
    let ((_, v), _, e₂) =
      and_then-ok (on_heap (kfree fuel x) u)
        (λ (_, v). ok (tt, record v { ring = set_live x false v.ring })) (tt, t) e₁ in
    ap (λ (z : Unit {0} × Timers). z.1.ring.live x) (sym (ok-inj e₂)) ∙ ground (arith, ==_refl x)

visit_last-live :
    (fuel x : ℕ) (s t : Timers) → IsLast s x → visit fuel x s ≡ ok (tt, t) → t.ring.live x ≡ false
unfolding visit
visit_last-live fuel x s t (d, m) e = elim (Bool-cases (s.ring.live x)) [
  | inl l ↦ timer_delete-live fuel x (call_main x s) t (rw (l, d, m) at e)
  | inr l ↦ absurd (cc (rw l at e))
]

at_last :
    (k fuel head x : ℕ) (s : Timers) (r : Unit {0} × Timers)
    → IsLast s x
    → (x == head) ≡ false
    → for_each_from ring_of (visit fuel) k head x s ≢ ok r
unfolding for_each_from advance
at_last zero fuel head x s r d n e = cc e
at_last (suc k) fuel head x s r d n e =
    let ((_, t), run, e₁) =
      and_then-ok (visit fuel x s)
        (λ (_, t).
          and_then (advance ring_of (visit fuel) x t)
            (λ (p, u). for_each_from ring_of (visit fuel) k head p u))
        r (rw n at e) in
    cc (rw (visit_last-live fuel x s t d run) at e₁)

-- A node in front of it is passed over, or armed again, or is such a timer itself.
data Passed (fuel y : ℕ) (s : Timers) : Type 0 where
  passed :
      (t : Timers)
      → visit fuel y s ≡ ok (tt, t)
      → t.ring ≡ s.ring
      → t.jiffies ≡ s.jiffies
      → ((p : ℕ) → p ≢ y → t.timer p ≡ s.timer p)
      → Passed fuel y s
  last : IsLast s y → Passed fuel y s

visit-Passed : (fuel y : ℕ) (s : Timers) → s.ring.live y ≡ true → Passed fuel y s
unfolding visit
visit-Passed fuel y s l = elim (Bool-cases (ltb (s.timer y).goal s.jiffies)) [
  | inl skip ↦ passed s (rw (l, skip)) refl refl (λ p n. refl)
  | inr due ↦ elim (Bool-cases ((s.timer y).mode == periodic)) [
    | inl again ↦
        passed (rearm y (call_main y s)) (rw (l, due, again)) refl refl (λ p n. rw (==_ne p y n))
    | inr once ↦ last (due, once)
  ]
]

before_last :
    (front : List ℕ) (k fuel head p x : ℕ) (back : List ℕ) (s : Timers) (r : Unit {0} × Timers)
    → Chain s.ring p (front ++ x ∷ back) head
    → AllLive s.ring (p ∷ front)
    → has head (front ++ x ∷ back) ≡ false
    → has x front ≡ false
    → IsLast s x
    → and_then
        (advance ring_of (visit fuel) p s)
        (λ (q, u). for_each_from ring_of (visit fuel) k head q u)
      ≢ ok r
unfolding for_each_from advance
before_last [] k fuel head p x back s r (n, _, _) (l, _) h o d e =
    at_last k fuel head x s r d (==_ne x head λ q. cc (h, q, ==_refl head)) (rw (l, n) at e)
before_last (y ∷ ys) zero fuel head p x back s r (n, _, _) (l, _) h o d e = cc (rw l at e)
before_last (y ∷ ys) (suc k) fuel head p x back s r (n, _, c) (l, ls) h o d e =
    elim (visit-Passed fuel y s ls.0) [
      | last d' ↦ at_last (suc k) fuel head y s r d' away (rw (l, n) at e)
      | passed t run same time others ↦
          before_last ys k fuel head y x back t r
            (subst (λ (g : LinkedList.Heap). Chain g y (ys ++ x ∷ back) head) (sym same) c)
            (subst (λ (g : LinkedList.Heap). AllLive g (y ∷ ys)) (sym same) ls) (ground arith)
            (ground arith)
            (subst (λ (z : Timer). (ltb z.goal t.jiffies ≡ false) × ((z.mode == periodic) ≡ false))
              (sym (others x λ q. cc (o, q, ==_refl x))) (rw time d.0, d.1))
            (rw (l, n, away, run) at e)
    ]
  where
    away : (y == head) ≡ false
    away = ==_ne y head λ q. cc (h, q, ==_refl head)

-- If a timer of the list is not periodic and is not passed over, that is `goal >= jiffies`, then
-- `walk_timer_list` never returns, with any fuel: even where the deletion of the first such timer
-- succeeds, its node is gone when the walk reads the link to the next one.
pub walk_timer_list-ne_ok :
    (front : List ℕ) (s : Timers) (fuel x : ℕ) (back : List ℕ) (r : Unit {0} × Timers)
    → IsRing s.ring timer_head (front ++ x ∷ back)
    → IsLast s x
    → walk_timer_list fuel s ≢ ok r
unfolding walk_timer_list list_for_each
walk_timer_list-ne_ok front s fuel x back r ring d e =
    before_last front fuel fuel timer_head timer_head x back s r ring.chain
      (ring.live.0, AllLive-front s.ring front (x ∷ back) ring.live.1) ring.nodup.0
      (Nodup-front front x back ring.nodup.1) d e
