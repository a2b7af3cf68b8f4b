-- ===== src/Timer/Periodic.antt =====
-- A walk of a list of periodic timers.
use nbos.Base.{
  ℕ, zero, suc, ◌+◌, ◌%◌, ◌^◌, ◌<◌, ◌≡◌, refl, ◌≢◌, subst, sym, ◌∙◌, ap, ap₂, arith, true, false,
  Bool, ◌==◌, ==_ne, ==_refl, ==→eq, ltb, if◌then◌else◌, List, [], ◌∷◌, ok, and_then, Bool-cases,
  inl, inr, not, ◌&&◌, length,
}
use nbos.LinkedList
use nbos.LinkedList.{list_for_each, for_each_from, advance}
use nbos.LinkedList.Chain.{has, Chain, AllLive, IsRing, Nodup}
use nbos.Timer.{
  Timers, Timer, periodic, timer_head, call_main, rearm, visit, ring_of, walk_timer_list,
}

abbrev pub AllPeriodic : Timers → List ℕ → Type 0
AllPeriodic s [] = Unit
AllPeriodic s (x ∷ xs) = ((s.timer x).mode ≡ periodic) × AllPeriodic s xs

-- The walk handles a timer unless its goal lies before the present.
abbrev pub handled : Timers → ℕ → Bool
handled s x = not (ltb (s.timer x).goal s.jiffies)

-- The calls of handlers, the last one first, in front of those from before.
abbrev pub calls : Timers → List ℕ → List ℕ → List ℕ
calls s [] before = before
calls s (x ∷ xs) before =
    calls s xs (if handled s x && not ((s.timer x).main == 0) then x ∷ before else before)

abbrev pub armed : Timers → ℕ → Timer
armed s p = record (s.timer p) { goal = (s.jiffies + (s.timer p).count) % 2 ^ 64 }

-- `t` is `s` after the timers `xs` were visited: each one that is handled is armed for its next
-- period, and its handler, if it has one, is called once, in the order of the list; all else is as
-- before.
pub record Walked (s : Timers) (xs : List ℕ) (t : Timers) : Type 0 where
  pub ring : t.ring ≡ s.ring
  pub heap : t.heap ≡ s.heap
  pub jiffies : t.jiffies ≡ s.jiffies
  pub timers : (p : ℕ) → t.timer p ≡ (if has p xs && handled s p then armed s p else s.timer p)
  pub fired : t.fired ≡ calls s xs s.fired

visit-Walked :
    (fuel x : ℕ) (s : Timers)
    → s.ring.live x ≡ true
    → (s.timer x).mode ≡ periodic
    → (u : Timers) × (visit fuel x s ≡ ok (tt, u)) × Walked s (x ∷ []) u
unfolding visit
visit-Walked fuel x s l m = elim (Bool-cases (ltb (s.timer x).goal s.jiffies)) [
  | inl skip ↦ (
    s,
    rw (l, skip),
    record {
      ring = refl;
      heap = refl;
      jiffies = refl;
      timers = λ p. elim (Bool-cases (p == x)) [
        | inl e ↦ rw (==→eq p x e, ==_refl x, skip)
        | inr e ↦ rw e
      ];
      fired = rw skip;
    },
  )
  | inr due ↦ (
    rearm x (call_main x s),
    rw (l, due, m),
    record {
      ring = refl;
      heap = refl;
      jiffies = refl;
      timers = λ p. elim (Bool-cases (p == x)) [
        | inl e ↦ rw (==→eq p x e, ==_refl x, due)
        | inr e ↦ rw e
      ];
      fired = elim (Bool-cases ((s.timer x).main == 0)) [
        | inl e ↦ rw (due, e)
        | inr e ↦ rw (due, e)
      ];
    },
  )
]

calls-agree :
    (s u : Timers) (x : ℕ) (xs before : List ℕ)
    → u.jiffies ≡ s.jiffies
    → ((p : ℕ) → p ≢ x → u.timer p ≡ s.timer p)
    → has x xs ≡ false
    → calls u xs before ≡ calls s xs before
calls-agree s u x [] before j e h = refl
calls-agree s u x (y ∷ xs) before j e h =
    ap (λ b. calls u xs (if b then y ∷ before else before))
      (ap₂ (λ (z : Timer) (n : ℕ). not (ltb z.goal n) && not (z.main == 0))
        (e y λ q. cc (h, q, ==_refl x)) j)
    ∙ calls-agree s u x xs _ j e (ground arith)

-- A visit of `x`, and then of `xs`.
cons-Walked :
    (s u t : Timers) (x : ℕ) (xs : List ℕ)
    → has x xs ≡ false
    → Walked s (x ∷ []) u
    → Walked u xs t
    → Walked s (x ∷ xs) t
cons-Walked s u t x xs h a b = record {
  ring = b.ring ∙ a.ring;
  heap = b.heap ∙ a.heap;
  jiffies = b.jiffies ∙ a.jiffies;
  timers = λ p. elim (Bool-cases (p == x)) [
    | inl e ↦ b.timers p ∙ rw (==→eq p x e, h, ==_refl x) (rw (==_refl x) at (a.timers x))
    | inr e ↦
        b.timers p
        ∙ rw e (
            ap₂
              (λ (z : Timer) (n : ℕ).
                if has p xs && not (ltb z.goal n)
                then record z { goal = (n + z.count) % 2 ^ 64 }
                else z)
              {x = u.timer p} {y = s.timer p} (a.timers p ∙ rw e) a.jiffies)
  ];
  fired =
      b.fired
      ∙ ap (calls u xs) a.fired
      ∙ calls-agree s u x xs _ a.jiffies (λ p n. a.timers p ∙ rw (==_ne p x n)) h;
}

walk-Walked :
    (xs : List ℕ) (k fuel head p : ℕ) (s : Timers)
    → Chain s.ring p xs head
    → AllLive s.ring (p ∷ xs)
    → has head xs ≡ false
    → Nodup xs
    → AllPeriodic s xs
    → length xs < k
    → (t : Timers) × (and_then
          (advance ring_of (visit fuel) p s)
          (λ (q, u). for_each_from ring_of (visit fuel) k head q u)
        ≡ ok (tt, t))
      × Walked s xs t
unfolding for_each_from advance
walk-Walked xs zero fuel head p s c l o d m f = absurd (omega arith)
walk-Walked [] (suc k) fuel head p s (n, _) (l, _) o d m f = (
  s,
  rw (l, n, ==_refl head),
  record { ring = refl; heap = refl; jiffies = refl; timers = λ p. refl; fired = refl },
)
walk-Walked (x ∷ xs) (suc k) fuel head p s (n, _, c) (l, ls) o (h, d) (m, ms) f =
    let (u, run, a) = visit-Walked fuel x s ls.0 m in
    let (t, rest, b) =
      walk-Walked xs k fuel head x u
        (subst (λ (g : LinkedList.Heap). Chain g x xs head) (sym a.ring) c)
        (subst (λ (g : LinkedList.Heap). AllLive g (x ∷ xs)) (sym a.ring) ls) (ground arith) d
        (still xs h a ms) (omega arith) in
    (t, rw (l, n, away, run) rest, cons-Walked s u t x xs h a b)
  where
    away : (x == head) ≡ false
    away = ==_ne x head λ q. cc (o, q, ==_refl head)

    still :
        {u : Timers} (ys : List ℕ)
        → has x ys ≡ false
        → Walked s (x ∷ []) u
        → AllPeriodic s ys
        → AllPeriodic u ys
    still [] h a ms = tt
    still (y ∷ ys) h a (m, ms) = (
      ap (λ (z : Timer). z.mode) (a.timers y) ∙ rw (==_ne y x λ q. cc (h, q, ==_refl x)) m,
      still ys (ground arith) a ms,
    )

-- `walk_timer_list` over a list of periodic timers, given more fuel than there are timers, returns: it
-- arms each timer whose goal does not lie before the present, `goal >= jiffies`, for its next period
-- and calls its handler once, in the order of the list, and it passes over the others.
pub walk_timer_list-Walked :
    (s : Timers) (xs : List ℕ) (fuel : ℕ)
    → IsRing s.ring timer_head xs
    → AllPeriodic s xs
    → length xs < fuel
    → (t : Timers) × (walk_timer_list fuel s ≡ ok (tt, t)) × Walked s xs t
unfolding walk_timer_list list_for_each
walk_timer_list-Walked s xs fuel ring m f =
    walk-Walked xs fuel fuel timer_head timer_head s ring.chain ring.live ring.nodup.0 ring.nodup.1
      m f
