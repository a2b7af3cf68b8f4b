-- ===== src/LinkedList/Insert.antt =====
-- `list_add` and `list_add_tail` insert a node at the front and at the back of the ring.
use nbos.Base.{ℕ, ◌≡◌, refl, ◌≢◌, true, false, List, [], ◌∷◌, ◌++◌, arith, ok, append-nil}
use nbos.LinkedList.{
  Heap, update, list_insert, list_add, list_add_tail, get_next-ok, get_prev-ok, set_next-ok,
  set_prev-ok,
}
use nbos.LinkedList.Chain.{
  first-apart, last-apart, Nodup-append_left, Nodup-append_right, Nodup-insert, AllLive-insert,
  ne_of_has, has, Nodup, Chain, IsRing, last, first, has-append, next-first, prev-last, last-ne,
  first-ne, live-last, live-first, split-Chain, join-Chain, relink, restart,
}

-- The heap after the four stores of `__list_add`.
abbrev pub inserted : Heap → (new prev next : ℕ) → Heap
inserted h new prev next = record h {
  prev = update (update h.prev next new) new prev;
  next = update (update h.next new next) prev new;
}

pub list_insert_lem :
    (h : Heap) (new prev next : ℕ)
    → h.live new ≡ true
    → h.live prev ≡ true
    → h.live next ≡ true
    → list_insert new prev next h ≡ ok (tt, inserted h new prev next)
unfolding list_insert
list_insert_lem h new prev next a b c = rw (
  set_prev-ok h next c new,
  set_next-ok h₁ new a next,
  set_prev-ok h₂ new a prev,
  set_next-ok h₃ prev b new,
)
  where
    h₁ : Heap
    h₁ = record h { prev = update h.prev next new }

    h₂ : Heap
    h₂ = record h₁ { next = update h.next new next }

    h₃ : Heap
    h₃ = record h₂ { prev = update h₁.prev new prev }

module _ (h : Heap) (new : ℕ) where
  -- The heap that `__list_add` leaves, over a ring in two parts.
  abbrev pub between : (head : ℕ) (xs ys : List ℕ) → Heap
  between head xs ys = inserted h new (last head xs) (first ys head)

  left-Chain :
      (head : ℕ) (xs ys : List ℕ) (q : ℕ)
      → Chain h head xs q
      → Nodup (head ∷ xs)
      → has new (head ∷ xs) ≡ false
      → new ≢ first ys head
      → has (first ys head) xs ≡ false
      → Chain (between head xs ys) head xs new
  left-Chain head xs ys q c d o ne far =
      relink h (between head xs ys) head xs q new c d
        (λ a i away. ground (arith, ne_of_has a new (head ∷ xs) i o))
        (λ a i. ground (arith, ne_of_has a (first ys head) xs i far, ne_of_has a new xs i))
        (ground arith) (ground arith)

  right-Chain :
      (head : ℕ) (xs ys : List ℕ) (p : ℕ)
      → Chain h p ys head
      → Nodup ys
      → has head ys ≡ false
      → has new (head ∷ ys) ≡ false
      → new ≢ last head xs
      → has (last head xs) ys ≡ false
      → Chain (between head xs ys) new ys head
  right-Chain head xs ys p c d cut o ne far =
      restart h (between head xs ys) p new ys head c cut
        (λ a i. ground (arith, ne_of_has a (last head xs) ys i far, ne_of_has a new ys i))
        (λ a i away. ground (arith, ne_of_has a new (head ∷ ys) i o)) d (ground arith)
        (ground (arith, first-ne new ys head))

  -- A new node between two parts of a ring gives the ring with the node there.
  pub between-IsRing :
      (head : ℕ) (xs ys : List ℕ)
      → IsRing h head (xs ++ ys)
      → h.live new ≡ true
      → has new (head ∷ xs ++ ys) ≡ false
      → IsRing (between head xs ys) head (xs ++ new ∷ ys)
  between-IsRing head xs ys r l o = record {
    chain =
        join-Chain (between head xs ys) head xs new ys head
          (left-Chain head xs ys (first ys head) (split-Chain h head xs ys head r.chain).0
            (ground (arith, has-append head xs ys), Nodup-append_left xs ys r.nodup.1)
            (ground (arith, has-append new xs ys))
            (first-ne new ys head (ground (arith, has-append new xs ys)) (ground arith))
            (first-apart xs ys head r.nodup.1 r.nodup.0))
          (right-Chain head xs ys (last head xs) (split-Chain h head xs ys head r.chain).1
            (Nodup-append_right xs ys r.nodup.1) (ground (arith, has-append head xs ys))
            (ground (arith, has-append new xs ys))
            (last-ne new head xs (ground (arith, has-append new xs ys)))
            (last-apart head xs ys r.nodup));
    nodup = (
      ground (arith, has-append head xs ys, has-append head xs (new ∷ ys)),
      Nodup-insert new xs ys r.nodup.1 (ground arith),
    );
    live = (r.live.0, AllLive-insert h (between head xs ys) new xs ys refl r.live.1 l);
  }

  -- `list_add` of an allocated node that is not in the ring succeeds and puts it directly behind the
  -- head: the ring then holds it in front of the old nodes. The same addresses are allocated.
  pub list_add-IsRing :
      (head : ℕ) (xs : List ℕ)
      → IsRing h head xs
      → h.live new ≡ true
      → has new (head ∷ xs) ≡ false
      → (g : Heap) × (list_add new head h ≡ ok (tt, g))
        × IsRing g head (new ∷ xs)
        × (g.live ≡ h.live)
  unfolding list_add
  list_add-IsRing head xs r l o = (
    between head [] xs,
    rw (get_next-ok h head r.live.0, next-first h head xs head r.chain)
        (list_insert_lem h new head (first xs head) l r.live.0
          (live-first h xs head r.live.1 r.live.0)),
    between-IsRing head [] xs r l o,
    refl,
  )

  -- `list_add_tail` of such a node succeeds and puts it before the head, at the end of the ring. The
  -- same addresses are allocated.
  pub list_add_tail-IsRing :
      (head : ℕ) (xs : List ℕ)
      → IsRing h head xs
      → h.live new ≡ true
      → has new (head ∷ xs) ≡ false
      → (g : Heap) × (list_add_tail new head h ≡ ok (tt, g))
        × IsRing g head (xs ++ new ∷ [])
        × (g.live ≡ h.live)
  unfolding list_add_tail
  list_add_tail-IsRing head xs r l o = (
    between head xs [],
    rw (get_prev-ok h head r.live.0, prev-last h head xs head r.chain)
        (list_insert_lem h new (last head xs) head l (live-last h head xs r.live) r.live.0),
    between-IsRing head xs [] (rw append-nil r) l (rw append-nil o),
    refl,
  )
