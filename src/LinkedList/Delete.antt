-- ===== src/LinkedList/Delete.antt =====
-- `list_del` takes a node out of the ring and clears its links.
use nbos.Base.{ℕ, ◌≡◌, refl, true, false, List, [], ◌∷◌, ◌++◌, arith, ok, Bool, ◌==◌, ==_refl}
use nbos.LinkedList.{
  Heap, update, null, list_del, list_empty, get_next-ok, get_prev-ok, set_next-ok, set_prev-ok,
}
use nbos.LinkedList.Chain.{
  ne_of_has, has, Nodup, Chain, IsRing, last, first, has-append, next-first, prev-last, last-ne,
  first-ne, live-last, live-first, split-Chain, join-Chain_end, relink, restart, first-apart,
  last-apart, Nodup-append_left, Nodup-append_right, Nodup-remove, Nodup-apart, AllLive-append,
  AllLive-remove,
}

-- The heap after the four stores of `list_del`.
abbrev pub deleted : Heap → (entry prev next : ℕ) → Heap
deleted h entry prev next = record h {
  prev = update (update h.prev next prev) entry null;
  next = update (update h.next prev next) entry null;
}

list_del_lem :
    (h : Heap) (entry prev next : ℕ)
    → h.prev entry ≡ prev
    → h.next entry ≡ next
    → h.live entry ≡ true
    → h.live prev ≡ true
    → h.live next ≡ true
    → list_del entry h ≡ ok (tt, deleted h entry prev next)
unfolding list_del
list_del_lem h entry prev next p n a b c = rw (
  get_prev-ok h entry a,
  p,
  get_next-ok h entry a,
  n,
  set_prev-ok h next c prev,
  set_next-ok h₁ prev b next,
  set_prev-ok h₂ entry a null,
  set_next-ok h₃ entry a null,
)
  where
    h₁ : Heap
    h₁ = record h { prev = update h.prev next prev }

    h₂ : Heap
    h₂ = record h₁ { next = update h.next prev next }

    h₃ : Heap
    h₃ = record h₂ { prev = update h₁.prev entry null }

-- The facts about a node `x` of a ring without duplicates.
record Apart (head x : ℕ) (xs ys : List ℕ) : Type 0 where
  out_left : has x (head ∷ xs) ≡ false
  out_right : has x (head ∷ ys) ≡ false
  left : Nodup (head ∷ xs)
  right : Nodup ys
  head_out : has head ys ≡ false
  first_out : has (first ys head) xs ≡ false
  last_out : has (last head xs) ys ≡ false

Nodup-Apart : (head x : ℕ) (xs ys : List ℕ) → Nodup (head ∷ xs ++ x ∷ ys) → Apart head x xs ys
Nodup-Apart head x xs ys d =
    let less = Nodup-remove x (head ∷ xs) ys d in
    let apart = Nodup-append_right xs (x ∷ ys) d.1 in
    record {
      out_left = ground (arith, Nodup-apart x (head ∷ xs) (x ∷ ys) d, ==_refl x);
      out_right = ground (arith, apart, has-append head xs (x ∷ ys), d.0);
      left = Nodup-append_left (head ∷ xs) (x ∷ ys) d;
      right = apart.1;
      head_out = ground (arith, has-append head xs ys, less.0);
      first_out = first-apart xs ys head less.1 less.0;
      last_out = last-apart head xs ys less;
    }

module _ (h : Heap) (head x : ℕ) (xs ys : List ℕ) where
  abbrev without : Heap
  without = deleted h x (last head xs) (first ys head)

  without-Chain :
      Apart head x xs ys → Chain h head (xs ++ x ∷ ys) head → Chain without head (xs ++ ys) head
  without-Chain a c =
      let (l, r) = split-Chain h head xs (x ∷ ys) head c in
      join-Chain_end without head xs ys head
        (relink h without head xs x (first ys head) l a.left
          (λ b i away. ground (arith, ne_of_has b x (head ∷ xs) i a.out_left))
          (λ b i.
            ground
              (arith, ne_of_has b (first ys head) xs i a.first_out, a.out_left, ne_of_has b x xs i))
          (ground (arith, last-ne x head xs a.out_left))
          (ground (arith, first-ne x ys head, a.out_right)))
        (restart h without x (last head xs) ys head r.2 a.head_out
          (λ b i.
            ground
              (arith, ne_of_has b (last head xs) ys i a.last_out, a.out_right, ne_of_has b x ys i))
          (λ b i away. ground (arith, ne_of_has b x (head ∷ ys) i a.out_right)) a.right
          (ground (arith, last-ne x head xs a.out_left))
          (ground (arith, first-ne x ys head, a.out_right)))

  -- `list_del` of a node of the ring succeeds, leaves the ring without that node and in the same
  -- order, and sets both links of the node to `NULL`. The same addresses are allocated.
  pub list_del-IsRing :
      IsRing h head (xs ++ x ∷ ys)
      → (g : Heap) × (list_del x h ≡ ok (tt, g))
        × IsRing g head (xs ++ ys)
        × (g.prev x ≡ null)
        × (g.next x ≡ null)
        × (g.live ≡ h.live)
  list_del-IsRing r =
      let a = Nodup-Apart head x xs ys r.nodup in
      let (c, d) = split-Chain h head xs (x ∷ ys) head r.chain in
      let (l, m) = AllLive-append h (head ∷ xs) (x ∷ ys) r.live in
      (
        without,
        list_del_lem h x (last head xs) (first ys head) (prev-last h head xs x c)
            (next-first h x ys head d.2) m.0 (live-last h head xs l)
            (live-first h ys head m.1 r.live.0),
        record {
          chain = without-Chain a r.chain;
          nodup = Nodup-remove x (head ∷ xs) ys r.nodup;
          live = AllLive-remove h without x (head ∷ xs) ys refl r.live;
        },
        ground (arith, ==_refl x),
        ground (arith, ==_refl x),
        refl,
      )

abbrev pub is_empty : List ℕ → Bool
is_empty [] = true
is_empty (x ∷ xs) = false

-- `list_empty` of the head of a ring succeeds, tells whether the ring has no node but the head, and
-- changes nothing.
pub list_empty_lem :
    (h : Heap) (head : ℕ) (xs : List ℕ) → IsRing h head xs → list_empty head h ≡ ok (is_empty xs, h)
unfolding list_empty
list_empty_lem h head [] r = rw (get_next-ok h head r.live.0, r.chain.0, ==_refl head)
list_empty_lem h head (x ∷ xs) r = rw (get_next-ok h head r.live.0, r.chain.0, other)
  where
    other : (x == head) ≡ false
    other = ground (arith, r.nodup)
