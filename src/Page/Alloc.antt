-- ===== src/Page/Alloc.antt =====
-- The page allocator: which page is taken, what changes, exhaustion, and allocation before release.
use nbos.Base.{
  ℕ, zero, suc, ◌+◌, ◌≤◌, ◌<◌, ◌≡◌, refl, ◌≢◌, arith, ok, fault, none, some, Option, ◌==◌, inl, inr,
  Bool-cases, lt→ltb, ap, subst,
}
use nbos.Page.{
  Pages, page_size, paging_pages, update, alloc_from, alloc_page, put_page, free_page,
  get_free_page, clear_page, cleared,
}
use nbos.Page.Address.{page_va, page_va_round_trip, page_va-apart}

-- Page `i` of the first `n` is the highest free one, and `t` is `s` with that page taken.
pub record Taken (n : ℕ) (s t : Pages) (i : ℕ) : Type 0 where
  pub below : i < n
  pub was_free : s.count i ≡ 0
  pub highest : (j : ℕ) → i < j → j < n → s.count j ≢ 0
  pub counts : t.count ≡ update s.count i 1
  pub flags : t.flags ≡ s.flags
  pub mem : t.mem ≡ s.mem

abbrev pub Allocated : ℕ → Pages → Option ℕ × Pages → Type 0
Allocated n s (none, t) = (t ≡ s) × ((j : ℕ) → j < n → s.count j ≢ 0)
Allocated n s (some i, t) = Taken n s t i

weaken :
    (n : ℕ) (s : Pages) (r : Option ℕ × Pages)
    → Allocated n s r
    → s.count n ≢ 0
    → Allocated (suc n) s r
weaken n s (none, t) (e, all) busy = (
  e,
  λ j h. elim (Bool-cases (j == n)) [
    | inl same ↦ λ z. busy (ground arith)
    | inr other ↦ all j (ground arith)
  ],
)
weaken n s (some i, t) k busy = record {
  below = omega (arith, k.below);
  was_free = k.was_free;
  highest = λ j a b. elim (Bool-cases (j == n)) [
    | inl same ↦ λ z. busy (ground arith)
    | inr other ↦ k.highest j a (ground arith)
  ];
  counts = k.counts;
  flags = k.flags;
  mem = k.mem;
}

alloc_from-Allocated : (n : ℕ) (s : Pages) → Allocated n s (alloc_from n s)
unfolding alloc_from
alloc_from-Allocated zero s = (refl, λ j h. elim h [ ])
alloc_from-Allocated (suc n) s = elim (Bool-cases (s.count n == 0)) [
  | inl free ↦ rw free (record {
    below = omega arith;
    was_free = ground arith;
    highest = λ j a b. absurd (omega arith);
    counts = refl;
    flags = refl;
    mem = refl;
  })
  | inr busy ↦ rw busy (weaken n s (alloc_from n s) (alloc_from-Allocated n s) (ground arith))
]

-- `alloc_page` takes the free page with the highest number: it sets the count of that page to 1 and
-- changes nothing else. It returns `NULL`, changing nothing, only when every page is in use.
pub alloc_page-Allocated : (s : Pages) → Allocated paging_pages s (alloc_page s)
unfolding alloc_page
alloc_page-Allocated s = alloc_from-Allocated paging_pages s

-- What a successful `get_free_page` has done: page `i` was the highest free one and is now cleared.
pub record Got (s t : Pages) (i : ℕ) : Type 0 where
  pub below : i < paging_pages
  pub was_free : s.count i ≡ 0
  pub highest : (j : ℕ) → i < j → j < paging_pages → s.count j ≢ 0
  pub counts : t.count ≡ update s.count i 1
  pub flags : t.flags ≡ s.flags
  pub mem : t.mem ≡ clear_page s.mem (page_va i)

-- When some managed page is free, `get_free_page` succeeds: it returns the kernel address of the
-- highest free page, which is now counted once and holds only zeros; all other counts, the flags
-- and all memory outside that page are unchanged.
pub get_free_page-Got :
    (s : Pages) (j : ℕ)
    → j < paging_pages
    → s.count j ≡ 0
    → (i : ℕ) × (t : Pages) × (get_free_page s ≡ ok (page_va i, t)) × Got s t i
unfolding get_free_page
get_free_page-Got s j b z = go (alloc_page s) refl (alloc_page-Allocated s)
  where
    go :
        (r : Option ℕ × Pages)
        → alloc_page s ≡ r
        → Allocated paging_pages s r
        → (i : ℕ) × (t : Pages) × (get_free_page s ≡ ok (page_va i, t)) × Got s t i
    go (none, t) e (_, all) = absurd (all j b z)
    go (some i, t) e k = (
      i,
      record t { mem = clear_page t.mem (page_va i) },
      ap cleared e,
      record {
        below = k.below;
        was_free = k.was_free;
        highest = k.highest;
        counts = k.counts;
        flags = k.flags;
        mem = rw k.mem;
      },
    )

-- When every managed page is in use, `get_free_page` does not return: it clears memory at an address
-- computed from `NULL`.
pub get_free_page-exhausted :
    (s : Pages) → ((j : ℕ) → j < paging_pages → s.count j ≢ 0) → get_free_page s ≡ fault
unfolding get_free_page
get_free_page-exhausted s busy = go (alloc_page s) refl (alloc_page-Allocated s)
  where
    go :
        (r : Option ℕ × Pages)
        → alloc_page s ≡ r
        → Allocated paging_pages s r
        → get_free_page s ≡ fault
    go (none, t) e k = ap cleared e
    go (some i, t) e k = absurd (busy i k.below k.was_free)

-- What a returned address stands for.
pub get_free_page_inv :
    (s t : Pages) (a : ℕ) → get_free_page s ≡ ok (a, t) → (i : ℕ) × (a ≡ page_va i) × Got s t i
get_free_page_inv s t a p = go (alloc_page s) refl (alloc_page-Allocated s)
  where
    go :
        (r : Option ℕ × Pages)
        → alloc_page s ≡ r
        → Allocated paging_pages s r
        → (i : ℕ) × (a ≡ page_va i) × Got s t i
    go (none, _) e (_, all) = absurd (cc (get_free_page-exhausted s all))
    go (some i, _) e k =
        let (j, t', run, got) = get_free_page-Got s i k.below k.was_free in
        (j, cc, subst (λ z. Got s z j) (cc run) got)

-- Two pages handed out one after the other do not overlap: the second lies below the first.
pub get_free_page-apart :
    (s t u : Pages) (a b : ℕ)
    → get_free_page s ≡ ok (a, t)
    → get_free_page t ≡ ok (b, u)
    → b + page_size ≤ a
get_free_page-apart s t u a b p q =
    let (i, ea, g) = get_free_page_inv s t a p in
    let (j, eb, g') = get_free_page_inv t u b q in
    rw (ea, eb)
      (page_va-apart j i (ground (arith, g.highest j, g'.was_free, g'.below, g.counts)) g.below)

-- Releasing the page that `get_free_page` returned gives every page its count back.
pub free_page-get_free_page :
    (s t : Pages) (a : ℕ)
    → get_free_page s ≡ ok (a, t)
    → (u : Pages) × (free_page a t ≡ ok (tt, u)) × ((j : ℕ) → u.count j ≡ s.count j)
unfolding free_page put_page
free_page-get_free_page s t a p =
    let (i, ea, g) = get_free_page_inv s t a p in
    let (pfn, _, _, _) = page_va_round_trip i g.below in
    (
      put_page i t,
      rw (ea, pfn, lt→ltb i paging_pages g.below),
      λ j. ground (arith, g.counts, g.was_free),
    )
