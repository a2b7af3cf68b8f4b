-- ===== src/Page/Free.antt =====
-- How many pages are free, and the addresses that no free page holds.
use nbos.Base.{
  ℕ, zero, suc, ◌+◌, ◌<◌, ◌≤◌, ◌≡◌, refl, arith, ◌==◌, if◌then◌else◌, Bool-cases, inl, inr, ◌⊎◌,
  ltb,
}
use nbos.Page.{Pages, page_size, paging_pages, update}
use nbos.Page.Address.{page_va, page_va-apart}
use nbos.Page.Alloc.{Got}

-- The free ones of the first `n` pages.
unfoldable pub free_below : (n : ℕ) → (count : ℕ → ℕ) → ℕ
free_below zero count = 0
free_below (suc n) count = if count n == 0 then free_below n count + 1 else free_below n count

abbrev pub free_pages : Pages → ℕ
free_pages s = free_below paging_pages s.count

pub free_below-ex :
    (n : ℕ) (count : ℕ → ℕ) → 0 < free_below n count → (j : ℕ) × (j < n) × (count j ≡ 0)
unfolding free_below
free_below-ex zero count h = absurd (omega arith)
free_below-ex (suc n) count h = elim (Bool-cases (count n == 0)) [
  | inl e ↦ (n, omega arith, ground arith)
  | inr e ↦ let (j, a, b) = free_below-ex n count (rw e at h) in (j, omega arith, b)
]

free_below-outside :
    (n i : ℕ) (count : ℕ → ℕ) → n ≤ i → free_below n (update count i 1) ≡ free_below n count
unfolding free_below
free_below-outside zero i count h = refl
free_below-outside (suc n) i count h = ground (arith, free_below-outside n i count)

-- Taking a free page leaves one less.
pub free_below-update :
    (n i : ℕ) (count : ℕ → ℕ)
    → i < n
    → count i ≡ 0
    → free_below n (update count i 1) + 1 ≡ free_below n count
unfolding free_below
free_below-update zero i count h z = absurd (omega arith)
free_below-update (suc n) i count h z = elim (Bool-cases (n == i)) [
  | inl e ↦ ground (arith, free_below-outside n i count)
  | inr e ↦ ground (arith, free_below-update n i count)
]

-- The address lies in no free page: what stands there stays when pages are handed out.
abbrev pub IsTaken : Pages → ℕ → Type 0
IsTaken s a =
    (j : ℕ) → j < paging_pages → s.count j ≡ 0 → (a < page_va j) ⊎ (page_va j + page_size ≤ a)

pub Got-IsTaken : (s t : Pages) (i a : ℕ) → Got s t i → IsTaken s a → IsTaken t a
Got-IsTaken s t i a g h j l z = h j l (ground (arith, g.counts))

-- The new page itself is taken.
pub Got-new : (s t : Pages) (i k : ℕ) → Got s t i → k < page_size → IsTaken t (page_va i + k)
Got-new s t i k g h j l z = elim (Bool-cases (ltb j i)) [
  | inl e ↦ let apart = page_va-apart j i (ground arith) g.below in inr (omega (arith, apart))
  | inr e ↦ let apart = page_va-apart i j (ground (arith, g.counts)) l in inl (omega (arith, apart))
]
