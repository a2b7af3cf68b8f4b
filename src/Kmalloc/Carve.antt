-- ===== src/Kmalloc/Carve.antt =====
-- The free list that `kmalloc` builds in a new page.
use nbos.Base.{ℕ, zero, suc, ◌+◌, ◌*◌, ◌<◌, ◌≡◌, refl, ◌≢◌, arith, List, [], ◌∷◌, length, ◌∙◌}
use nbos.Page.{update}
use nbos.Kmalloc.{carve}

-- From `p` the first words of the free objects lead through `xs` to `NULL`.
abbrev pub FreeList : (ℕ → ℕ) → List ℕ → ℕ → Type 0
FreeList mem [] p = p ≡ 0
FreeList mem (x ∷ xs) p = (p ≡ x) × (x ≢ 0) × FreeList mem xs (mem x)

-- The `n + 1` objects of `size` bytes from `cp` on.
abbrev pub objects : (n cp size : ℕ) → List ℕ
objects zero cp size = cp ∷ []
objects (suc n) cp size = cp ∷ objects n (cp + size) size

carve-below : (n cp size : ℕ) (mem : ℕ → ℕ) (a : ℕ) → a < cp → carve n cp size mem a ≡ mem a
unfolding carve
carve-below zero cp size mem a h = ground arith
carve-below (suc n) cp size mem a h =
    carve-below n (cp + size) size (update mem cp (cp + size)) a (omega arith) ∙ ground arith

-- The words behind the last object are not written.
carve-above :
    (n cp size : ℕ) (mem : ℕ → ℕ) (a : ℕ) → cp + n * size < a → carve n cp size mem a ≡ mem a
unfolding carve
carve-above zero cp size mem a h = ground arith
carve-above (suc n) cp size mem a h =
    carve-above n (cp + size) size (update mem cp (cp + size)) a (grind arith) ∙ grind arith

-- The loop leaves the list of the objects of the page, in ascending order, `n + 1` of them for `n`
-- rounds, and writes no word below the first or above the last.
pub carve-FreeList :
    (n cp size : ℕ) (mem : ℕ → ℕ)
    → 0 < cp
    → 0 < size
    → FreeList (carve n cp size mem) (objects n cp size) cp
      × (length (objects n cp size) ≡ n + 1)
      × ((a : ℕ) → a < cp → carve n cp size mem a ≡ mem a)
      × ((a : ℕ) → cp + n * size < a → carve n cp size mem a ≡ mem a)
unfolding carve
carve-FreeList zero cp size mem h k = (
  (refl, omega arith, ground arith),
  omega arith,
  carve-below zero cp size mem,
  carve-above zero cp size mem,
)
carve-FreeList (suc n) cp size mem h k =
    let mem' : ℕ → ℕ = update mem cp (cp + size) in
    let (list, count, _, _) = carve-FreeList n (cp + size) size mem' (omega arith) k in
    let link : carve n (cp + size) size mem' cp ≡ cp + size =
      carve-below n (cp + size) size mem' cp (omega arith) ∙ ground arith in
    (
      (refl, omega arith, rw link list),
      omega arith,
      carve-below (suc n) cp size mem,
      carve-above (suc n) cp size mem,
    )
