-- ===== src/Kmalloc/Slots.antt =====
-- Objects leave and enter the free list of their page.
use nbos.Base.{
  ℕ, ◌+◌, ◌-◌, ◌%◌, ◌^◌, ◌<◌, ◌≡◌, refl, ◌≢◌, arith, ok, List, [], ◌∷◌, length, false, subst,
}
use nbos.Page.{update}
use nbos.LinkedList.Chain.{has}
use nbos.Kmalloc.{Heap, take_object, give_object, update_desc}
use nbos.Kmalloc.Carve.{FreeList}

-- Descriptor `b` manages a page of `total` objects, of which `xs` are free; none of them twice.
pub record IsSlab (s : Heap) (b total : ℕ) (xs : List ℕ) : Type 0 where
  pub free : FreeList s.pages.mem xs (s.desc b).freeptr
  pub count : (s.desc b).refcnt + length xs ≡ total
  pub small : total < 2 ^ 16

-- A free list survives a store to an address that is not on it.
pub FreeList-update :
    (mem : ℕ → ℕ) (xs : List ℕ) (p a v : ℕ)
    → FreeList mem xs p
    → has a xs ≡ false
    → FreeList (update mem a v) xs p
FreeList-update mem [] p a v l o = l
FreeList-update mem (x ∷ xs) p a v (e, ne, l) o =
    (e, ne, FreeList-update mem xs _ a v (rw other l) (ground arith))
  where
    other : update mem a v x ≡ mem x
    other = ground arith

-- The last lines of `kmalloc` change the free list and the count of the descriptor alone.
abbrev pub taken : Heap → (d : ℕ) → Heap
taken u d = record u {
  desc = update_desc u.desc d (record (u.desc d) {
    freeptr = u.pages.mem (u.desc d).freeptr;
    refcnt = ((u.desc d).refcnt + 1) % 2 ^ 16;
  });
}

pub take-run : (u : Heap) (d : ℕ) → take_object d u ≡ ok ((u.desc d).freeptr, taken u d)
unfolding take_object
take-run u d = refl

-- With a free object, `kmalloc`'s last lines hand out the first one: it is not null, the others
-- stay free, and one more object counts as used.
pub take_object-IsSlab :
    (s : Heap) (b total x : ℕ) (xs : List ℕ)
    → IsSlab s b total (x ∷ xs)
    → (t : Heap) × (take_object b s ≡ ok (x, t))
      × (x ≢ 0)
      × IsSlab t b total xs
      × ((t.desc b).refcnt ≡ (s.desc b).refcnt + 1)
unfolding take_object
take_object-IsSlab s b total x xs i = (
  record s {
    desc = update_desc s.desc b (record (s.desc b) {
      freeptr = s.pages.mem (s.desc b).freeptr;
      refcnt = ((s.desc b).refcnt + 1) % 2 ^ 16;
    });
  },
  ground arith,
  i.free.1,
  record {
    free = subst (FreeList s.pages.mem xs) (ground arith) i.free.2;
    count = ground arith;
    small = i.small;
  },
  ground arith,
)

-- An object that is not free, given back while its page has one in use, becomes the first free one.
pub give_object-IsSlab :
    (s : Heap) (b total obj : ℕ) (xs : List ℕ)
    → IsSlab s b total xs
    → obj ≢ 0
    → has obj xs ≡ false
    → 0 < (s.desc b).refcnt
    → (t : Heap) × (give_object obj b s ≡ ok (tt, t))
      × IsSlab t b total (obj ∷ xs)
      × ((t.desc b).refcnt + 1 ≡ (s.desc b).refcnt)
unfolding give_object
give_object-IsSlab s b total obj xs i ne o h = (
  record s {
    pages = record s.pages { mem = update s.pages.mem obj (s.desc b).freeptr };
    desc =
        update_desc s.desc b
          (record (s.desc b) { freeptr = obj; refcnt = ((s.desc b).refcnt + 2 ^ 16 - 1) % 2 ^ 16 });
  },
  refl,
  record {
    free = (
      ground arith,
      ne,
      subst (FreeList (update s.pages.mem obj (s.desc b).freeptr) xs) (ground arith)
          (FreeList-update s.pages.mem xs (s.desc b).freeptr obj (s.desc b).freeptr i.free o),
    );
    count = ground arith;
    small = i.small;
  },
  ground arith,
)
