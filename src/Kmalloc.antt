-- ===== src/Kmalloc.antt =====
-- mm/kmalloc.c: the bucket allocator. Bucket descriptors are records at addresses; the free objects
-- of a page are chained through their first words in `Pages.mem`. Both functions run with
-- interrupts off between `disable_irqsave` and `enable_irqsave`, so each is one step here. Walks of
-- a chain take fuel.
pub mod Buckets
pub mod Carve
pub mod Chains
pub mod Oversize
pub mod Slots
pub mod Grow
pub mod Find
pub mod Free
pub mod Release
use nbos.Base.{
  ℕ, zero, suc, ◌+◌, ◌-◌, ◌*◌, ◌/◌, ◌%◌, ◌^◌, Bool, true, false, not, ◌&&◌, ◌||◌, ◌==◌, ltb, leb,
  if◌then◌else◌, List, [], ◌∷◌, M, Run, ok, fault, out_of_fuel, pure, raise, ◌>>=◌, ◌>>◌, get_state,
  and_then,
}
use nbos.Page
use nbos.Page.{Pages, page_size, update, get_free_page, free_page, set_page_flags}

-- `struct bucket_desc`, 32 bytes with its padding
pub record Desc : Type 0 where
  pub page : ℕ
  pub next : ℕ
  pub freeptr : ℕ
  pub refcnt : ℕ
  pub bucket_size : ℕ

abbrev pub desc_size : ℕ
desc_size = 32

pub record Heap : Type 0 where
  pub pages : Pages
  pub desc : ℕ → Desc
  pub chain : ℕ → ℕ  -- the `chain` of the entry of `bucket_dir` with this index
  pub free_bucket_desc : ℕ

-- The sizes of `bucket_dir`, without the end marker.
abbrev pub bucket_sizes : List ℕ
bucket_sizes = 16 ∷ 32 ∷ 64 ∷ 128 ∷ 256 ∷ 512 ∷ 1024 ∷ 2048 ∷ 4096 ∷ []

-- A search of `bucket_dir` from index `i` on: the index and size of the first bucket with
-- `size >= len`, or the end marker, whose size is 0.
unfoldable pub find_from : List ℕ → (i len : ℕ) → ℕ × ℕ
find_from [] i len = (i, 0)
find_from (size ∷ sizes) i len = if leb len size then (i, size) else find_from sizes (i + 1) len

unfoldable pub find_bucket : ℕ → ℕ × ℕ
unfolding find_from
find_bucket len = find_from bucket_sizes 0 len

abbrev pub lift : {A : Type 0} → M Pages A → M Heap A
lift m s = and_then (m s.pages) λ (a, p). ok (a, record s { pages = p })

abbrev pub update_desc : (ℕ → Desc) → ℕ → Desc → ℕ → Desc
update_desc f p d q = if q == p then d else f q

abbrev pub set_desc : ℕ → Desc → M Heap (Unit {0})
set_desc p d s = ok (tt, record s { desc = update_desc s.desc p d })

abbrev pub set_chain : ℕ → ℕ → M Heap (Unit {0})
set_chain b p s = ok (tt, record s { chain = update s.chain b p })

abbrev pub set_free_desc : ℕ → M Heap (Unit {0})
set_free_desc p s = ok (tt, record s { free_bucket_desc = p })

-- The loop of `init_bucket_desc`: descriptor after descriptor is linked to the one behind it; the
-- result is the last one.
unfoldable pub link_descs : ℕ → ℕ → (ℕ → Desc) → ℕ × (ℕ → Desc)
link_descs zero bdesc f = (bdesc, f)
link_descs (suc n) bdesc f =
    link_descs n (bdesc + desc_size)
      (update_desc f bdesc (record (f bdesc) { next = bdesc + desc_size }))

unfoldable pub init_bucket_desc : M Heap (Unit {0})
unfolding link_descs
init_bucket_desc = do
  first ← lift get_free_page
  lift (set_page_flags first 1)
  s ← get_state
  let (bdesc, f) = link_descs (page_size / desc_size - 1) first s.desc
  λ t. ok (
    tt,
    record t {
      desc = update_desc f bdesc (record (f bdesc) { next = t.free_bucket_desc });
      free_bucket_desc = first;
    },
  )

-- The loop that chains the free objects of a page, with `n` objects left behind `cp`.
unfoldable pub carve : (n cp size : ℕ) → (ℕ → ℕ) → ℕ → ℕ
carve zero cp size mem = update mem cp 0
carve (suc n) cp size mem = carve n (cp + size) size (update mem cp (cp + size))

-- `for (bdesc = bdir->chain; bdesc; bdesc = bdesc->next) if (bdesc->freeptr) break;`
unfoldable pub find_space : ℕ → (ℕ → Desc) → ℕ → Run ℕ
find_space zero f bdesc = out_of_fuel
find_space (suc k) f bdesc =
    let rest = find_space k f (f bdesc).next in
    if bdesc == 0 then ok 0 else if not ((f bdesc).freeptr == 0) then ok bdesc else rest

-- The new page `cp` becomes the first of bucket `b`, all its objects free; the division by the end
-- marker's size is undefined.
unfoldable pub new_object : (bdesc b size cp : ℕ) → M Heap ℕ
unfolding carve
new_object bdesc b size cp = do
  (if size == 0 then raise else pure tt)
  t ← get_state
  set_desc bdesc
      (record { page = cp; next = t.chain b; freeptr = cp; refcnt = 0; bucket_size = size })
  set_chain b bdesc
  λ u. ok (
    bdesc,
    record u { pages = record u.pages { mem = carve (page_size / size - 1) cp size u.pages.mem } },
  )

-- A new page for bucket `b`, with a free descriptor.
unfoldable pub grow : (b size : ℕ) → M Heap ℕ
grow b size = do
  s ← get_state
  (if s.free_bucket_desc == 0 then init_bucket_desc else pure tt)
  s ← get_state
  set_free_desc (s.desc s.free_bucket_desc).next
  cp ← lift get_free_page
  new_object s.free_bucket_desc b size cp

-- The last lines of `kmalloc`: the first free object of the page leaves its chain.
unfoldable pub take_object : ℕ → M Heap ℕ
take_object bdesc s =
    let d = s.desc bdesc in
    ok (
      d.freeptr,
      record s {
        desc =
            update_desc s.desc bdesc
              (record d { freeptr = s.pages.mem d.freeptr; refcnt = (d.refcnt + 1) % 2 ^ 16 });
      },
    )

unfoldable pub kmalloc : ℕ → (len : ℕ) → M Heap ℕ
unfolding take_object
kmalloc fuel len = do
  let (b, size) = find_bucket len
  s ← get_state
  found ← λ t. and_then (find_space fuel s.desc (s.chain b)) λ p. ok (p, t)
  bdesc ← (if found == 0 then grow b size else pure found)
  take_object bdesc

-- The inner search of `free_s`: the descriptor of the page, or 0, and the one before it.
unfoldable pub find_page : ℕ → (ℕ → Desc) → (page prev bdesc : ℕ) → Run (ℕ × ℕ)
find_page zero f page prev bdesc = out_of_fuel
find_page (suc k) f page prev bdesc =
    let rest = find_page k f page bdesc (f bdesc).next in
    if bdesc == 0 then ok (0, prev) else if (f bdesc).page == page then ok (bdesc, prev) else rest

-- The outer search, over the buckets from index `b` on; the result is the bucket, the descriptor
-- and the one before it, and the descriptor is 0 if no bucket has the page.
unfoldable pub find_owner : ℕ → List ℕ → (b : ℕ) → Heap → (page size : ℕ) → Run (ℕ × ℕ × ℕ)
find_owner fuel [] b s page size = ok (b, 0, 0)
find_owner fuel (z ∷ sizes) b s page size =
    let rest = find_owner fuel sizes (b + 1) s page size in
    if ltb z size
    then rest
    else and_then (find_page fuel s.desc page 0 (s.chain b))
        λ (bdesc, prev). if bdesc == 0 then rest else ok (b, bdesc, prev)

-- `for (prev = bdir->chain; prev; prev = prev->next) if (prev->next == bdesc) break;`
unfoldable pub find_prev : ℕ → (ℕ → Desc) → (bdesc prev : ℕ) → Run ℕ
find_prev zero f bdesc prev = out_of_fuel
find_prev (suc k) f bdesc prev =
    let rest = find_prev k f bdesc (f prev).next in
    if prev == 0 then ok 0 else if (f prev).next == bdesc then ok prev else rest

-- The test whether `prev` is out of date.
abbrev pub is_stale : Heap → (b bdesc prev : ℕ) → Bool
is_stale s b bdesc prev =
    (not (prev == 0) && not ((s.desc prev).next == bdesc))
    || ((prev == 0) && not (s.chain b == bdesc))

-- An empty page goes back to the page manager, and its descriptor to the free ones.
unfoldable pub release_page : ℕ → (b bdesc prev : ℕ) → M Heap (Unit {0})
release_page fuel b bdesc prev = do
  s ← get_state
  prev' ←
      (if is_stale s b bdesc prev
        then (λ t. and_then (find_prev fuel s.desc bdesc (s.chain b)) λ p. ok (p, t))
        else pure prev)
  (if prev' == 0
      then set_chain b (s.desc bdesc).next
      else set_desc prev' (record (s.desc prev') { next = (s.desc bdesc).next }))
  lift (set_page_flags (s.desc bdesc).page 0)
  lift (free_page (s.desc bdesc).page)
  t ← get_state
  set_desc bdesc (record (t.desc bdesc) { next = t.free_bucket_desc })
  set_free_desc bdesc

-- `*obj = bdesc->freeptr; bdesc->freeptr = obj; bdesc->refcnt--;`
unfoldable pub give_object : (obj bdesc : ℕ) → M Heap (Unit {0})
give_object obj bdesc s =
    let d = s.desc bdesc in
    ok (
      tt,
      record s {
        pages = record s.pages { mem = update s.pages.mem obj d.freeptr };
        desc =
            update_desc s.desc bdesc
              (record d { freeptr = obj; refcnt = (d.refcnt + 2 ^ 16 - 1) % 2 ^ 16 });
      },
    )

-- After "Bad address" the code goes on with a null descriptor.
unfoldable pub free_s : ℕ → (obj size : ℕ) → M Heap (Unit {0})
free_s fuel obj size = do
  let page = obj - obj % page_size
  s ← get_state
  (b, bdesc, prev) ← (λ t. and_then (find_owner fuel bucket_sizes 0 s page size) λ r. ok (r, t))
  (if bdesc == 0 then raise else pure tt)
  give_object obj bdesc
  t ← get_state
  (if (t.desc bdesc).refcnt == 0 then release_page fuel b bdesc prev else pure tt)

abbrev pub kfree : ℕ → ℕ → M Heap (Unit {0})
kfree fuel obj = free_s fuel obj 0
