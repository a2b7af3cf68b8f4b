-- ===== src/Paging/Room.antt =====
-- The bookkeeping of a process, `struct mm_struct`, while its tables grow.
use nbos.Base.{
  ℕ, suc, ◌+◌, ◌*◌, ◌<◌, ◌≤◌, ◌≡◌, refl, ◌≢◌, sym, ◌∙◌, ap, subst, arith, true, ◌==◌, ltb, lt→ltb,
  List, [], ◌∷◌, Option, none, some, Bool-cases, inl, inr, ◌⊎◌, ok,
}
use nbos.Page.{Pages, va_of, page_size, store, update, paging_pages}
use nbos.Page.Address.{page_va}
use nbos.Page.Free.{IsTaken, free_pages}
use nbos.Paging.{
  max_user_pages, max_pgtbl_pages, mm_type_page_table, vma_at, pgtbl_page_at, ensure_page,
  record_page, entry_addr,
}
use nbos.Paging.Walk.{
  is_table, slot_of, next_slot, Keeps, Keeps-refl, Keeps-trans, Keeps-store, table_ne,
}
use nbos.Paging.Level.{page_entry, Filled, Filled-next, ensure_page-Filled, ensure_page-present}

-- `sizeof(struct mm_struct)`
abbrev pub mm_size : ℕ
mm_size = 8 + 16 * max_user_pages + 8 * max_pgtbl_pages

abbrev pub IsOutside : (mm a : ℕ) → Type 0
IsOutside mm a = (a < mm) ⊎ (mm + mm_size ≤ a)

-- The structure at `mm` lies in no free page; `i` of its `vma` entries and `k` of its `pgtbl_page`
-- slots are used, the next entry is zero, and so are the next `n` slots.
pub record HasRoom (s : Pages) (mm i k n : ℕ) : Type 0 where
  pub taken : (a : ℕ) → mm ≤ a → a < mm + mm_size → IsTaken s a
  pub pages_used : (j : ℕ) → j < k → s.mem (pgtbl_page_at mm j) ≢ 0
  pub pages_free : (j : ℕ) → k ≤ j → j < k + n → s.mem (pgtbl_page_at mm j) ≡ 0
  pub pages_bound : k + n ≤ max_pgtbl_pages
  pub vmas_used : (j : ℕ) → j < i → s.mem (vma_at mm j + 8) ≢ 0
  pub vma_free : s.mem (vma_at mm i) ≡ 0
  pub vma_free_pa : s.mem (vma_at mm i + 8) ≡ 0
  pub vma_bound : i < max_user_pages

-- The way to `addr` is open as `IsOpen` says, and its empty entry lies outside the structure.
abbrev pub IsOpenBeside : (mm : ℕ) → Pages → (addr : ℕ) → List ℕ → (slot : ℕ) → Type 0
IsOpenBeside mm s addr [] slot = IsTaken s slot × IsOutside mm slot × (s.mem slot ≡ 0)
IsOpenBeside mm s addr (sh ∷ shs) slot =
    IsTaken s slot
    × ((IsOutside mm slot × (s.mem slot ≡ 0))
        ⊎ ((is_table (s.mem slot) ≡ true)
            × IsOpenBeside mm s addr shs (next_slot s.mem slot addr sh)))

beside_empty :
    (mm : ℕ) (s : Pages) (addr : ℕ) (shs : List ℕ) (slot : ℕ)
    → IsTaken s slot
    → IsOutside mm slot
    → s.mem slot ≡ 0
    → IsOpenBeside mm s addr shs slot
beside_empty mm s addr [] slot h o z = (h, o, z)
beside_empty mm s addr (sh ∷ shs) slot h o z = (h, inl (o, z))

-- A new page lies outside the structure.
pub new-IsOutside :
    (s : Pages) (mm i k n f a : ℕ)
    → HasRoom s mm i k n
    → f < paging_pages
    → s.count f ≡ 0
    → page_va f ≤ a
    → a < page_va f + page_size
    → IsOutside mm a
new-IsOutside s mm i k n f a r l z p q = elim (Bool-cases (ltb a mm)) [
  | inl e ↦ inl (ground arith)
  | inr e ↦ elim (Bool-cases (ltb a (mm + mm_size))) [
    | inl h ↦
        let away = r.taken a (ground arith) (ground arith) f l z in absurd (omega (arith, away))
    | inr h ↦ inr (ground arith)
  ]
]

beside_recorded :
    (mm : ℕ) (mem : ℕ → ℕ) (a k v : ℕ)
    → IsOutside mm a
    → k < max_pgtbl_pages
    → mem a ≡ 0
    → update mem (pgtbl_page_at mm k) v a ≡ 0
beside_recorded mm mem a k v o h z = ground arith

-- A level that the code has passed, with the structure brought up to date.
pub record Grown (mm : ℕ) (s : Pages) (addr sh : ℕ) (shs : List ℕ) (slot i k n : ℕ) (u : Pages)
    : Type 0 where
  pub table : is_table (u.mem slot) ≡ true
  pub rest : IsOpenBeside mm u addr shs (next_slot u.mem slot addr sh)
  pub keeps : Keeps s u
  pub free : free_pages s ≤ free_pages u + 1
  pub room : HasRoom u mm i k n

-- `mm->pgtbl_page[idx++] = va`
abbrev recorded : Pages → (mm k f : ℕ) → Pages
recorded t mm k f = record t { mem = update t.mem (pgtbl_page_at mm k) (page_va f) }

module _ (mm : ℕ) (s t : Pages) (slot i k n f e : ℕ) (r : HasRoom s mm i k (suc n))
    (d : Filled s slot f e t) (o : IsOutside mm slot) where
  -- The words of the structure that are zero stay zero when an entry outside it is filled.
  blank_still : (a : ℕ) → mm ≤ a → a < mm + mm_size → s.mem a ≡ 0 → t.mem a ≡ 0
  blank_still a p q z = d.zeros a z (ground (arith, o))

  slot_blank : t.mem (pgtbl_page_at mm k) ≡ 0
  slot_blank =
      blank_still (pgtbl_page_at mm k) (omega arith) (omega (arith, r.pages_bound))
        (r.pages_free k (omega arith) (omega arith))

  recorded-Keeps : Keeps s (recorded t mm k f)
  recorded-Keeps =
      Keeps-trans s t (recorded t mm k f) d.keeps
        (Keeps-store t (pgtbl_page_at mm k) (page_va f) slot_blank)

  used_still : (a : ℕ) → mm ≤ a → a < mm + mm_size → s.mem a ≢ 0 → (recorded t mm k f).mem a ≢ 0
  used_still a p q z h = z (sym (recorded-Keeps.words a (r.taken a p q) z) ∙ h)

  recorded-HasRoom : HasRoom (recorded t mm k f) mm i (k + 1) n
  recorded-HasRoom = record {
    taken = λ a p q. recorded-Keeps.taken a (r.taken a p q);
    pages_used = λ j h. elim (Bool-cases (j == k)) [
      | inl same ↦ λ z. ground (arith, d.below)
      | inr other ↦
          used_still (pgtbl_page_at mm j) (omega arith) (omega (arith, h, r.pages_bound))
            (r.pages_used j (ground arith))
    ];
    pages_free = λ j p q.
        let z =
          blank_still (pgtbl_page_at mm j) (omega arith) (omega (arith, r.pages_bound))
            (r.pages_free j (omega arith) (omega arith)) in
        ground arith;
    pages_bound = omega (arith, r.pages_bound);
    vmas_used = λ j h.
        used_still (vma_at mm j + 8) (omega arith) (omega (arith, r.vma_bound)) (r.vmas_used j h);
    vma_free =
        let z = blank_still (vma_at mm i) (omega arith) (omega (arith, r.vma_bound)) r.vma_free in
        ground (arith, r.vma_bound);
    vma_free_pa =
        let z =
          blank_still (vma_at mm i + 8) (omega arith) (omega (arith, r.vma_bound)) r.vma_free_pa in
        ground (arith, r.vma_bound);
    vma_bound = r.vma_bound;
  }

less_room : (s : Pages) (mm i k n : ℕ) → HasRoom s mm i k (suc n) → HasRoom s mm i k n
less_room s mm i k n r = record {
  taken = r.taken;
  pages_used = r.pages_used;
  pages_free = λ j p q. r.pages_free j p (omega arith);
  pages_bound = omega (arith, r.pages_bound);
  vmas_used = r.vmas_used;
  vma_free = r.vma_free;
  vma_free_pa = r.vma_free_pa;
  vma_bound = r.vma_bound;
}

-- Where the entry is empty.
grow_new :
    (mm : ℕ) (s t : Pages) (addr sh : ℕ) (shs : List ℕ) (slot i k n f : ℕ)
    → HasRoom s mm i k (suc n)
    → IsTaken s slot
    → IsOutside mm slot
    → Filled s slot f (page_entry f mm_type_page_table) t
    → Grown mm s addr sh shs slot i (k + 1) n (recorded t mm k f)
grow_new mm s t addr sh shs slot i k n f r h o d =
    let e = page_entry f mm_type_page_table in
    let u = recorded t mm k f in
    let (table, next, taken, blank) = Filled-next s t slot f addr sh d in
    let keeps = recorded-Keeps mm s t slot i k n f e r d o in
    let same : u.mem slot ≡ t.mem slot = ground (arith, o, r.pages_bound) in
    let there : next_slot u.mem slot addr sh ≡ slot_of (page_va f) addr sh =
      ap (λ (w : ℕ). slot_of (va_of (entry_addr w)) addr sh) same ∙ next in
    let beside =
      new-IsOutside s mm i k (suc n) f (slot_of (page_va f) addr sh) r d.below d.fresh (omega arith)
        (omega arith) in
    record {
      table = ap is_table same ∙ table;
      rest =
          subst (λ (p : ℕ). IsOpenBeside mm u addr shs p) (sym there)
            (beside_empty mm u addr shs (slot_of (page_va f) addr sh) taken beside (
              beside_recorded mm t.mem (slot_of (page_va f) addr sh) k (page_va f) beside
                (omega (arith, r.pages_bound)) blank));
      keeps = keeps;
      free = omega (arith, d.free);
      room = recorded-HasRoom mm s t slot i k n f e r d o;
    }

-- One level of `alloc_user_page`.
pub ensure_page-Grown :
    (mm : ℕ) (s : Pages) (addr sh : ℕ) (shs : List ℕ) (slot i k n : ℕ)
    → HasRoom s mm i k (suc n)
    → IsOpenBeside mm s addr (sh ∷ shs) slot
    → 0 < free_pages s
    → (r : Option ℕ) × (t : Pages) × (k' : ℕ) × (u : Pages) × (ensure_page slot mm_type_page_table s
        ≡ ok (r, t))
      × (record_page mm k r t ≡ ok (k', u))
      × Grown mm s addr sh shs slot i k' n u
unfolding record_page store
ensure_page-Grown mm s addr sh shs slot i k n r (h, inl (o, z)) f =
    let (p, t, run, d) = ensure_page-Filled s slot mm_type_page_table h z f in
    (
      some (page_va p),
      t,
      k + 1,
      recorded t mm k p,
      run,
      rw (lt→ltb k max_pgtbl_pages (omega (arith, r.pages_bound))),
      grow_new mm s t addr sh shs slot i k n p r h o d,
    )
ensure_page-Grown mm s addr sh shs slot i k n r (h, inr (b, rest)) f = (
  none,
  s,
  k,
  s,
  ensure_page-present s slot mm_type_page_table (table_ne (s.mem slot) b),
  refl,
  record {
    table = b;
    rest = rest;
    keeps = Keeps-refl s;
    free = omega arith;
    room = less_room s mm i k n r;
  },
)
