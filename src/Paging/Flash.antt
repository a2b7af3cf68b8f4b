-- ===== src/Paging/Flash.antt =====
-- The mapping of the flash chip: consecutive sections that one new table holds.
use nbos.Base.{
  ℕ, zero, suc, ◌+◌, ◌*◌, ◌/◌, ◌^◌, ◌<◌, ◌≤◌, ◌≡◌, refl, sym, ◌∙◌, ap, subst, arith, true, ◌==◌,
  ==_refl, ==→eq, if◌then◌else◌, List, [], ◌∷◌, ◌++◌, none, some, inl, inr, ◌⊎◌, ok, Bool-cases,
  ltb, pure,
}
use nbos.Console.{Line, printf}
use nbos.Page.{Pages, pa_of, high_mem, va_of, page_size, update}
use nbos.Page.Address.{page_va}
use nbos.Page.Free.{IsTaken, free_pages}
use nbos.Paging.{
  map_kernel_sections, section_shift, mm_type_page_table, map_kernel_section, map_from, entry_addr,
  pflash1_pa_base, pflash1_base, pflash1_size, mmu_device_flags, init_mm,
}
use nbos.Paging.Walk.{
  is_table, table_ne, in_block, in_block_found, slot_of, next_slot, translate, walk, IsMapped,
  IsMapped-walk, Keeps, Keeps-refl, Keeps-trans, Keeps-store, Keeps-IsMapped,
}
use nbos.Paging.Level.{Filled-next, ensure_page-Filled, ensure_page-present}
use nbos.Paging.Section.{levels, section_entry, section_entry-in_block, section-run}

abbrev sections : ℕ
sections = 32

-- Section `j`: its address, and the entry for it.
abbrev section_addr : ℕ → ℕ
section_addr j = pflash1_base + j * 2 ^ section_shift

abbrev flash_entry : ℕ → ℕ
flash_entry j = section_entry (pflash1_pa_base + j * 2 ^ section_shift) mmu_device_flags

-- The memory with the first `i` entries of the table at `table` filled.
filled : (mem : ℕ → ℕ) → (table i : ℕ) → ℕ → ℕ
filled mem table zero = mem
filled mem table (suc i) = update (filled mem table i) (table + i * 8) (flash_entry i)

filled_next :
    (mem : ℕ → ℕ) (table i : ℕ)
    → filled mem table (i + 1) ≡ update (filled mem table i) (table + i * 8) (flash_entry i)
unfolding filled
filled_next mem table i = ap (filled mem table) {x = i + 1} {y = suc i} (omega arith)

filled_first :
    (mem : ℕ → ℕ) (table : ℕ) → filled mem table 1 ≡ update mem (table + 0 * 8) (flash_entry 0)
unfolding filled
filled_first mem table = refl

filled_there :
    (mem : ℕ → ℕ) (table i j : ℕ) → j < i → filled mem table i (table + j * 8) ≡ flash_entry j
unfolding filled
filled_there mem table zero j h = absurd (omega arith)
filled_there mem table (suc i) j h = elim (Bool-cases (j == i)) [
  | inl e ↦ rw (==→eq j i e, ==_refl (table + i * 8))
  | inr e ↦ ground (arith, filled_there mem table i j)
]

filled_beside :
    (mem : ℕ → ℕ) (table i a : ℕ) → (a < table) ⊎ (table + i * 8 ≤ a) → filled mem table i a ≡ mem a
unfolding filled
filled_beside mem table zero a o = refl
filled_beside mem table (suc i) a (inl o) = ground (arith, filled_beside mem table i a (inl o))
filled_beside mem table (suc i) a (inr o) =
    ground (arith, filled_beside mem table i a (inr (omega arith)))

-- All sections lie in the same entries of the upper tables.
section_slots :
    (table x : ℕ)
    → x < pflash1_size
    → (slot_of table (pflash1_base + x) 39 ≡ slot_of table pflash1_base 39)
      × (slot_of table (pflash1_base + x) 30 ≡ slot_of table pflash1_base 30)
      × (slot_of table (pflash1_base + x) 21 ≡ table + x / 2 ^ 21 * 8)
section_slots table x h = (omega (arith, h), omega (arith, h), omega (arith, h))

-- The entry that the code reaches for section `j`, from the upper tables in `mem`.
section_last :
    (mem mem' : ℕ → ℕ) (pgd table j : ℕ)
    → j < sections
    → va_of (entry_addr (mem' (next_slot mem (slot_of pgd pflash1_base 39) pflash1_base 30)))
      ≡ table
    → (slot_of pgd (section_addr j) 39 ≡ slot_of pgd pflash1_base 39)
      × (next_slot mem (slot_of pgd (section_addr j) 39) (section_addr j) 30
          ≡ next_slot mem (slot_of pgd pflash1_base 39) pflash1_base 30)
      × (next_slot mem'
            (next_slot mem (slot_of pgd (section_addr j) 39) (section_addr j) 30)
            (section_addr j)
            21
          ≡ table + j * 8)
section_last mem mem' pgd table j h e =
    let top = slot_of pgd pflash1_base 39 in
    let at = λ (p : ℕ). section_slots p (j * 2 ^ section_shift) (omega (arith, h)) in
    let first = (at pgd).0 in
    let second =
      ap (λ (p : ℕ). next_slot mem p (section_addr j) 30) first
      ∙ (at (va_of (entry_addr (mem top)))).1 in
    let third =
      ap (λ (p : ℕ). next_slot mem' p (section_addr j) 21) second
      ∙ ap (λ (p : ℕ). slot_of p (section_addr j) 21) e
      ∙ (at table).2
      ∙ omega arith in
    (first, second, third)

-- A section whose tables are there.
next_section :
    (u : Pages) (pgd table j : ℕ)
    → let top = slot_of pgd pflash1_base 39 in
      let mid = next_slot u.mem top pflash1_base 30 in
      j < sections
      → is_table (u.mem top) ≡ true
      → is_table (u.mem mid) ≡ true
      → va_of (entry_addr (u.mem mid)) ≡ table
      → u.mem (table + j * 8) ≡ 0
      → map_kernel_section pgd
          (pflash1_pa_base + j * 2 ^ section_shift)
          (section_addr j)
          mmu_device_flags
          u
        ≡ ok (tt, record u { mem = update u.mem (table + j * 8) (flash_entry j) })
next_section u pgd table j h a b e z =
    let (first, second, third) = section_last u.mem u.mem pgd table j h e in
    section-run u u u none none pgd (pflash1_pa_base + j * 2 ^ section_shift) (section_addr j)
      mmu_device_flags (inr refl)
      (ensure_page-present u (slot_of pgd (section_addr j) 39) mm_type_page_table
        (λ n. table_ne _ a (ap u.mem (sym first) ∙ n)))
      (ensure_page-present u (next_slot u.mem (slot_of pgd (section_addr j) 39) (section_addr j) 30)
        mm_type_page_table (λ n. table_ne _ b (ap u.mem (sym second) ∙ n)))
      (ap u.mem third ∙ z)
    ∙ ap (λ (p : ℕ). ok (tt, record u { mem = update u.mem p (flash_entry j) })) third

walk-run :
    (mem : ℕ → ℕ) (addr slot : ℕ)
    → is_table (mem slot) ≡ true
    → is_table (mem (next_slot mem slot addr 30)) ≡ true
    → walk mem addr levels slot ≡ some (mem (next_slot mem (next_slot mem slot addr 30) addr 21))
unfolding walk
walk-run mem addr slot a b = rw (a, b)

-- The tables of the flash chip are there, with the lower one in page `f`, and all entries of that
-- are empty.
record Prepared (u : Pages) (pgd f : ℕ) : Type 0 where
  top : is_table (u.mem (slot_of pgd pflash1_base 39)) ≡ true
  mid : is_table (u.mem (next_slot u.mem (slot_of pgd pflash1_base 39) pflash1_base 30)) ≡ true
  table :
      va_of (entry_addr (u.mem (next_slot u.mem (slot_of pgd pflash1_base 39) pflash1_base 30)))
      ≡ page_va f
  top_beside :
      (slot_of pgd pflash1_base 39 < page_va f)
      ⊎ (page_va f + page_size ≤ slot_of pgd pflash1_base 39)
  mid_beside :
      (next_slot u.mem (slot_of pgd pflash1_base 39) pflash1_base 30 < page_va f)
      ⊎ (page_va f + page_size ≤ next_slot u.mem (slot_of pgd pflash1_base 39) pflash1_base 30)
  blank : (j : ℕ) → j < sections → u.mem (page_va f + j * 8) ≡ 0

module _ (u : Pages) (pgd f : ℕ) (p : Prepared u pgd f) where
  abbrev state : ℕ → Pages
  state i = record u { mem = filled u.mem (page_va f) i }

  beside :
      (i a : ℕ)
      → i ≤ sections
      → (a < page_va f) ⊎ (page_va f + page_size ≤ a)
      → (state i).mem a ≡ u.mem a
  beside i a h (inl o) = filled_beside u.mem (page_va f) i a (inl o)
  beside i a h (inr o) = filled_beside u.mem (page_va f) i a (inr (omega arith))

  -- The upper tables are as they were.
  top_same :
      (i : ℕ)
      → i ≤ sections
      → (state i).mem (slot_of pgd pflash1_base 39) ≡ u.mem (slot_of pgd pflash1_base 39)
  top_same i h = beside i (slot_of pgd pflash1_base 39) h p.top_beside

  mid_slot_same :
      (i : ℕ)
      → i ≤ sections
      → next_slot (state i).mem (slot_of pgd pflash1_base 39) pflash1_base 30
        ≡ next_slot u.mem (slot_of pgd pflash1_base 39) pflash1_base 30
  mid_slot_same i h = ap (λ (e : ℕ). slot_of (va_of (entry_addr e)) pflash1_base 30) (top_same i h)

  mid_same :
      (i : ℕ)
      → i ≤ sections
      → (state i).mem (next_slot (state i).mem (slot_of pgd pflash1_base 39) pflash1_base 30)
        ≡ u.mem (next_slot u.mem (slot_of pgd pflash1_base 39) pflash1_base 30)
  mid_same i h = ap (state i).mem (mid_slot_same i h) ∙ beside i _ h p.mid_beside

  sections-run :
      (n i : ℕ)
      → i + n ≡ sections
      → map_from n i pgd pflash1_pa_base pflash1_base mmu_device_flags (state i)
        ≡ ok (tt, state sections)
  unfolding map_from
  sections-run zero i e = ap (λ (k : ℕ). ok (tt, state k)) (omega (arith, e))
  sections-run (suc n) i e =
      let h : i < sections = omega (arith, e) in
      let step =
        next_section (state i) pgd (page_va f) i h (ap is_table (top_same i (omega arith)) ∙ p.top)
          (ap is_table (mid_same i (omega arith)) ∙ p.mid)
          (ap (λ (w : ℕ). va_of (entry_addr w)) (mid_same i (omega arith)) ∙ p.table)
          (filled_beside u.mem (page_va f) i (page_va f + i * 8) (inr (omega arith))
            ∙ p.blank i h) in
      rw step (
        ap
          (λ (m : ℕ → ℕ).
            map_from n (i + 1) pgd pflash1_pa_base pflash1_base mmu_device_flags
              (record u { mem = m }))
          (sym (filled_next u.mem (page_va f) i))
        ∙ sections-run n (i + 1) (omega (arith, e)))

  sections-Keeps : (i : ℕ) → i ≤ sections → Keeps u (state i)
  unfolding filled
  sections-Keeps zero h = Keeps-refl u
  sections-Keeps (suc i) h =
      Keeps-trans u (state i) (state (suc i)) (sections-Keeps i (omega (arith, h))) (
        Keeps-store (state i) (page_va f + i * 8) (flash_entry i) (
          filled_beside u.mem (page_va f) i (page_va f + i * 8) (inr (omega arith))
          ∙ p.blank i (omega (arith, h))))

  -- What the hardware finds in the end.
  sections-translate :
      (x : ℕ)
      → x < pflash1_size
      → translate (state sections).mem pgd (pflash1_base + x) ≡ some (pflash1_pa_base + x)
  sections-translate x h =
      let mem = (state sections).mem in
      let addr = pflash1_base + x in
      let top = slot_of pgd pflash1_base 39 in
      let j = x / 2 ^ section_shift in
      let at = λ (q : ℕ). section_slots q x h in
      let l : sections ≤ sections = omega arith in
      let second : next_slot mem top addr 30 ≡ next_slot mem top pflash1_base 30 =
        (at (va_of (entry_addr (mem top)))).1 in
      let third : next_slot mem (next_slot mem top addr 30) addr 21 ≡ page_va f + j * 8 =
        ap (λ (q : ℕ). next_slot mem q addr 21) second
        ∙ ap (λ (w : ℕ). slot_of (va_of (entry_addr w)) addr 21) (mid_same sections l)
        ∙ ap (λ (q : ℕ). slot_of q addr 21) p.table
        ∙ (at (page_va f)).2 in
      ap (λ (q : ℕ). in_block_found addr (walk mem addr levels q)) (at pgd).0
      ∙ ap (in_block_found addr) (
          walk-run mem addr top (ap is_table (top_same sections l) ∙ p.top)
            (ap (λ (q : ℕ). is_table (mem q)) second ∙ ap is_table (mid_same sections l) ∙ p.mid))
      ∙ ap (λ (q : ℕ). in_block addr (mem q)) third
      ∙ ap (in_block addr) (filled_there u.mem (page_va f) sections j (omega (arith, h)))
      ∙ (section_entry-in_block (pflash1_pa_base + j * 2 ^ section_shift) mmu_device_flags addr
          (inr refl)).0
      ∙ ap some (omega (arith, h))

-- The first section allocates the table of all of them.
first-run :
    (s : Pages) (pgd : ℕ)
    → let top = slot_of pgd pflash1_base 39 in
      let mid = next_slot s.mem top pflash1_base 30 in
      IsTaken s top
      → is_table (s.mem top) ≡ true
      → IsTaken s mid
      → s.mem mid ≡ 0
      → 0 < free_pages s
      → (f : ℕ) × (u : Pages) × Prepared u pgd f
        × Keeps s u
        × (map_kernel_section pgd pflash1_pa_base pflash1_base mmu_device_flags s
            ≡ ok (tt, record u { mem = filled u.mem (page_va f) 1 }))
first-run s pgd a b c z free =
    let top = slot_of pgd pflash1_base 39 in
    let mid = next_slot s.mem top pflash1_base 30 in
    let (f, u, run, d) = ensure_page-Filled s mid mm_type_page_table c z free in
    let (table, next, taken, blank) = Filled-next s u mid f pflash1_base 21 d in
    let kept : u.mem top ≡ s.mem top = d.keeps.words top a (table_ne (s.mem top) b) in
    let same : next_slot u.mem top pflash1_base 30 ≡ mid =
      ap (λ (e : ℕ). slot_of (va_of (entry_addr e)) pflash1_base 30) kept in
    let at_f : va_of (entry_addr (u.mem mid)) ≡ page_va f = omega (arith, next) in
    let prepared : Prepared u pgd f = record {
      top = ap is_table kept ∙ b;
      mid = ap (λ (q : ℕ). is_table (u.mem q)) same ∙ table;
      table = ap (λ (q : ℕ). va_of (entry_addr (u.mem q))) same ∙ at_f;
      top_beside = a f d.below d.fresh;
      mid_beside =
          subst (λ (q : ℕ). (q < page_va f) ⊎ (page_va f + page_size ≤ q)) (sym same)
            (c f d.below d.fresh);
      blank = λ j h. d.blank (page_va f + j * 8) (omega arith) (omega (arith, h));
    } in
    let last : next_slot u.mem mid pflash1_base 21 ≡ page_va f + 0 * 8 = next ∙ omega arith in
    (
      f,
      u,
      prepared,
      d.keeps,
      section-run s s u none (some (page_va f)) pgd pflash1_pa_base pflash1_base mmu_device_flags
            (inr refl) (ensure_page-present s top mm_type_page_table (table_ne (s.mem top) b)) run
            (ap u.mem last ∙ prepared.blank 0 (omega arith))
          ∙ ap (λ (q : ℕ). ok (tt, record u { mem = update u.mem q (flash_entry 0) })) last
          ∙ ap (λ (m : ℕ → ℕ). ok (tt, record u { mem = m }))
              (sym (filled_first u.mem (page_va f))),
    )

large_image :
    (out : List Line) (img_end : ℕ) (t : Pages)
    → (out' : List Line) × ((if ltb high_mem (pa_of img_end)
            then printf "image is too large\n" []
            else pure tt)
          (out, t)
        ≡ ok (tt, (out', t)))
      × (pa_of img_end ≤ high_mem → out' ≡ out)
large_image out img_end t = elim (Bool-cases (ltb high_mem (pa_of img_end))) [
  | inl e ↦ (
    out ++ record { format = "image is too large\n"; args = [] } ∷ [],
    rw e refl,
    λ h. absurd (ground (arith, h)),
  )
  | inr e ↦ (out, rw e, λ _. refl)
]

-- `init_mm`, with a table for the flash chip's gigabytes whose entry for the chip is empty, and a free
-- page, returns. The hardware then finds each byte of the chip at its address, and it finds what it
-- found before at every address that was mapped. Nothing is printed if the image fits.
pub init_mm-translate :
    (s : Pages) (out : List Line) (pgd img_end : ℕ)
    → let top = slot_of pgd pflash1_base 39 in
      let mid = next_slot s.mem top pflash1_base 30 in
      IsTaken s top
      → is_table (s.mem top) ≡ true
      → IsTaken s mid
      → s.mem mid ≡ 0
      → 0 < free_pages s
      → (out' : List Line) × (t : Pages) × (init_mm pgd img_end (out, s) ≡ ok (tt, (out', t)))
        × (pa_of img_end ≤ high_mem → out' ≡ out)
        × ((x : ℕ)
            → x < pflash1_size
            → translate t.mem pgd (pflash1_base + x) ≡ some (pflash1_pa_base + x))
        × ((other e : ℕ)
            → IsMapped s other levels (slot_of pgd other 39) e
            → translate t.mem pgd other ≡ translate s.mem pgd other)
unfolding init_mm map_kernel_sections map_from
init_mm-translate s out pgd img_end a b c z free =
    let (f, u, p, kept, run) = first-run s pgd a b c z free in
    let t = record u { mem = filled u.mem (page_va f) sections } in
    let k : Keeps s t = Keeps-trans s u t kept (sections-Keeps u pgd f p sections (omega arith)) in
    let mapped : map_kernel_sections pgd pflash1_pa_base pflash1_base pflash1_size mmu_device_flags
          s
        ≡ ok (tt, t) =
      rw (run, map_kernel_sections) (sections-run u pgd f p 31 1 (omega arith)) in
    let (out', end, same) = large_image out img_end t in
    (
      out',
      t,
      rw mapped end,
      same,
      sections-translate u pgd f p,
      λ other e m. ap (in_block_found other) (
          IsMapped-walk t other levels _ e (Keeps-IsMapped s t other levels _ e k m)
          ∙ sym (IsMapped-walk s other levels _ e m)),
    )
