-- ===== src/Paging/Section.antt =====
-- Mapping a section of kernel memory, seen through the tables.
use Prim.Native.Nat.{bit_or}
use nbos.Base.{
  ==_ne, ℕ, ◌+◌, ◌-◌, ◌*◌, ◌/◌, ◌%◌, ◌^◌, ◌<◌, ◌≤◌, ◌≡◌, ◌≢◌, sym, ◌∙◌, ap, arith, false, ◌==◌,
  ==_refl, not, ◌&&◌, List, [], ◌∷◌, Option, some, inl, inr, ◌⊎◌, ok,
}
use nbos.Base.Bits.{bit_or-apart}
use nbos.Page.{Pages, load, store, update}
use nbos.Page.Free.{free_pages}
use nbos.Paging.{
  section_shift, mm_type_page_table, ensure_page, next_entry, mmu_flags, mmu_device_flags,
  map_kernel_section,
}
use nbos.Paging.Walk.{
  table_ne, in_block, in_block_found, slot_of, next_slot, translate, IsOpen, IsMapped,
  IsMapped-walk, Keeps, Keeps-trans, extend, Keeps-IsMapped, Keeps-store,
}
use nbos.Paging.Level.{ensure_page-Descended}

-- The tables of a kernel address behind the first one.
abbrev pub levels : List ℕ
levels = 30 ∷ 21 ∷ []

abbrev pub section_entry : (pa flags : ℕ) → ℕ
section_entry pa flags = bit_or (pa - pa % 2 ^ section_shift) flags

abbrev pub IsSectionFlags : ℕ → Type 0
IsSectionFlags flags = (flags ≡ mmu_flags) ⊎ (flags ≡ mmu_device_flags)

section_sum :
    (pa flags : ℕ) → flags < 2 ^ 21 → section_entry pa flags ≡ pa / 2 ^ 21 * 2 ^ 21 + flags
section_sum pa flags h =
    ap (λ (p : ℕ). bit_or p flags) {x = pa - pa % 2 ^ 21} {y = pa / 2 ^ 21 * 2 ^ 21} (omega arith)
    ∙ bit_or-apart 21 (pa / 2 ^ 21) flags h

pub section_entry-in_block :
    (pa flags addr : ℕ)
    → IsSectionFlags flags
    → (in_block addr (section_entry pa flags) ≡ some (pa - pa % 2 ^ 21 + addr % 2 ^ 21))
      × (section_entry pa flags ≢ 0)
section_entry-in_block pa flags addr (inl e) =
    rw (e, section_sum pa 0x405 (omega arith)) ((ground arith, λ z. omega (arith, z)))
section_entry-in_block pa flags addr (inr e) =
    rw (e, section_sum pa 0x401 (omega arith)) ((ground arith, λ z. omega (arith, z)))

accepted :
    (flags : ℕ)
    → IsSectionFlags flags
    → not (flags == mmu_flags) && not (flags == mmu_device_flags) ≡ false
accepted flags good = ground arith

pub section-run :
    (s t u : Pages) (q r : Option ℕ) (pgd pa addr flags : ℕ)
    → IsSectionFlags flags
    → ensure_page (slot_of pgd addr 39) mm_type_page_table s ≡ ok (q, t)
    → ensure_page (next_slot t.mem (slot_of pgd addr 39) addr 30) mm_type_page_table t ≡ ok (r, u)
    → u.mem (next_slot u.mem (next_slot t.mem (slot_of pgd addr 39) addr 30) addr 21) ≡ 0
    → map_kernel_section pgd pa addr flags s
      ≡ ok (
        tt,
        record u {
          mem =
              update u.mem
                (next_slot u.mem (next_slot t.mem (slot_of pgd addr 39) addr 30) addr 21)
                (section_entry pa flags);
        },
      )
unfolding map_kernel_section next_entry load store
section-run s t u q r pgd pa addr flags good e e' z = rw (accepted flags good, e, e', z)

-- The three entries after the run.
pub map_kernel_section-IsMapped :
    (s : Pages) (pgd pa addr flags : ℕ)
    → IsSectionFlags flags
    → IsOpen s addr levels (slot_of pgd addr 39)
    → 2 ≤ free_pages s
    → (t : Pages) × (map_kernel_section pgd pa addr flags s ≡ ok (tt, t))
      × IsMapped t addr levels (slot_of pgd addr 39) (section_entry pa flags)
      × Keeps s t
map_kernel_section-IsMapped s pgd pa addr flags good o f =
    let top = slot_of pgd addr 39 in
    let e = section_entry pa flags in
    let (_, t₁, run₁, d₁) = ensure_page-Descended s addr 30 (21 ∷ []) top o (omega arith) in
    let mid = next_slot t₁.mem top addr 30 in
    let (_, t₂, run₂, d₂) =
      ensure_page-Descended t₁ addr 21 [] mid d₁.rest (omega (arith, d₁.free)) in
    let last = next_slot t₂.mem mid addr 21 in
    let (taken, zero_there) = d₂.rest in
    let t₃ = record t₂ { mem = update t₂.mem last e } in
    let stored = Keeps-store t₂ last e zero_there in
    let since = Keeps-trans t₁ t₂ t₃ d₂.keeps stored in
    let leaf : IsMapped t₃ addr [] last e =
      (taken, rw (==_refl last), (section_entry-in_block pa flags addr good).1) in
    let lower : IsMapped t₃ addr (21 ∷ []) mid e =
      extend t₂ t₃ addr 21 [] mid e stored (d₂.keeps.taken mid d₁.rest.0) d₂.table leaf in
    (
      t₃,
      section-run s t₁ t₂ _ _ pgd pa addr flags good run₁ run₂ zero_there,
      extend t₁ t₃ addr 30 (21 ∷ []) top e since (d₁.keeps.taken top o.0) d₁.table lower,
      Keeps-trans s t₁ t₃ d₁.keeps since,
    )

-- Where an address is mapped already, nothing happens.
mapped_before :
    (s : Pages) (pgd pa addr flags e : ℕ)
    → IsSectionFlags flags
    → IsMapped s addr levels (slot_of pgd addr 39) e
    → map_kernel_section pgd pa addr flags s ≡ ok (tt, s)
unfolding map_kernel_section ensure_page next_entry load store
mapped_before s pgd pa addr flags e good (_, b, (_, c, (_, m, n))) = rw (
  accepted flags good,
  ==_ne (s.mem (slot_of pgd addr 39)) 0 (table_ne _ b),
  ==_ne (s.mem (next_slot s.mem (slot_of pgd addr 39) addr 30)) 0 (table_ne _ c),
  ==_ne (s.mem (next_slot s.mem (next_slot s.mem (slot_of pgd addr 39) addr 30) addr 21)) 0
      (λ z. n (sym m ∙ z)),
)

-- `map_kernel_section`, called with one of the two sets of flags for an address that is not mapped
-- yet, given two free pages and tables that are no free pages, returns. The hardware then finds the
-- section of `pa` at the address, and it finds what it found before at every address that was mapped.
-- Another call for the same address changes nothing, whatever section it asks for.
pub map_kernel_section-translate :
    (s : Pages) (pgd pa addr flags : ℕ)
    → IsSectionFlags flags
    → IsOpen s addr levels (slot_of pgd addr 39)
    → 2 ≤ free_pages s
    → (t : Pages) × (map_kernel_section pgd pa addr flags s ≡ ok (tt, t))
      × (translate t.mem pgd addr ≡ some (pa - pa % 2 ^ 21 + addr % 2 ^ 21))
      × ((other e : ℕ)
          → IsMapped s other levels (slot_of pgd other 39) e
          → translate t.mem pgd other ≡ translate s.mem pgd other)
      × ((pa' : ℕ) → map_kernel_section pgd pa' addr flags t ≡ ok (tt, t))
map_kernel_section-translate s pgd pa addr flags good o f =
    let (t, run, m, k) = map_kernel_section-IsMapped s pgd pa addr flags good o f in
    (
      t,
      run,
      ap (in_block_found addr) (IsMapped-walk t addr levels _ _ m)
          ∙ (section_entry-in_block pa flags addr good).0,
      λ other e h. ap (in_block_found other) (
          IsMapped-walk t other levels _ e (Keeps-IsMapped s t other levels _ e k h)
          ∙ sym (IsMapped-walk s other levels _ e h)),
      λ pa'. mapped_before t pgd pa' addr flags (section_entry pa flags) good m,
    )
