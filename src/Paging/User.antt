-- ===== src/Paging/User.antt =====
-- Mapping a page of user memory, seen through the tables and in the books of the process.
use nbos.Base.{
  ℕ, ◌+◌, ◌%◌, ◌<◌, ◌≤◌, ◌≡◌, ◌≢◌, sym, ◌∙◌, ap, arith, if◌then◌else◌, List, [], ◌∷◌, Option, none,
  some, ok,
}
use nbos.Page.{Pages, va_of, pa_of, page_size, load, paging_pages}
use nbos.Page.Address.{page_va}
use nbos.Page.Free.{free_pages}
use nbos.Paging.{
  max_user_pages, max_pgtbl_pages, mm_type_page_table, mmu_pte_flags, vma_at, ensure_page,
  next_entry, record_page, free_slot, record_vma, entry_addr, alloc_user_page,
}
use nbos.Paging.Walk.{
  is_table, slot_of, next_slot, walk, IsMapped, IsMapped-walk, extend, IsWayBeside, extend_beside,
  Keeps, Keeps-IsMapped, Keeps-trans,
}
use nbos.Paging.Level.{page_entry, page_entry_lem, ensure_page-Filled}
use nbos.Paging.Books.{
  free_slot-run, entered, entered_vma, leaf-run, leaf-Keeps, leaf-IsMapped, leaf_blank,
}
use nbos.Paging.Room.{HasRoom, IsOpenBeside, ensure_page-Grown}

-- The tables of a user address behind the first one.
abbrev pub user_levels : List ℕ
user_levels = 30 ∷ 21 ∷ 12 ∷ []

-- The physical address of a page of 4096 bytes, and of `addr` in it; the last entry has 3 in its low
-- bits, too.
abbrev pub in_page_found : (addr : ℕ) → Option ℕ → Option ℕ
in_page_found addr none = none
in_page_found addr (some e) = if is_table e then some (entry_addr e + addr % page_size) else none

-- What the hardware makes of a user address under the top table at the physical address `pgd`.
abbrev pub user_translate : (mem : ℕ → ℕ) → (pgd addr : ℕ) → Option ℕ
user_translate mem pgd addr =
    in_page_found addr (walk mem addr user_levels (slot_of (va_of pgd) addr 39))

user-run :
    (s t₁ u₁ t₂ u₂ t₃ u₃ t₄ v : Pages) (q₁ q₂ q₃ q₄ : Option ℕ) (k k₁ k₂ k₃ mm addr : ℕ)
    → free_slot max_pgtbl_pages 0 mm s ≡ ok (k, s)
    → let a₁ = slot_of (va_of (s.mem mm)) addr 39 in
      let a₂ = next_slot u₁.mem a₁ addr 30 in
      let a₃ = next_slot u₂.mem a₂ addr 21 in
      let a₄ = next_slot u₃.mem a₃ addr 12 in
      ensure_page a₁ mm_type_page_table s ≡ ok (q₁, t₁)
      → record_page mm k q₁ t₁ ≡ ok (k₁, u₁)
      → ensure_page a₂ mm_type_page_table u₁ ≡ ok (q₂, t₂)
      → record_page mm k₁ q₂ t₂ ≡ ok (k₂, u₂)
      → ensure_page a₃ mm_type_page_table u₂ ≡ ok (q₃, t₃)
      → record_page mm k₂ q₃ t₃ ≡ ok (k₃, u₃)
      → ensure_page a₄ mmu_pte_flags u₃ ≡ ok (q₄, t₄)
      → record_vma max_user_pages 0 mm addr a₄ t₄ ≡ ok (tt, v)
      → alloc_user_page addr mm s ≡ ok (tt, v)
unfolding alloc_user_page next_entry load
user-run s t₁ u₁ t₂ u₂ t₃ u₃ t₄ v q₁ q₂ q₃ q₄ k k₁ k₂ k₃ mm addr f e₁ r₁ e₂ r₂ e₃ r₃ e₄ r₄ =
    rw (f, e₁, r₁, e₂, r₂, e₃, r₃, e₄, r₄)

-- `t` is `s` with a page for `addr`: page `f` was free, and holds only zeros; the hardware finds it at
-- the address, and the process has it in its books.
pub record UserPage (s : Pages) (mm i addr f : ℕ) (t : Pages) : Type 0 where
  pub below : f < paging_pages
  pub fresh : s.count f ≡ 0
  pub blank : (a : ℕ) → page_va f ≤ a → a < page_va f + page_size → t.mem a ≡ 0
  pub found : user_translate t.mem (s.mem mm) addr ≡ some (pa_of (page_va f) + addr % page_size)
  pub vma : t.mem (vma_at mm i) ≡ addr
  pub vma_pa : t.mem (vma_at mm i + 8) ≡ pa_of (page_va f)
  pub others :
      (other e : ℕ)
      → IsMapped s other user_levels (slot_of (va_of (s.mem mm)) other 39) e
      → user_translate t.mem (s.mem mm) other ≡ user_translate s.mem (s.mem mm) other
  pub keeps : Keeps s t
  pub way :
      IsMapped t addr user_levels (slot_of (va_of (s.mem mm)) addr 39) (page_entry f mmu_pte_flags)
  pub beside : IsWayBeside t.mem (page_va f) addr user_levels (slot_of (va_of (s.mem mm)) addr 39)

if_table :
    (e p addr : ℕ)
    → e % 4 ≡ 3
    → entry_addr e ≡ p
    → in_page_found addr (some e) ≡ some (p + addr % page_size)
if_table e p addr h q = ground arith

entry_ne : (f : ℕ) → f < paging_pages → page_entry f mmu_pte_flags ≢ 0
entry_ne f h z =
    let (_, _, low) = page_entry_lem f mmu_pte_flags h (omega arith) in
    absurd (omega (arith, low, ap (λ (e : ℕ). e % 4) z))

pub in_page_entry :
    (f addr : ℕ)
    → f < paging_pages
    → in_page_found addr (some (page_entry f mmu_pte_flags))
      ≡ some (pa_of (page_va f) + addr % page_size)
in_page_entry f addr h =
    let (pa, _, low) = page_entry_lem f mmu_pte_flags h (omega arith) in
    if_table (page_entry f mmu_pte_flags) (pa_of (page_va f)) addr low pa

-- `alloc_user_page`, for an address that is not mapped yet, given four free pages, three unused slots
-- and an unused `vma` entry, and tables and a `struct mm_struct` that lie in no free page and apart
-- from one another where the tables are still empty, returns. The hardware then finds at the address
-- a page that was free and holds only zeros, the process has it in its next `vma` entry, and what the
-- hardware found at every address that was mapped, it still finds.
pub alloc_user_page-UserPage :
    (s : Pages) (mm i k addr : ℕ)
    → HasRoom s mm i k 3
    → IsOpenBeside mm s addr user_levels (slot_of (va_of (s.mem mm)) addr 39)
    → 4 ≤ free_pages s
    → (f : ℕ) × (t : Pages) × (alloc_user_page addr mm s ≡ ok (tt, t)) × UserPage s mm i addr f t
alloc_user_page-UserPage s mm i k addr r w free =
    let a₁ = slot_of (va_of (s.mem mm)) addr 39 in
    let search =
      free_slot-run k max_pgtbl_pages 0 k mm s (omega arith) (omega (arith, r.pages_bound))
        r.pages_used (r.pages_free k (omega arith) (omega arith)) in
    let (q₁, t₁, k₁, u₁, e₁, r₁, g₁) =
      ensure_page-Grown mm s addr 30 (21 ∷ 12 ∷ []) a₁ i k 2 r w (omega arith) in
    let a₂ = next_slot u₁.mem a₁ addr 30 in
    let (q₂, t₂, k₂, u₂, e₂, r₂, g₂) =
      ensure_page-Grown mm u₁ addr 21 (12 ∷ []) a₂ i k₁ 1 g₁.room g₁.rest
        (omega (arith, g₁.free)) in
    let a₃ = next_slot u₂.mem a₂ addr 21 in
    let (q₃, t₃, k₃, u₃, e₃, r₃, g₃) =
      ensure_page-Grown mm u₂ addr 12 [] a₃ i k₂ 0 g₂.room g₂.rest
        (omega (arith, g₁.free, g₂.free)) in
    let a₄ = next_slot u₃.mem a₃ addr 12 in
    let (h, o, z) = g₃.rest in
    let (f, t₄, e₄, d) =
      ensure_page-Filled u₃ a₄ mmu_pte_flags h z (omega (arith, g₁.free, g₂.free, g₃.free)) in
    let e = page_entry f mmu_pte_flags in
    let v = entered t₄ mm i addr e in
    let ne : e ≢ 0 = entry_ne f d.below in
    let since₃ =
      Keeps-trans u₃ t₄ v d.keeps (leaf-Keeps u₃ t₄ mm i k₃ 0 addr a₄ f e g₃.room h o ne d) in
    let since₂ = Keeps-trans u₂ u₃ v g₃.keeps since₃ in
    let since₁ = Keeps-trans u₁ u₂ v g₂.keeps since₂ in
    let since = Keeps-trans s u₁ v g₁.keeps since₁ in
    let since_u₁ = Keeps-trans u₁ u₂ u₃ g₂.keeps g₃.keeps in
    let leaf = leaf-IsMapped u₃ t₄ mm i k₃ 0 addr a₄ f e g₃.room h o ne d in
    let m₃ = extend u₃ v addr 12 [] a₃ e since₃ (g₃.keeps.taken a₃ g₂.rest.0) g₃.table leaf in
    let m₂ = extend u₂ v addr 21 (12 ∷ []) a₂ e since₂ (g₂.keeps.taken a₂ g₁.rest.0) g₂.table m₃ in
    let m₁ = extend u₁ v addr 30 (21 ∷ 12 ∷ []) a₁ e since₁ (g₁.keeps.taken a₁ w.0) g₁.table m₂ in
    (
      f,
      v,
      user-run s t₁ u₁ t₂ u₂ t₃ u₃ t₄ v q₁ q₂ q₃ (some (page_va f)) k k₁ k₂ k₃ mm addr search e₁ r₁
          e₂ r₂ e₃ r₃ e₄ (leaf-run u₃ t₄ mm i k₃ 0 addr a₄ f e g₃.room h o ne d),
      record {
        below = d.below;
        fresh = g₁.keeps.busy f (g₂.keeps.busy f (g₃.keeps.busy f d.fresh));
        blank = leaf_blank u₃ t₄ mm i k₃ 0 addr a₄ f e g₃.room h o ne d;
        found =
            ap (in_page_found addr) (IsMapped-walk v addr user_levels a₁ e m₁)
            ∙ in_page_entry f addr d.below;
        vma = (entered_vma t₄ mm i addr e).0;
        vma_pa =
            (entered_vma t₄ mm i addr e).1
            ∙ (page_entry_lem f mmu_pte_flags d.below (omega arith)).0;
        others = λ other e' m. ap (in_page_found other) (
            IsMapped-walk v other user_levels _ e'
              (Keeps-IsMapped s v other user_levels _ e' since m)
            ∙ sym (IsMapped-walk s other user_levels _ e' m));
        keeps = since;
        way = m₁;
        beside =
            extend_beside u₁ v (page_va f) addr 30 (21 ∷ 12 ∷ []) a₁ since₁ (g₁.keeps.taken a₁ w.0)
              g₁.table (since_u₁.taken a₁ (g₁.keeps.taken a₁ w.0) f d.below d.fresh)
              (extend_beside u₂ v (page_va f) addr 21 (12 ∷ []) a₂ since₂
                (g₂.keeps.taken a₂ g₁.rest.0) g₂.table
                (g₃.keeps.taken a₂ (g₂.keeps.taken a₂ g₁.rest.0) f d.below d.fresh)
                (extend_beside u₃ v (page_va f) addr 12 [] a₃ since₃ (g₃.keeps.taken a₃ g₂.rest.0)
                  g₃.table (g₃.keeps.taken a₃ g₂.rest.0 f d.below d.fresh) (h f d.below d.fresh)));
      },
    )
