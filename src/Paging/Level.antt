-- ===== src/Paging/Level.antt =====
-- One level of the page tables: an empty entry gets a new table.
use Prim.Native.Nat.{bit_or}
use nbos.Base.{
  false, ◌==◌, ◌%◌, ◌-◌, ◌≢◌, ℕ, ◌+◌, ◌*◌, ◌/◌, ◌^◌, ◌<◌, ◌≤◌, ◌≡◌, sym, ◌∙◌, ap, subst, arith,
  true, ==_refl, ==_ne, List, ◌∷◌, Option, none, some, inl, inr, ok,
}
use nbos.Base.Bits.{bit_or-apart}
use nbos.Page.{Pages, va_of, pa_of, page_size, low_mem, load, store, paging_pages, update}
use nbos.Page.Address.{page_va}
use nbos.Page.Alloc.{Got, get_free_page-Got}
use nbos.Page.Free.{IsTaken, free_pages, free_below-ex, free_below-update, Got-IsTaken, Got-new}
use nbos.Paging.{mm_type_page_table, entry_addr, ensure_page}
use nbos.Paging.Walk.{
  is_table, next_slot, slot_of, IsOpen, IsOpen-empty, table_ne, Keeps, Keeps-refl, Keeps-trans,
  Keeps-store,
}

Got-Keeps : (s t : Pages) (i : ℕ) → Got s t i → Keeps s t
Got-Keeps s t i g = record {
  busy = λ j z. ground (arith, g.counts, g.was_free);
  taken = λ a h. Got-IsTaken s t i a g h;
  words = λ a h n.
      let away = h i g.below g.was_free in ap (λ (m : ℕ → ℕ). m a) g.mem ∙ ground (arith, away);
}

Got-free : (s t : Pages) (i : ℕ) → Got s t i → free_pages t + 1 ≡ free_pages s
Got-free s t i g = omega (
  arith,
  free_below-update paging_pages i s.count g.below g.was_free,
  ap (λ (c : ℕ → ℕ). free_pages (record t { count = c })) g.counts,
)

-- The entry for page `i`.
abbrev pub page_entry : (i flags : ℕ) → ℕ
page_entry i flags = bit_or (pa_of (page_va i)) flags

pub page_entry_lem :
    (i flags : ℕ)
    → i < paging_pages
    → flags < page_size
    → (entry_addr (page_entry i flags) ≡ pa_of (page_va i))
      × (va_of (entry_addr (page_entry i flags)) ≡ page_va i)
      × (page_entry i flags % 4 ≡ flags % 4)
page_entry_lem i flags h l = rw sum (omega arith)
  where
    sum : page_entry i flags ≡ (low_mem / page_size + i) * 2 ^ 12 + flags
    sum =
        ap (λ (p : ℕ). bit_or p flags) {x = pa_of (page_va i)}
          {y = (low_mem / page_size + i) * 2 ^ 12} (omega arith)
        ∙ bit_or-apart 12 (low_mem / page_size + i) flags (omega arith)

-- From `s` to `u` the free page `i` was taken and cleared, and the entry `e`, in no free page, was
-- stored at `slot`, where zero stood.
pub record Filled (s : Pages) (slot i e : ℕ) (u : Pages) : Type 0 where
  pub below : i < paging_pages
  pub fresh : s.count i ≡ 0
  pub entry : u.mem slot ≡ e
  pub blank : (a : ℕ) → page_va i ≤ a → a < page_va i + page_size → u.mem a ≡ 0
  pub inside : (a : ℕ) → page_va i ≤ a → a < page_va i + page_size → IsTaken u a
  pub zeros : (a : ℕ) → s.mem a ≡ 0 → (a == slot) ≡ false → u.mem a ≡ 0
  pub keeps : Keeps s u
  pub free : free_pages u + 1 ≡ free_pages s

Got-Filled :
    (s t : Pages) (i slot e : ℕ)
    → Got s t i
    → IsTaken s slot
    → s.mem slot ≡ 0
    → Filled s slot i e (record t { mem = update t.mem slot e })
Got-Filled s t i slot e g h z =
    let away = h i g.below g.was_free in
    let same = λ (a : ℕ). ap (λ (m : ℕ → ℕ). update m slot e a) g.mem in
    record {
      below = g.below;
      fresh = g.was_free;
      entry = rw (==_refl slot);
      blank = λ a p q. same a ∙ ground (arith, away);
      inside = λ a p q.
          subst (IsTaken t) {x = page_va i + (a - page_va i)} {y = a} (omega arith)
            (Got-new s t i (a - page_va i) g (omega arith));
      zeros = λ a p q. same a ∙ ground arith;
      keeps =
          Keeps-trans s t _ (Got-Keeps s t i g)
            (Keeps-store t slot e (ap (λ (m : ℕ → ℕ). m slot) g.mem ∙ ground (arith, away)));
      free = Got-free s t i g;
    }

pub ensure_page-Filled :
    (s : Pages) (slot flags : ℕ)
    → IsTaken s slot
    → s.mem slot ≡ 0
    → 0 < free_pages s
    → (i : ℕ) × (u : Pages) × (ensure_page slot flags s ≡ ok (some (page_va i), u))
      × Filled s slot i (page_entry i flags) u
unfolding ensure_page load store
ensure_page-Filled s slot flags h z f =
    let (j, l, e) = free_below-ex paging_pages s.count f in
    let (i, t, run, g) = get_free_page-Got s j l e in
    (
      i,
      record t { mem = update t.mem slot (page_entry i flags) },
      rw (z, run),
      Got-Filled s t i slot (page_entry i flags) g h z,
    )

pub ensure_page-present :
    (s : Pages) (slot flags : ℕ) → s.mem slot ≢ 0 → ensure_page slot flags s ≡ ok (none, s)
unfolding ensure_page load
ensure_page-present s slot flags n = rw (==_ne (s.mem slot) 0 n)

-- The next level starts in the new page.
pub Filled-next :
    (s u : Pages) (slot i addr sh : ℕ)
    → Filled s slot i (page_entry i mm_type_page_table) u
    → (is_table (u.mem slot) ≡ true)
      × (next_slot u.mem slot addr sh ≡ slot_of (page_va i) addr sh)
      × IsTaken u (slot_of (page_va i) addr sh)
      × (u.mem (slot_of (page_va i) addr sh) ≡ 0)
Filled-next s u slot i addr sh f =
    let (_, va, rest) = page_entry_lem i mm_type_page_table f.below (omega arith) in
    (
      rw f.entry (ground (arith, rest)),
      ap (λ (e : ℕ). slot_of (va_of (entry_addr e)) addr sh) f.entry
          ∙ ap (λ (p : ℕ). slot_of p addr sh) va,
      f.inside (slot_of (page_va i) addr sh) (omega arith) (omega arith),
      f.blank (slot_of (page_va i) addr sh) (omega arith) (omega arith),
    )

-- One level of a way that is open: the code goes on to the entry of the next level, through a table
-- that is there now, with at most one free page less.
pub record Descended (s : Pages) (addr sh : ℕ) (shs : List ℕ) (slot : ℕ) (t : Pages) : Type 0 where
  pub table : is_table (t.mem slot) ≡ true
  pub rest : IsOpen t addr shs (next_slot t.mem slot addr sh)
  pub keeps : Keeps s t
  pub free : free_pages s ≤ free_pages t + 1

pub ensure_page-Descended :
    (s : Pages) (addr sh : ℕ) (shs : List ℕ) (slot : ℕ)
    → IsOpen s addr (sh ∷ shs) slot
    → 0 < free_pages s
    → (r : Option ℕ) × (t : Pages) × (ensure_page slot mm_type_page_table s ≡ ok (r, t))
      × Descended s addr sh shs slot t
ensure_page-Descended s addr sh shs slot (h, inl z) f =
    let (i, u, run, d) = ensure_page-Filled s slot mm_type_page_table h z f in
    let (table, next, taken, blank) = Filled-next s u slot i addr sh d in
    (
      some (page_va i),
      u,
      run,
      record {
        table = table;
        rest =
            subst (λ (p : ℕ). IsOpen u addr shs p) (sym next)
              (IsOpen-empty u addr shs (slot_of (page_va i) addr sh) taken blank);
        keeps = d.keeps;
        free = omega (arith, d.free);
      },
    )
ensure_page-Descended s addr sh shs slot (h, inr (b, o)) f = (
  none,
  s,
  ensure_page-present s slot mm_type_page_table (table_ne (s.mem slot) b),
  record { table = b; rest = o; keeps = Keeps-refl s; free = omega arith },
)
