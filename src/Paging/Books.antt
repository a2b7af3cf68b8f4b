-- ===== src/Paging/Books.antt =====
-- The last level of `alloc_user_page`, and what the process notes in its `struct mm_struct`.
use nbos.Base.{ℕ, zero, suc, ◌+◌, ◌<◌, ◌≤◌, ◌≡◌, ◌≢◌, sym, ◌∙◌, ap, subst, arith, ==_ne, [], ok}
use nbos.Page.{Pages, page_size, load, store, update}
use nbos.Page.Address.{page_va}
use nbos.Page.Free.{IsTaken}
use nbos.Paging.{max_user_pages, vma_at, pgtbl_page_at, free_slot, record_vma, entry_addr}
use nbos.Paging.Walk.{IsMapped, Keeps, Keeps-trans, Keeps-store}
use nbos.Paging.Level.{Filled}
use nbos.Paging.Room.{new-IsOutside, mm_size, IsOutside, HasRoom}

-- The search for a slot ends at the first unused one.
pub free_slot-run :
    (d n j k mm : ℕ) (s : Pages)
    → j + d ≡ k
    → d < n
    → ((l : ℕ) → l < k → s.mem (pgtbl_page_at mm l) ≢ 0)
    → s.mem (pgtbl_page_at mm k) ≡ 0
    → free_slot n j mm s ≡ ok (k, s)
unfolding free_slot load
free_slot-run d zero j k mm s e l u z = absurd (omega arith)
free_slot-run zero (suc n) j k mm s e l u z =
    rw (ap (λ (i : ℕ). s.mem (pgtbl_page_at mm i)) {x = j} {y = k} (omega arith) ∙ z)
      (ap (λ (i : ℕ). ok (i, s)) (omega arith))
free_slot-run (suc d) (suc n) j k mm s e l u z =
    rw (==_ne (s.mem (pgtbl_page_at mm j)) 0 (u j (omega arith)))
      (free_slot-run d n (j + 1) k mm s (omega arith) (omega arith) u z)

-- The two stores into the `vma` entry `i`, with the entry of the page at `pte`.
abbrev pub entered : Pages → (mm i addr e : ℕ) → Pages
entered s mm i addr e = record s {
  mem = update (update s.mem (vma_at mm i) addr) (vma_at mm i + 8) (entry_addr e);
}

record_vma-run :
    (d n j i mm addr pte e : ℕ) (s : Pages)
    → j + d ≡ i
    → d < n
    → ((l : ℕ) → l < i → s.mem (vma_at mm l + 8) ≢ 0)
    → s.mem (vma_at mm i + 8) ≡ 0
    → s.mem pte ≡ e
    → pte ≢ vma_at mm i
    → record_vma n j mm addr pte s ≡ ok (tt, entered s mm i addr e)
unfolding record_vma load store
record_vma-run d zero j i mm addr pte e s q l u z m o = absurd (omega arith)
record_vma-run zero (suc n) j i mm addr pte e s q l u z m o =
    subst (λ (l : ℕ). record_vma (suc n) l mm addr pte s ≡ ok (tt, entered s mm i addr e)) {x = i}
      {y = j} (omega arith) (rw (z, ==_ne pte (vma_at mm i) o, m))
record_vma-run (suc d) (suc n) j i mm addr pte e s q l u z m o =
    rw (==_ne (s.mem (vma_at mm j + 8)) 0 (u j (omega arith)))
      (record_vma-run d n (j + 1) i mm addr pte e s (omega arith) (omega arith) u z m o)

-- The last level, and the books.
pub entered_vma :
    (t : Pages) (mm i addr e : ℕ)
    → ((entered t mm i addr e).mem (vma_at mm i) ≡ addr)
      × ((entered t mm i addr e).mem (vma_at mm i + 8) ≡ entry_addr e)
entered_vma t mm i addr e = ground arith

module _ (s t : Pages) (mm i k n addr slot f e : ℕ) (r : HasRoom s mm i k n) (h : IsTaken s slot)
    (o : IsOutside mm slot) (ne : e ≢ 0) (d : Filled s slot f e t) where
  book_blank : (a : ℕ) → mm ≤ a → a < mm + mm_size → s.mem a ≡ 0 → t.mem a ≡ 0
  book_blank a p q z = d.zeros a z (ground (arith, o))

  vma_blank : (t.mem (vma_at mm i) ≡ 0) × (t.mem (vma_at mm i + 8) ≡ 0)
  vma_blank = (
    book_blank (vma_at mm i) (omega arith) (omega (arith, r.vma_bound)) r.vma_free,
    book_blank (vma_at mm i + 8) (omega arith) (omega (arith, r.vma_bound)) r.vma_free_pa,
  )

  pub leaf-run : record_vma max_user_pages 0 mm addr slot t ≡ ok (tt, entered t mm i addr e)
  leaf-run =
      record_vma-run i max_user_pages 0 i mm addr slot e t (omega arith) r.vma_bound
        (λ l q z. r.vmas_used l q (
          sym (
            d.keeps.words (vma_at mm l + 8)
              (r.taken (vma_at mm l + 8) (omega arith) (omega (arith, r.vma_bound)))
              (r.vmas_used l q))
          ∙ z))
        vma_blank.1 d.entry (λ q. omega (arith, o, r.vma_bound, q))

  pub leaf-Keeps : Keeps t (entered t mm i addr e)
  leaf-Keeps = Keeps-trans t _ _ (Keeps-store t (vma_at mm i) addr vma_blank.0) (
      Keeps-store (record t { mem = update t.mem (vma_at mm i) addr }) (vma_at mm i + 8)
        (entry_addr e) (ground (arith, vma_blank)))

  pub leaf-IsMapped : IsMapped (entered t mm i addr e) addr [] slot e
  leaf-IsMapped = (d.keeps.taken slot h, ground (arith, o, r.vma_bound, d.entry), ne)

  pub leaf_blank :
      (a : ℕ) → page_va f ≤ a → a < page_va f + page_size → (entered t mm i addr e).mem a ≡ 0
  leaf_blank a p q =
      let away = new-IsOutside s mm i k n f a r d.below d.fresh p q in
      let z = d.blank a p q in ground (arith, r.vma_bound)
