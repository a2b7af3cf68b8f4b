-- ===== src/Task/Exec/Program.antt =====
-- Copying a program into the page that was mapped for it, with the tables as the hardware walks them.
use nbos.Base.{ℕ, ◌+◌, ◌%◌, ◌<◌, ◌≤◌, ◌≡◌, ◌≢◌, ◌∙◌, ap, arith, some, inl, inr, ◌⊎◌, ok}
use nbos.Page.{Pages, page_size, va_of, pa_of, paging_pages}
use nbos.Page.Address.{page_va}
use nbos.Paging.{mmu_pte_flags, table_index}
use nbos.Paging.Walk.{slot_of, walk, walk-beside, IsMapped-walk}
use nbos.Paging.Level.{page_entry}
use nbos.Paging.User.{user_levels, user_translate, in_page_found, in_page_entry, UserPage}
use nbos.Task.{Kernel}
use nbos.Task.Exec.{user_start, copy_to_user}
use nbos.Task.Exec.Load.{word_of, IsPlaced, IsLoaded, copy_to_user-IsLoaded}

-- All addresses of a page are found through the same entries.
walk_low :
    (mem : ℕ → ℕ) (table x : ℕ)
    → x < page_size
    → walk mem x user_levels (slot_of table x 39) ≡ walk mem 0 user_levels (slot_of table 0 39)
unfolding walk
walk_low mem table x h =
    let a : table_index x 39 ≡ 0 = omega (arith, h) in
    let b : table_index x 30 ≡ 0 = omega (arith, h) in
    let c : table_index x 21 ≡ 0 = omega (arith, h) in
    let d : table_index x 12 ≡ 0 = omega (arith, h) in rw (a, b, c, d)

word_in_page :
    (f j a : ℕ)
    → f < paging_pages
    → j < page_size
    → (a < page_va f) ⊎ (page_va f + page_size ≤ a)
    → a ≢ word_of (page_va f + j)
word_in_page f j a l h (inl o) e = absurd (omega (arith, l, h, o, e))
word_in_page f j a l h (inr o) e = absurd (omega (arith, l, h, o, e))

in_page_va :
    (f x : ℕ)
    → f < paging_pages
    → x < page_size
    → va_of (pa_of (page_va f) + x % page_size) ≡ page_va f + x
in_page_va f x l h = omega (arith, l, h)

module _ (k : Kernel) (s : Pages) (mm i f start size : ℕ) (u : UserPage s mm i 0 f k.pages)
    (top : k.pgd ≡ s.mem mm) (small : size ≤ page_size)
    (away : (j : ℕ)
      → j < size
      → (start + j < page_va f) ⊎ (page_va f + page_size ≤ start + j)) where
  -- Whatever the page holds, the hardware finds it.
  found_still :
      (mem : ℕ → ℕ) (x : ℕ)
      → ((a : ℕ) → (a < page_va f) ⊎ (page_va f + page_size ≤ a) → mem a ≡ k.pages.mem a)
      → x < page_size
      → user_translate mem k.pgd x ≡ some (pa_of (page_va f) + x % page_size)
  found_still mem x same h =
      ap (in_page_found x) (
        walk_low mem (va_of k.pgd) x h
        ∙ ap (λ (p : ℕ). walk mem 0 user_levels (slot_of (va_of p) 0 39)) top
        ∙ walk-beside k.pages.mem mem (page_va f) 0 user_levels (slot_of (va_of (s.mem mm)) 0 39)
            same u.beside
        ∙ IsMapped-walk k.pages 0 user_levels (slot_of (va_of (s.mem mm)) 0 39)
            (page_entry f mmu_pte_flags) u.way)
      ∙ in_page_entry f x u.below

  pub UserPage-IsPlaced : IsPlaced user_translate k start size (λ j. page_va f + j)
  UserPage-IsPlaced = record {
    apart = λ a b p q n e. n (omega (arith, e));
    beside = λ a b p q e. not_in_page (start + b) a (omega (arith, p, small)) (away b q) e;
    found = λ mem same j h.
        let x = user_start + j in
        let l : x < page_size = omega (arith, h, small) in
        (
          pa_of (page_va f) + x % page_size,
          found_still mem x
              (λ a o. same a (λ b p. word_in_page f b a u.below (omega (arith, p, small)) o)) l,
          in_page_va f x u.below l ∙ omega arith,
        );
  }
    where
      not_in_page :
          (b a : ℕ)
          → a < page_size
          → (b < page_va f) ⊎ (page_va f + page_size ≤ b)
          → page_va f + a ≢ b
      not_in_page b a h (inl o) e = absurd (omega (arith, h, o, e))
      not_in_page b a h (inr o) e = absurd (omega (arith, h, o, e))

-- `memcpy` of a program to the first page of user memory, as `alloc_user_page` leaves it, with the
-- processor on the tables of the process, as the hardware walks them: it returns, the process then
-- reads at user address 0 and on the bytes of the buffer, in order, and no byte outside the page has
-- changed, nor anything else of the kernel. The program has at most a page, and the buffer lies outside
-- the page that was mapped.
pub copy_to_user-UserPage :
    (k : Kernel) (s : Pages) (mm i f start size : ℕ)
    → UserPage s mm i user_start f k.pages
    → k.pgd ≡ s.mem mm
    → size ≤ page_size
    → ((j : ℕ) → j < size → (start + j < page_va f) ⊎ (page_va f + page_size ≤ start + j))
    → (mem : ℕ → ℕ) × (copy_to_user user_translate size 0 start k
        ≡ ok (tt, record k { pages = record k.pages { mem = mem } }))
      × IsLoaded user_translate k start size (λ j. page_va f + j) mem
copy_to_user-UserPage k s mm i f start size u top small away =
    copy_to_user-IsLoaded user_translate k start size (λ j. page_va f + j)
      (UserPage-IsPlaced k s mm i f start size u top small away)
