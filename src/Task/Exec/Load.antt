-- ===== src/Task/Exec/Load.antt =====
-- Copying a program to the memory of its process.
use nbos.Base.{
  ℕ, zero, suc, ◌+◌, ◌-◌, ◌%◌, ◌<◌, ◌≡◌, refl, ◌≢◌, sym, ◌∙◌, ap, subst, arith, false, ◌==◌, ==_ne,
  Option, none, some, ok, inl, inr, Bool-cases, ==→eq,
}
use nbos.Page.{va_of}
use nbos.Task.{Kernel}
use nbos.Task.Exec.{Mmu, byte_at, put_byte, user_start, copy_to_user}
use nbos.Task.Exec.Bytes.{byte_of_bound, byte_at-same, byte_at-other}

-- The byte that a process reads at a user address.
abbrev pub at_pa : (ℕ → ℕ) → Option ℕ → Option ℕ
at_pa mem none = none
at_pa mem (some pa) = some (byte_at mem (va_of pa))

abbrev pub user_byte : Mmu → (mem : ℕ → ℕ) → (pgd addr : ℕ) → Option ℕ
user_byte mmu mem pgd addr = at_pa mem (mmu mem pgd addr)

-- The word of an address.
abbrev pub word_of : ℕ → ℕ
word_of a = a - a % 8

-- Byte `i` of user memory lies at `place i`, for `i < size`; two of them lie apart, and apart from the
-- `size` bytes at `start`. The hardware finds them so in every memory that differs from that of `k` at
-- these places alone.
pub record IsPlaced (mmu : Mmu) (k : Kernel) (start size : ℕ) (place : ℕ → ℕ) : Type 0 where
  pub apart : (i j : ℕ) → i < size → j < size → i ≢ j → place i ≢ place j
  pub beside : (i j : ℕ) → i < size → j < size → place i ≢ start + j
  pub found :
      (mem : ℕ → ℕ)
      → ((a : ℕ) → ((i : ℕ) → i < size → a ≢ word_of (place i)) → mem a ≡ k.pages.mem a)
      → (i : ℕ) → i < size
      → (pa : ℕ) × (mmu mem k.pgd (user_start + i) ≡ some pa) × (va_of pa ≡ place i)

abbrev with_mem : Kernel → (ℕ → ℕ) → Kernel
with_mem k mem = record k { pages = record k.pages { mem = mem } }

-- The copy has come to index `i`.
record Upto (k : Kernel) (start size : ℕ) (place : ℕ → ℕ) (i : ℕ) (mem : ℕ → ℕ) : Type 0 where
  copied : (j : ℕ) → j < i → byte_at mem (place j) ≡ byte_at k.pages.mem (start + j)
  left : (a : ℕ) → ((j : ℕ) → j < i → place j ≢ a) → byte_at mem a ≡ byte_at k.pages.mem a
  words : (a : ℕ) → ((j : ℕ) → j < size → a ≢ word_of (place j)) → mem a ≡ k.pages.mem a

module _ (mmu : Mmu) (k : Kernel) (start size : ℕ) (place : ℕ → ℕ)
    (p : IsPlaced mmu k start size place) where
  next_byte :
      (i : ℕ) (mem : ℕ → ℕ)
      → i < size
      → Upto k start size place i mem
      → Upto k start size place (i + 1) (put_byte mem (place i) (byte_at mem (start + i)))
  next_byte i mem l u =
      let v = byte_at mem (start + i) in
      let same = u.left (start + i) (λ j h. p.beside j i (omega (arith, l)) l) in
      record {
        copied = λ j h. elim (Bool-cases (j == i)) [
          | inl e ↦
              let here : j ≡ i = ==→eq j i e in
              ap (λ (x : ℕ). byte_at (put_byte mem (place i) v) (place x)) here
              ∙ byte_at-same mem (place i) v
                  (byte_of_bound ((start + i) % 8) (mem (word_of (start + i))))
              ∙ same
              ∙ ap (λ (x : ℕ). byte_at k.pages.mem (start + x)) (sym here)
          | inr e ↦
              byte_at-other mem (place i) v (place j)
                (p.apart j i (omega (arith, h, l)) l (λ c. ne c e))
              ∙ u.copied j (before j h e)
        ];
        left = λ a n.
            byte_at-other mem (place i) v a (λ e. n i (omega arith) (sym e))
            ∙ u.left a (λ j h. n j (omega arith));
        words = λ a n. elsewhere a (n i l) ∙ u.words a n;
      }
    where
      ne : {j : ℕ} → j ≡ i → (j == i) ≢ false
      ne {j} c e = ground (arith, c, e)

      before : (j : ℕ) → j < i + 1 → (j == i) ≡ false → j < i
      before j h e = ground (arith, h, e)

      elsewhere :
          (a : ℕ)
          → a ≢ word_of (place i)
          → put_byte mem (place i) (byte_at mem (start + i)) a ≡ mem a
      elsewhere a n = rw (==_ne a (word_of (place i)) n)

  copy-run :
      (n i : ℕ) (mem : ℕ → ℕ)
      → i + n ≡ size
      → Upto k start size place i mem
      → (mem' : ℕ → ℕ) × (copy_to_user mmu n i start (with_mem k mem) ≡ ok (tt, with_mem k mem'))
        × Upto k start size place size mem'
  unfolding copy_to_user
  copy-run zero i mem e u =
      (mem, refl, subst (λ (x : ℕ). Upto k start size place x mem) (omega (arith, e)) u)
  copy-run (suc n) i mem e u =
      let l : i < size = omega (arith, e) in
      let (pa, there, at) = p.found mem u.words i l in
      let (mem', run, done) = copy-run n (i + 1) _ (omega (arith, e)) (next_byte i mem l u) in
      (mem', rw (there, at) run, done)

-- The kernel after a program was copied: the process reads it, and no other byte has changed.
pub record IsLoaded (mmu : Mmu) (k : Kernel) (start size : ℕ) (place mem : ℕ → ℕ) : Type 0 where
  pub program :
      (i : ℕ)
      → i < size
      → user_byte mmu mem k.pgd (user_start + i) ≡ some (byte_at k.pages.mem (start + i))
  pub others : (a : ℕ) → ((i : ℕ) → i < size → place i ≢ a) → byte_at mem a ≡ byte_at k.pages.mem a

-- What was copied is what the process reads.
Upto-IsLoaded :
    (mmu : Mmu) (k : Kernel) (start size : ℕ) (place mem : ℕ → ℕ)
    → IsPlaced mmu k start size place
    → Upto k start size place size mem
    → IsLoaded mmu k start size place mem
Upto-IsLoaded mmu k start size place mem p u = record {
  program = λ i l.
      let (pa, there, at) = p.found mem u.words i l in
      ap (at_pa mem) there ∙ ap (λ (a : ℕ). some (byte_at mem a)) at ∙ ap some (u.copied i l);
  others = u.left;
}

-- `memcpy` to user memory, where the hardware finds its bytes at places that lie apart from one
-- another and from the buffer, and the copy does not change where, returns: the process then reads in
-- its memory the bytes of the buffer, in order, and nothing else has changed, neither any other byte
-- of memory nor the rest of the kernel.
pub copy_to_user-IsLoaded :
    (mmu : Mmu) (k : Kernel) (start size : ℕ) (place : ℕ → ℕ)
    → IsPlaced mmu k start size place
    → (mem : ℕ → ℕ) × (copy_to_user mmu size 0 start k
        ≡ ok (tt, record k { pages = record k.pages { mem = mem } }))
      × IsLoaded mmu k start size place mem
copy_to_user-IsLoaded mmu k start size place p =
    let none_yet : Upto k start size place 0 k.pages.mem = record {
      copied = λ j h. absurd (omega (arith, h));
      left = λ a n. refl;
      words = λ a n. refl;
    } in
    let (mem, run, u) =
      copy-run mmu k start size place p size 0 k.pages.mem (omega arith) none_yet in
    (mem, run, Upto-IsLoaded mmu k start size place mem p u)
