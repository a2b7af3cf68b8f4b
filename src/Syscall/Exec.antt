-- ===== src/Syscall/Exec.antt =====
-- Programs that cannot be started.
use nbos.Base.{
  ℕ, ◌+◌, ◌<◌, ◌≤◌, ◌≡◌, ◌≢◌, refl, arith, true, ==_ne, leb, if◌then◌else◌, List, [], ◌∷◌, length,
  get_elem?, set, Option, none, some, ◌⊎◌, inl, inr, Run, ok, fault, pure, Bool-cases, Option-cases,
}
use nbos.Base.Int.{ℤ, pos, negsuc}
use nbos.Str.{Reader}
use nbos.Fs.{Fs, File, Inode}
use nbos.Fs.Name.{namei}
use nbos.Fs.Inodes.{find_inode}
use nbos.Fs.Inodes.Write.{get_ref-ok}
use nbos.Fs.Files.{nr_open, nr_file, free_fd, free_file, open_at, file_open}
use nbos.Kmalloc.Oversize.{kmalloc-oversize}
use nbos.Task.Exec.{System, Mmu, heap_of, execv}
use nbos.Syscall.{filp_at, sys_execv}

-- All descriptors, or all entries of `file_tbl`, are in use.
abbrev pub AllOpen : List (Option ℕ) → Type 0
AllOpen [] = Unit
AllOpen (p ∷ ps) = (p ≢ none) × AllOpen ps

abbrev pub AllUsed : List File → Type 0
AllUsed [] = Unit
AllUsed (f ∷ fs) = (f.f_count ≢ 0) × AllUsed fs

free_fd-AllOpen : (ps : List (Option ℕ)) (i : ℕ) → AllOpen ps → free_fd ps i ≡ i + length ps
unfolding free_fd
free_fd-AllOpen [] i a = omega arith
free_fd-AllOpen (none ∷ ps) i (n, a) = absurd (n refl)
free_fd-AllOpen (some p ∷ ps) i (n, a) = let e = free_fd-AllOpen ps (i + 1) a in omega (arith, e)

free_file-AllUsed : (fs : List File) (i : ℕ) → AllUsed fs → free_file fs i ≡ i + length fs
unfolding free_file
free_file-AllUsed [] i a = omega arith
free_file-AllUsed (f ∷ fs) i (n, a) =
    let e = free_file-AllUsed fs (i + 1) a in rw (==_ne f.f_count 0 n) (omega (arith, e))

-- `file_open` finds no descriptor, no entry of `file_tbl`, or no inode.
abbrev pub IsUnopened : (fuel : ℕ) → Reader → Fs → Type 0
IsUnopened fuel path s =
    (AllOpen s.filp × (nr_open ≤ length s.filp))
    ⊎ ((AllUsed s.file_tbl × (nr_file ≤ length s.file_tbl))
        ⊎ ((t : Fs) × (namei fuel none (some path)
                (record s { filp = set s.filp (free_fd s.filp 0) (some (free_file s.file_tbl 0)) })
              ≡ ok (none, t))))

le→leb : (a b : ℕ) → a ≤ b → leb a b ≡ true
le→leb a b h = ground (arith, h)

-- Whether an open fails at once, or reports an error.
abbrev Failed : Run (ℤ × Fs) → Type 0
Failed r = (r ≡ fault) ⊎ ((n : ℕ) × (t : Fs) × (r ≡ ok (negsuc n, t)))

open_at-Failed :
    (fuel fd f : ℕ) (path : Reader) (s t : Fs)
    → namei fuel none (some path) (record s { filp = set s.filp fd (some f) }) ≡ ok (none, t)
    → Failed (open_at fuel fd f (some path) 0 s)
unfolding open_at
open_at-Failed fuel fd f path s t e = rw e (elim (Option-cases (get_elem? t.file_tbl f)) [
  | inl q ↦ inl (rw q)
  | inr (file, q) ↦ inr (
    2,
    record t {
      filp = set t.filp fd none;
      file_tbl = set t.file_tbl f (record file { f_count = 0 });
    },
    rw q,
  )
])

file_open-Failed :
    (fuel : ℕ) (path : Reader) (s : Fs)
    → IsUnopened fuel path s
    → Failed (file_open fuel (some path) 0 s)
unfolding file_open
file_open-Failed fuel path s (inl (a, h)) =
    inr
      (0, s, rw (le→leb nr_open (free_fd s.filp 0) (omega (arith, h, free_fd-AllOpen s.filp 0 a))))
file_open-Failed fuel path s (inr u) = elim (Bool-cases (leb nr_open (free_fd s.filp 0))) [
  | inl e ↦ inr (0, s, rw e)
  | inr e ↦ rw e (entry u)
]
  where
    entry :
        (AllUsed s.file_tbl × (nr_file ≤ length s.file_tbl))
          ⊎ ((t : Fs) × (namei fuel none (some path) (record s {
            filp = set s.filp (free_fd s.filp 0) (some (free_file s.file_tbl 0));
          })
                ≡ ok (none, t)))
        → Failed (
            (if leb nr_file (free_file s.file_tbl 0)
                then pure (negsuc 1)
                else open_at fuel (free_fd s.filp 0) (free_file s.file_tbl 0) (some path) 0)
              s)
    entry (inl (a, h)) = inr (
      1,
      s,
      rw (
          le→leb nr_file (free_file s.file_tbl 0)
            (omega (arith, h, free_file-AllUsed s.file_tbl 0 a))),
    )
    entry (inr (t, q)) = elim (Bool-cases (leb nr_file (free_file s.file_tbl 0))) [
      | inl e ↦ inr (1, s, rw e)
      | inr e ↦ rw e (open_at-Failed fuel (free_fd s.filp 0) (free_file s.file_tbl 0) path s t q)
    ]

-- `sys_execv` of a name that `file_open` does not open, because all descriptors or all entries of
-- `file_tbl` are in use, or because there is no such file, accesses memory out of bounds, instead of
-- returning an error.
pub sys_execv-unopened :
    (mmu : Mmu) (fuel : ℕ) (path : Reader) (s : System)
    → IsUnopened fuel path s.fs
    → sys_execv mmu fuel (some path) s ≡ fault
unfolding sys_execv
sys_execv-unopened mmu fuel path s u = elim (file_open-Failed fuel path s.fs u) [
  | inl e ↦ rw e
  | inr (n, t, e) ↦ rw e
]

-- `sys_execv` of a file that it opens, but that is larger than a page, does not return: `kmalloc`
-- divides by zero.
pub sys_execv-oversize :
    (mmu : Mmu) (fuel fd f : ℕ) (path : Reader) (s : System) (t : Fs) (file : File) (i : Inode)
    → file_open fuel (some path) 0 s.fs ≡ ok (pos fd, t)
    → get_elem? t.filp fd ≡ some (some f)
    → get_elem? t.file_tbl f ≡ some file
    → find_inode file.f_inode t.inodes ≡ some i
    → i.live ≡ true
    → 4096 < i.i_size
    → s.chain 9 ≡ 0
    → 0 < fuel
    → sys_execv mmu fuel (some path) s ≡ fault
unfolding sys_execv execv filp_at
sys_execv-oversize mmu fuel fd f path s t file i o a b c l h e k =
    rw (o, a, b, get_ref-ok t file.f_inode i c l, kmalloc-oversize fuel i.i_size (heap_of s) h e k)
