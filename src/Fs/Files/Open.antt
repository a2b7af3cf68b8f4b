-- ===== src/Fs/Files/Open.antt =====
-- Opening a file, on every outcome of the path walk.
use nbos.Base.{
  ℕ, zero, suc, ◌+◌, ◌<◌, ◌≡◌, refl, ◌≢◌, sym, ◌∙◌, ap, ap₂, subst, arith, false, ==_ne, leb, List,
  [], ◌∷◌, get_elem?, set, Option, none, some, Run, ok, some-inj,
}
use nbos.Base.Int.{ℤ, pos, negsuc}
use nbos.Str.{Reader}
use nbos.Fs.{Fs, File}
use nbos.Fs.Frame.{IsBeside, Stays}
use nbos.Fs.Frame.Walk.{namei-IsStable}
use nbos.Fs.Name.{namei}
use nbos.Fs.Files.{nr_open, nr_file, free_fd, free_file, open_at, file_open}

module _ {A : Type 0} where
  pub set-set : (xs : List A) (i : ℕ) (v w : A) → set (set xs i v) i w ≡ set xs i w
  set-set [] i v w = refl
  set-set (x ∷ xs) zero v w = refl
  set-set (x ∷ xs) (suc i) v w = ap (λ (ys : List A). x ∷ ys) (set-set xs i v w)

  pub set_same : (xs : List A) (i : ℕ) (v : A) → get_elem? xs i ≡ some v → set xs i v ≡ xs
  set_same [] i v e = refl
  set_same (x ∷ xs) zero v e = ap (λ (y : A). y ∷ xs) (sym (some-inj e))
  set_same (x ∷ xs) (suc i) v e = ap (λ (ys : List A). x ∷ ys) (set_same xs i v e)

-- `fd` is the smallest descriptor that is not open, and `f`, with the entry `v`, the first entry of
-- `file_tbl` that is not in use.
pub record CanOpen (s : Fs) (fd f : ℕ) (v : File) : Type 0 where
  pub fd_bound : fd < nr_open
  pub fd_free : get_elem? s.filp fd ≡ some none
  pub fd_least : (j : ℕ) → j < fd → get_elem? s.filp j ≢ some none
  pub f_bound : f < nr_file
  pub f_entry : get_elem? s.file_tbl f ≡ some v
  pub f_free : v.f_count ≡ 0
  pub f_least : (j : ℕ) (w : File) → j < f → get_elem? s.file_tbl j ≡ some w → w.f_count ≢ 0

free_fd-least :
    (ps : List (Option ℕ)) (i fd : ℕ)
    → get_elem? ps fd ≡ some none
    → ((j : ℕ) → j < fd → get_elem? ps j ≢ some none)
    → free_fd ps i ≡ i + fd
unfolding free_fd
free_fd-least [] i fd e l = absurd (cc e)
free_fd-least (none ∷ ps) i zero e l = omega arith
free_fd-least (none ∷ ps) i (suc fd) e l = absurd (l 0 (omega arith) refl)
free_fd-least (some p ∷ ps) i zero e l = absurd (cc e)
free_fd-least (some p ∷ ps) i (suc fd) e l =
    let r = free_fd-least ps (i + 1) fd e (λ j h. l (suc j) (omega (arith, h))) in omega (arith, r)

free_file-least :
    (fs : List File) (i f : ℕ) (v : File)
    → get_elem? fs f ≡ some v
    → v.f_count ≡ 0
    → ((j : ℕ) (w : File) → j < f → get_elem? fs j ≡ some w → w.f_count ≢ 0)
    → free_file fs i ≡ i + f
unfolding free_file
free_file-least [] i f v e z l = absurd (cc e)
free_file-least (w ∷ fs) i zero v e z l =
    rw (ap (λ (x : File). x.f_count) (some-inj e) ∙ z) (omega arith)
free_file-least (w ∷ fs) i (suc f) v e z l =
    let r = free_file-least fs (i + 1) f v e z (λ j x h. l (suc j) x (omega (arith, h))) in
    rw (==_ne w.f_count 0 (l 0 w (omega arith) refl)) (omega (arith, r))

-- While the path is walked, the descriptor is taken.
abbrev pub claimed : Fs → (fd f : ℕ) → Fs
claimed s fd f = record s { filp = set s.filp fd (some f) }

-- What an open leaves of the descriptors and the open files, and what it returns.
abbrev pub opened : Fs → (fd f flag : ℕ) → Option ℕ → Fs
opened s fd f flag none = s
opened s fd f flag (some i) = record s {
  filp = set s.filp fd (some f);
  file_tbl = set s.file_tbl f (record { f_inode = i; f_count = 1; f_flags = flag; f_pos = 0 });
}

abbrev pub open_result : (fd : ℕ) → Option ℕ → ℤ
open_result fd none = negsuc 2
open_result fd (some i) = pos fd

-- `s` with the blocks and inodes of `u`.
abbrev with_files : Fs → Fs → List (Option ℕ) → List File → Fs
with_files s u filp file_tbl = record s {
  disk = u.disk;
  bufs = u.bufs;
  next = u.next;
  inodes = u.inodes;
  filp = filp;
  file_tbl = file_tbl;
}

-- The state after `file_open`: `u` is the one after the path walk.
abbrev pub after_open : (s u : Fs) (fd f flag : ℕ) → Option ℕ → Fs
after_open s u fd f flag found = record u {
  filp = (opened s fd f flag found).filp;
  file_tbl = (opened s fd f flag found).file_tbl;
}

open_at-run :
    (fuel fd f flag : ℕ) (path : Option Reader) (s u : Fs) (v : File) (found : Option ℕ)
    → CanOpen s fd f v
    → namei fuel none path (claimed s fd f) ≡ ok (found, u)
    → IsBeside (claimed s fd f) u
    → open_at fuel fd f path flag s
      ≡ ok (
        open_result fd found,
        with_files s u (opened s fd f flag found).filp (opened s fd f flag found).file_tbl,
      )
unfolding open_at
open_at-run fuel fd f flag path s u v none c e b =
    let same_filp = set-set s.filp fd (some f) none ∙ set_same s.filp fd none c.fd_free in
    let same_tbl =
      ap (λ (n : ℕ). set s.file_tbl f (record v { f_count = n })) (sym c.f_free)
      ∙ set_same s.file_tbl f v c.f_entry in
    rw (e ∙ ap (λ (z : Fs). ok (none, z)) b, c.f_entry)
      (ap₂ (λ (p : List (Option ℕ)) (q : List File). ok (negsuc 2, with_files s u p q)) same_filp
        same_tbl)
open_at-run fuel fd f flag path s u v (some i) c e b =
    rw (e ∙ ap (λ (z : Fs). ok (some i, z)) b, c.f_entry)

shape :
    (s u : Fs) (fd f flag : ℕ) (found : Option ℕ)
    → with_files s u (opened s fd f flag found).filp (opened s fd f flag found).file_tbl
      ≡ record (opened s fd f flag found) {
        disk = u.disk;
        bufs = u.bufs;
        next = u.next;
        inodes = u.inodes;
      }
shape s u fd f flag none = refl
shape s u fd f flag (some i) = refl

pub below : (a b k : ℕ) → a ≡ k → k < b → leb b a ≡ false
below a b k e h = ground (arith, e, h)

-- `file_open`, with a descriptor and an entry of `file_tbl` free, once the path walk has returned,
-- returns. If there is no such file, the result is -3, and the descriptors and the open files are as
-- before. Else it is the smallest descriptor that was not open; it leads to the first entry that was
-- not in use, which stands for the inode at position 0, and no other descriptor or entry has changed.
-- All else is as after the walk, which leaves the super block and the root alone.
pub file_open-opened :
    (fuel fd f flag : ℕ) (path : Option Reader) (s u : Fs) (v : File) (found : Option ℕ)
    → CanOpen s fd f v
    → namei fuel none path (claimed s fd f) ≡ ok (found, u)
    → (file_open fuel path flag s ≡ ok (open_result fd found, after_open s u fd f flag found))
      × IsBeside (opened s fd f flag found) (after_open s u fd f flag found)
unfolding file_open
file_open-opened fuel fd f flag path s u v found c e =
    let at_fd : free_fd s.filp 0 ≡ fd =
      free_fd-least s.filp 0 fd c.fd_free c.fd_least ∙ omega arith in
    let at_f : free_file s.file_tbl 0 ≡ f =
      free_file-least s.file_tbl 0 f v c.f_entry c.f_free c.f_least ∙ omega arith in
    let beside : IsBeside (claimed s fd f) u =
      subst (λ (r : Run (Option ℕ × Fs)). Stays (claimed s fd f) r) e
        (namei-IsStable fuel none path (claimed s fd f)) in
    let same : after_open s u fd f flag found
        ≡ with_files s u (opened s fd f flag found).filp (opened s fd f flag found).file_tbl =
      ap
        (λ (z : Fs). record z {
          filp = (opened s fd f flag found).filp;
          file_tbl = (opened s fd f flag found).file_tbl;
        })
        beside in
    (
      rw
          (
            below (free_fd s.filp 0) nr_open fd at_fd c.fd_bound,
            below (free_file s.file_tbl 0) nr_file f at_f c.f_bound,
          )
          (ap₂ (λ (x y : ℕ). open_at fuel x y path flag s) at_fd at_f
            ∙ open_at-run fuel fd f flag path s u v found c e beside
            ∙ ap (λ (z : Fs). ok (open_result fd found, z)) (sym same)),
      same ∙ shape s u fd f flag found,
    )
