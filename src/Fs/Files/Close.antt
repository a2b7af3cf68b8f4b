-- ===== src/Fs/Files/Close.antt =====
-- Closing the file that was opened.
use nbos.Base.{
  ℕ, ◌≡◌, refl, sym, ◌∙◌, ap, subst, arith, List, get_elem?, set, Option, none, some, Run, ok,
  get_elem?-lt, get_elem?-set_self, get_elem?-set_ne,
}
use nbos.Base.Int.{ℤ, pos}
use nbos.Str.{Reader}
use nbos.Fs.{Fs, File}
use nbos.Fs.Frame.{IsBeside, Stays}
use nbos.Fs.Frame.Write.{put_inode-IsStable}
use nbos.Fs.Inodes.{put_inode}
use nbos.Fs.Name.{namei}
use nbos.Fs.Files.{nr_open, file_open, file_close}
use nbos.Fs.Files.Open.{CanOpen, claimed, after_open, set-set, set_same, below, file_open-opened}

-- The entry of a file that was opened and closed, and the state before its inode is given back.
abbrev pub entry_after : (i flag : ℕ) → File
entry_after i flag = record { f_inode = i; f_count = 0; f_flags = flag; f_pos = 0 }

abbrev pub closed : (s u : Fs) (f flag i : ℕ) → Fs
closed s u f flag i = record u { filp = s.filp; file_tbl = set s.file_tbl f (entry_after i flag) }

close-run :
    (fd f flag i : ℕ) (s u w : Fs) (v : File) (r : ℤ)
    → CanOpen s fd f v
    → put_inode i (closed s u f flag i) ≡ ok (r, w)
    → file_close (pos fd) (after_open s u fd f flag (some i)) ≡ ok (pos 0, w)
unfolding file_close
close-run fd f flag i s u w v r c e =
    let file : File = record { f_inode = i; f_count = 1; f_flags = flag; f_pos = 0 } in
    let same_filp : set (set s.filp fd (some f)) fd none ≡ s.filp =
      set-set s.filp fd (some f) none ∙ set_same s.filp fd none c.fd_free in
    rw (
      below fd nr_open fd refl c.fd_bound,
      get_elem?-set_self s.filp fd (some f) (get_elem?-lt s.filp fd c.fd_free),
      get_elem?-set_self s.file_tbl f file (get_elem?-lt s.file_tbl f c.f_entry),
      same_filp,
      set-set s.file_tbl f file (entry_after i flag),
      e,
    )

closed-CanOpen :
    (fd f flag i : ℕ) (s w : Fs) (v : File)
    → CanOpen s fd f v
    → w.filp ≡ s.filp
    → w.file_tbl ≡ set s.file_tbl f (entry_after i flag)
    → CanOpen w fd f (entry_after i flag)
closed-CanOpen fd f flag i s w v c p q = record {
  fd_bound = c.fd_bound;
  fd_free = rw p c.fd_free;
  fd_least = λ j h. rw p (c.fd_least j h);
  f_bound = c.f_bound;
  f_entry =
      rw q (
        get_elem?-set_self s.file_tbl f (entry_after i flag) (get_elem?-lt s.file_tbl f c.f_entry));
  f_free = refl;
  f_least = λ j x h e. c.f_least j x h (
      sym (get_elem?-set_ne s.file_tbl (entry_after i flag) (λ z. omega (arith, h, z)))
      ∙ subst (λ (fs : List File). get_elem? fs j ≡ some x) q e);
}

-- A file that was found and opened can be closed, if its inode can be given back: both calls succeed,
-- and after them the descriptors are as before the first, and so are the open files but for the entry
-- that was used, whose count is 0. The next open gets the same descriptor and the same entry.
pub file_close-file_open :
    (fuel fd f flag i : ℕ) (path : Option Reader) (s u w : Fs) (v : File) (r : ℤ)
    → CanOpen s fd f v
    → namei fuel none path (claimed s fd f) ≡ ok (some i, u)
    → put_inode i (closed s u f flag i) ≡ ok (r, w)
    → (t : Fs) × (file_open fuel path flag s ≡ ok (pos fd, t))
      × (file_close (pos fd) t ≡ ok (pos 0, w))
      × (w.filp ≡ s.filp)
      × (w.file_tbl ≡ set s.file_tbl f (entry_after i flag))
      × CanOpen w fd f (entry_after i flag)
file_close-file_open fuel fd f flag i path s u w v r c e g =
    let beside : IsBeside (closed s u f flag i) w =
      subst (λ (x : Run (ℤ × Fs)). Stays (closed s u f flag i) x) g
        (put_inode-IsStable i (closed s u f flag i)) in
    let p = ap (λ (z : Fs). z.filp) beside in
    let q = ap (λ (z : Fs). z.file_tbl) beside in
    (
      after_open s u fd f flag (some i),
      (file_open-opened fuel fd f flag path s u v (some i) c e).0,
      close-run fd f flag i s u w v r c g,
      p,
      q,
      closed-CanOpen fd f flag i s w v c p q,
    )
