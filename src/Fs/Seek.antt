-- ===== src/Fs/Seek.antt =====
-- Where `file_lseek` leaves a file.
use nbos.Base.{
  ℕ, ◌^◌, ◌<◌, ◌≤◌, ◌≡◌, refl, arith, true, false, ◌||◌, ◌⊎◌, inl, inr, get_elem?, set, some, ok,
  Bool-cases,
}
use nbos.Base.Int.{ℤ, pos, negsuc, ◌+ℤ◌, is_neg, gtb_ℤ, to_int, is_int}
use nbos.Fs.{Fs, File, Inode}
use nbos.Fs.Inodes.{get_ref}
use nbos.Fs.Files.{file_lseek, seek_pos, fd_index}

-- Where the caller wants to go: `SEEK_SET` is 0, `SEEK_CUR` is 1 and `SEEK_END` is 2; any other
-- `whence` stays.
pub data Target (f_pos i_size : ℕ) (offset : ℤ) : ℕ → ℤ → Type 0 where
  from_start : Target f_pos i_size offset 0 offset
  from_here : Target f_pos i_size offset 1 (pos f_pos +ℤ offset)
  from_end : Target f_pos i_size offset 2 (pos i_size +ℤ offset)
  stay : (w : ℕ) → 3 ≤ w → Target f_pos i_size offset w (pos f_pos)

-- A position in the file, or at its end.
abbrev pub InFile : ℤ → ℕ → Type 0
InFile (pos n) size = n ≤ size
InFile (negsuc n) size = ⊥

-- For a target in the file, the target is returned and stored as the `f_pos` of the file, and
-- nothing else changes; for one outside it is `-1`, and nothing changes.
abbrev pub Sought : (s t : Fs) (filp : ℕ) → File → Inode → (target r : ℤ) → Type 0
Sought s t filp file inode target r =
    (InFile target inode.i_size
      × (r ≡ target)
      × (t ≡ record s { file_tbl = set s.file_tbl filp (record file { f_pos = fd_index target }) }))
    ⊎ ((InFile target inode.i_size → ⊥) × (r ≡ negsuc 0) × (t ≡ s))

in_file : (p : ℤ) (size : ℕ) → (is_neg p || gtb_ℤ p size) ≡ false → InFile p size
in_file (pos n) size h = ground arith
in_file (negsuc n) size h = absurd (ground arith)

outside : (p : ℤ) (size : ℕ) → (is_neg p || gtb_ℤ p size) ≡ true → InFile p size → ⊥
outside (pos n) size h l = ground arith
outside (negsuc n) size h l = l

to_int-small : (n : ℕ) → n < 2 ^ 31 → to_int n ≡ pos n
to_int-small n h = ground (arith, h)

seek_pos-Target :
    (f_pos i_size : ℕ) (offset : ℤ) (whence : ℕ) (p : ℤ)
    → f_pos < 2 ^ 31
    → i_size < 2 ^ 31
    → Target f_pos i_size offset whence p
    → is_int p ≡ true
    → seek_pos f_pos i_size offset whence ≡ ok p
unfolding seek_pos
seek_pos-Target f_pos i_size offset whence p a b from_start i = refl
seek_pos-Target f_pos i_size offset whence p a b from_here i = rw (to_int-small f_pos a, i)
seek_pos-Target f_pos i_size offset whence p a b from_end i = rw (to_int-small i_size b, i)
seek_pos-Target f_pos i_size offset whence p a b (stay w l) i =
    rw (to_int-small f_pos a) (ground (arith, l))

-- `file_lseek` on an open file of a live inode, with a position and a size that fit an `int`: for
-- `SEEK_SET`, `SEEK_CUR`, `SEEK_END` and any other `whence`, when the target fits an `int`, it returns
-- the target and stores it as the position if that lies within the file or at its end, and else
-- returns -1 and changes nothing.
pub file_lseek-Sought :
    (s : Fs) (filp : ℕ) (offset : ℤ) (whence : ℕ) (file : File) (inode : Inode) (target : ℤ)
    → get_elem? s.file_tbl filp ≡ some file
    → get_ref file.f_inode s ≡ ok (inode, s)
    → file.f_pos < 2 ^ 31
    → inode.i_size < 2 ^ 31
    → Target file.f_pos inode.i_size offset whence target
    → is_int target ≡ true
    → (r : ℤ) × (t : Fs) × (file_lseek filp offset whence s ≡ ok (r, t))
      × Sought s t filp file inode target r
unfolding file_lseek
file_lseek-Sought s filp offset whence file inode p e live a b at i =
    let there = seek_pos-Target file.f_pos inode.i_size offset whence p a b at i in
    elim (Bool-cases (is_neg p || gtb_ℤ p inode.i_size)) [
      | inl out ↦
          (negsuc 0, s, rw (e, live, there, out), inr (outside p inode.i_size out, refl, refl))
      | inr inside ↦ (
        p,
        record s { file_tbl = set s.file_tbl filp (record file { f_pos = fd_index p }) },
        rw (e, live, there, inside),
        inl (in_file p inode.i_size inside, refl, refl),
      )
    ]
