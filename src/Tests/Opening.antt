-- ===== src/Tests/Opening.antt =====
-- Opening and closing the root directory of a file system whose second descriptor is free.
use nbos.Base.{ℕ, ◌≡◌, refl, arith, [], ◌∷◌, none, some, ok, get_elem?, ◌≢◌, ◌<◌, zero, suc, set}
use nbos.Base.Int.{pos}
use nbos.Str.{Reader, strlen}
use nbos.Fs.{Fs, File, Inode}
use nbos.Fs.Frame.{IsBeside}
use nbos.Fs.Inodes.{get_ref, put_ref, put_inode}
use nbos.Fs.Name.{namei}
use nbos.Fs.Name.Components.{text}
use nbos.Fs.Files.{file_open, file_close}
use nbos.Fs.Files.Open.{CanOpen, claimed, opened, after_open, file_open-opened}
use nbos.Fs.Files.Close.{entry_after, closed, file_close-file_open}
use nbos.Tests.Files.{fs, inode}

abbrev unused : File
unused = record { f_inode = 0; f_count = 0; f_flags = 0; f_pos = 0 }

-- The root is in use twice.
abbrev root : Inode
root = record inode { i_count = 2 }

abbrev mounted : Fs
mounted = record fs { inodes = root ∷ []; root_inode = some 5; file_tbl = unused ∷ [] }

abbrev root_path : Reader
root_path = text (b'/' ∷ [])

first_open : (j : ℕ) → j < 1 → get_elem? mounted.filp j ≢ some none
first_open zero h e = cc
first_open (suc j) h e = absurd (omega (arith, h))

mounted-CanOpen : CanOpen mounted 1 0 unused
mounted-CanOpen = record {
  fd_bound = omega arith;
  fd_free = refl;
  fd_least = first_open;
  f_bound = omega arith;
  f_entry = refl;
  f_free = refl;
  f_least = λ j w h e. absurd (omega (arith, h));
}

walked : namei 3 none (some root_path) (claimed mounted 1 0) ≡ ok (some 5, claimed mounted 1 0)
unfolding namei strlen
walked = refl

file_open-opened_example :
    (file_open 3 (some root_path) 7 mounted
      ≡ ok (pos 1, after_open mounted (claimed mounted 1 0) 1 0 7 (some 5)))
    × IsBeside
        (opened mounted 1 0 7 (some 5))
        (after_open mounted (claimed mounted 1 0) 1 0 7 (some 5))
file_open-opened_example =
    file_open-opened 3 1 0 7 (some root_path) mounted (claimed mounted 1 0) unused (some 5)
      mounted-CanOpen walked

abbrev given_back : Fs
given_back = record mounted { inodes = inode ∷ []; file_tbl = entry_after 5 7 ∷ [] }

put : put_inode 5 (closed mounted (claimed mounted 1 0) 0 7 5) ≡ ok (pos 0, given_back)
unfolding put_inode get_ref put_ref
put = refl

file_close-file_open_example :
    (t : Fs) × (file_open 3 (some root_path) 7 mounted ≡ ok (pos 1, t))
    × (file_close (pos 1) t ≡ ok (pos 0, given_back))
    × (given_back.filp ≡ mounted.filp)
    × (given_back.file_tbl ≡ set mounted.file_tbl 0 (entry_after 5 7))
    × CanOpen given_back 1 0 (entry_after 5 7)
file_close-file_open_example =
    file_close-file_open 3 1 0 7 5 (some root_path) mounted (claimed mounted 1 0) given_back unused
      (pos 0) mounted-CanOpen walked put
