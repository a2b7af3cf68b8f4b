-- ===== src/Syscall/Checks.antt =====
-- The checks of descriptors.
use nbos.Base.{
  ℕ, ◌≡◌, refl, ◌⊎◌, inl, inr, true, ◌||◌, get_elem?, List, [], Option, none, some, ok, Bool-cases,
}
use nbos.Base.Int.{ℤ, negsuc, is_neg}
use nbos.Fs.{Fs}
use nbos.Fs.Files.{bad_fd, fd_index}
use nbos.Syscall.{sys_read, sys_write, sys_lseek}

-- The descriptor is out of range, or its entry is `NULL`.
abbrev pub IsClosed : ℤ → Fs → Type 0
IsClosed fd s = (bad_fd fd ≡ true) ⊎ (get_elem? s.filp (fd_index fd) ≡ some none)

-- For a descriptor that is out of range or not open, reading, writing and seeking return -1 and
-- change nothing, whatever the other arguments are; no byte is stored.
pub closed_calls :
    (s : Fs) (fd count offset : ℤ) (whence : ℕ) (to : Option (Unit {0})) (from : Option (List ℕ))
    → IsClosed fd s
    → (sys_read fd to count s ≡ ok ((negsuc 0, []), s))
      × (sys_write fd from count s ≡ ok (negsuc 0, s))
      × (sys_lseek fd offset whence s ≡ ok (negsuc 0, s))
unfolding sys_read sys_write sys_lseek
closed_calls s fd count offset whence to from c = (read to, write from, seek)
  where
    read : (to : Option (Unit {0})) → sys_read fd to count s ≡ ok ((negsuc 0, []), s)
    read none = refl
    read (some b) = elim c [
      | inl bad ↦ rw bad
      | inr null ↦ elim (Bool-cases (bad_fd fd || is_neg count)) [
        | inl stop ↦ rw stop
        | inr go ↦ rw (go, null)
      ]
    ]

    write : (from : Option (List ℕ)) → sys_write fd from count s ≡ ok (negsuc 0, s)
    write none = refl
    write (some b) = elim c [
      | inl bad ↦ rw bad
      | inr null ↦ elim (Bool-cases (bad_fd fd || is_neg count)) [
        | inl stop ↦ rw stop
        | inr go ↦ rw (go, null)
      ]
    ]

    seek : sys_lseek fd offset whence s ≡ ok (negsuc 0, s)
    seek = elim c [
      | inl bad ↦ rw bad
      | inr null ↦ elim (Bool-cases (bad_fd fd)) [ inl stop ↦ rw stop | inr go ↦ rw (go, null) ]
    ]
