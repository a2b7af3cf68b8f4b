-- ===== src/Fs/Name.antt =====
-- fs/fs.c: `path_len` and `namei`. A path is the reader of its bytes. `fuel` bounds the walks over
-- the bytes of a path, `k` the number of its components.
pub mod Components
pub mod Resolve
use nbos.Base.{
  ℕ, zero, suc, ◌+◌, not, ◌&&◌, ◌==◌, ltb, if◌then◌else◌, Option, none, some, M, Run, ok, fault,
  out_of_fuel, pure, raise, ◌>>=◌, deref, and_then,
}
use nbos.Page.{page_size}
use nbos.Str.{Reader, tail, strlen}
use nbos.Fs.{Fs, dir_ops}
use nbos.Fs.Inodes.{get_ref}
use nbos.Fs.Minix.{minix_lookup}

-- `p + n`
abbrev pub skip : ℕ → Reader → Reader
skip n p i = p (n + i)

-- The two loops of `path_len`.
unfoldable pub count_slashes : ℕ → Reader → ℕ → Run ℕ
count_slashes zero p n = out_of_fuel
count_slashes (suc k) p n =
    let rest = count_slashes k (tail p) (n + 1) in if p 0 == b'/' then rest else ok n

unfoldable pub count_name : ℕ → Reader → ℕ → Run ℕ
count_name zero p n = out_of_fuel
count_name (suc k) p n =
    let rest = count_name k (tail p) (n + 1) in
    if not (p 0 == b'/') && not (p 0 == 0) then rest else ok n

-- The length of the first component, and its offset.
unfoldable pub path_len : ℕ → Reader → Run (ℕ × ℕ)
unfolding count_slashes count_name
path_len fuel path =
    if path 0 == 0
    then ok (0, 0)
    else and_then (count_slashes fuel path 0)
        λ offset. and_then (count_name fuel (skip offset path) 0) λ i. ok (i, offset)

-- `dir->i_op->lookup(dir, name)`: only the operations of a directory have a `lookup`.
unfoldable pub lookup : (fuel dir : ℕ) → Reader → M Fs (Option ℕ)
lookup fuel dir name = do
  d ← get_ref dir
  elim d.i_op [ dir_ops ↦ minix_lookup fuel dir name | _ ↦ raise ]

-- `memcpy(name, path, length)` and the terminator
abbrev pub name_of : (length : ℕ) → Reader → Reader
name_of length p i = if ltb i length then p i else 0

unfoldable pub namei_from : (fuel k : ℕ) → Option ℕ → Reader → M Fs (Option ℕ)
unfolding path_len lookup
namei_from fuel zero dir path s = out_of_fuel
namei_from fuel (suc k) dir path s = and_then (path_len fuel path) λ (length, offset).
    let name = name_of length (skip offset path) in
    let rest = skip length (skip offset path) in
    let step = (do
      d ← deref dir
      found ← lookup fuel d name
      elim found [ none ↦ pure none | some e ↦ namei_from fuel k (some e) rest ]) in
    if length == 0 then ok (dir, s) else step s

-- A null path is `none`. `kmalloc(strlen(path) + sizeof('\0'))`, where `sizeof('\0')` is 4, faults on more
-- than a page; else the buffer is taken to be there, and `name_of` is what `memcpy` leaves in it.
unfoldable pub namei : ℕ → (cur_dir : Option ℕ) → Option Reader → M Fs (Option ℕ)
unfolding namei_from
namei fuel cur_dir none s = ok (none, s)
namei fuel cur_dir (some path) s =
    let start = (λ (dir : Option ℕ).
      let path' : Reader = if (path 0 == b'.') && (path 1 == b'/') then skip 2 path else path in
      and_then (strlen fuel path')
        λ n. if ltb page_size (n + 4) then fault else namei_from fuel fuel dir path' s) in
    if path 0 == b'/'
    then start s.root_inode
    else elim cur_dir [ none ↦ ok (none, s) | some d ↦ start (some d) ]
