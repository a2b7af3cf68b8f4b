-- ===== src/Fs/Frame.antt =====
-- What the operations on blocks and inodes leave alone: the descriptors, the open files, the super
-- block and the root.
pub mod Walk
pub mod Write
use nbos.Base.{
  ℕ, zero, suc, ◌+◌, ◌-◌, ◌*◌, ◌/◌, ◌≡◌, refl, ◌∙◌, ap, Bool, true, false, not, ◌||◌, ◌&&◌, ◌==◌,
  ltb, if◌then◌else◌, List, [], ◌∷◌, Option, none, some, M, Run, ok, fault, out_of_fuel, pure,
  raise, ◌>>=◌, ◌>>◌, deref, get_state, and_then, Bool-cases, inl, inr,
}
use nbos.Base.Int.{ℤ, pos, negsuc}
use nbos.Str.{Reader, strlen, strcmp}
use nbos.Fs.{InodeOps, Fs, Buf, Inode, Block, dir_ops, file_ops, no_ops, block_sz}
use nbos.Fs.Layout.{is_dir, ino_to_blk_no}
use nbos.Fs.Buffer.{
  find_buf, get_buf, find_blk, bread, get_blk, write_buf, mark_buffer_dirty, brelse, store_through,
}
use nbos.Fs.Inodes.{
  find_inode, replace_inode, find_ino, get_ref, put_ref, get_inode, get_new_inode, minix_raw_inode,
  fill_from_disk, minix_iget, inode_to_raw, minix_write_inode, minix_destroy_inode,
  generic_drop_inode, put_inode,
}
use nbos.Fs.Minix.{
  load_entry, load_indirect, inode_blk_no, inode_get_blk, scan_block, dir_per_blk, name_len,
  scan_dir, minix_lookup,
}
use nbos.Fs.Name.{skip, name_of, path_len, lookup, namei_from, namei}

abbrev pub IsBeside : Fs → Fs → Type 0
IsBeside s t = t ≡ record s { disk = t.disk; bufs = t.bufs; next = t.next; inodes = t.inodes }

-- If the run succeeds, it changes nothing else.
abbrev pub Stays : {A : Type 0} → Fs → Run (A × Fs) → Type 0
Stays s (ok (a, t)) = IsBeside s t
Stays s fault = Unit
Stays s out_of_fuel = Unit

abbrev pub IsStable : {A : Type 0} → M Fs A → Type 0
IsStable m = (s : Fs) → Stays s (m s)

pub Stays-trans : {A : Type 0} (s t : Fs) (r : Run (A × Fs)) → IsBeside s t → Stays t r → Stays s r
Stays-trans s t (ok (a, u)) f g =
    g
    ∙ ap (λ (z : Fs). record z { disk = u.disk; bufs = u.bufs; next = u.next; inodes = u.inodes }) f
Stays-trans s t fault f g = tt
Stays-trans s t out_of_fuel f g = tt

pub Stays-and_then :
    {A B : Type 0} (s : Fs) (r : Run (A × Fs)) (k : A → M Fs B)
    → Stays s r
    → ((a : A) → IsStable (k a))
    → Stays s (and_then r λ (a, t). k a t)
Stays-and_then s (ok (a, t)) k f g = Stays-trans s t (k a t) f (g a t)
Stays-and_then s fault k f g = tt
Stays-and_then s out_of_fuel k f g = tt

-- A computation that has no state
pub Stays-run :
    {A B : Type 0} (s : Fs) (r : Run A) (k : A → M Fs B)
    → ((a : A) → IsStable (k a))
    → Stays s (and_then r λ a. k a s)
Stays-run s (ok a) k g = g a s
Stays-run s fault k g = tt
Stays-run s out_of_fuel k g = tt

pub Stays-if :
    {A : Type 0} (b : Bool) (s : Fs) (m k : Run (A × Fs))
    → Stays s m
    → Stays s k
    → Stays s (if b then m else k)
Stays-if true s m k f g = f
Stays-if false s m k f g = g

pub bind-IsStable :
    {A B : Type 0} (m : M Fs A) (k : A → M Fs B)
    → IsStable m
    → ((a : A) → IsStable (k a))
    → IsStable (m >>= k)
bind-IsStable m k f g s = Stays-and_then s (m s) k (f s) g

pub deref-IsStable : {A : Type 0} (o : Option A) → IsStable (deref o)
deref-IsStable none s = tt
deref-IsStable (some a) s = refl

pub if-IsStable :
    {A : Type 0} (b : Bool) (m k : M Fs A) → IsStable m → IsStable k → IsStable (if b then m else k)
if-IsStable true m k f g = f
if-IsStable false m k f g = g

pub option-IsStable :
    {A B : Type 0} (o : Option A) (m : M Fs B) (k : A → M Fs B)
    → IsStable m
    → ((a : A) → IsStable (k a))
    → IsStable (elim o as (λ x. M Fs B) [ none ↦ m | some a ↦ k a ])
option-IsStable none m k f g = f
option-IsStable (some a) m k f g = g a
