-- ===== src/Fs/Frame/Walk.antt =====
-- Looking up a path leaves the descriptors and the open files alone.
use nbos.Base.{
  ℕ, zero, suc, ◌+◌, ◌-◌, ◌*◌, ◌/◌, refl, not, ◌||◌, ◌&&◌, ◌==◌, ltb, if◌then◌else◌, Option, none,
  some, M, Run, ok, fault, pure, raise, ◌>>=◌, deref, get_state, and_then,
}
use nbos.Str.{Reader, strlen}
use nbos.Fs.{InodeOps, Fs, Buf, Inode, dir_ops, file_ops, no_ops, block_sz}
use nbos.Fs.Layout.{is_dir}
use nbos.Fs.Buffer.{find_buf, get_buf, find_blk, bread, get_blk}
use nbos.Fs.Inodes.{
  find_inode, replace_inode, find_ino, get_ref, put_ref, get_inode, get_new_inode, minix_raw_inode,
  fill_from_disk, minix_iget,
}
use nbos.Fs.Minix.{
  load_entry, load_indirect, inode_blk_no, inode_get_blk, scan_block, dir_per_blk, name_len,
  scan_dir, minix_lookup,
}
use nbos.Page.{page_size}
use nbos.Fs.Name.{skip, name_of, path_len, lookup, namei_from, namei}
use nbos.Fs.Frame.{
  Stays, IsStable, Stays-run, Stays-if, bind-IsStable, deref-IsStable, if-IsStable, option-IsStable,
}

pub get_buf-IsStable : (id : ℕ) → IsStable (get_buf id)
unfolding get_buf
get_buf-IsStable id s = on_buf (find_buf id s.bufs)
  where
    on_buf : (o : Option Buf) → Stays s (elim o [ none ↦ fault | some b ↦ ok (b, s) ])
    on_buf none = tt
    on_buf (some b) = refl

get_blk-IsStable : (n : ℕ) → IsStable (get_blk n)
unfolding get_blk bread
get_blk-IsStable n s = on_blk (find_blk n s.bufs)
  where
    on_blk : (o : Option Buf) → Stays s (elim o [ some b ↦ ok (b.id, s) | none ↦ bread n s ])
    on_blk none = refl
    on_blk (some b) = refl

pub get_ref-IsStable : (id : ℕ) → IsStable (get_ref id)
unfolding get_ref
get_ref-IsStable id s = on_inode (find_inode id s.inodes)
  where
    on_inode :
        (o : Option Inode)
        → Stays s (elim o [ none ↦ fault | some i ↦ if i.live then ok (i, s) else fault ])
    on_inode none = tt
    on_inode (some i) = Stays-if i.live s (ok (i, s)) fault refl tt

load_entry-IsStable : (blk offset : ℕ) → IsStable (load_entry blk offset)
unfolding load_entry
load_entry-IsStable blk offset = bind-IsStable (get_blk blk) _ (get_blk-IsStable blk) λ bh.
    bind-IsStable (get_buf bh) _ (get_buf-IsStable bh)
      λ b. if-IsStable (ltb block_sz (offset + 8)) _ _ (λ s. tt) (λ s. refl)

load_indirect-IsStable : (blk offset : ℕ) → IsStable (load_indirect blk offset)
unfolding load_indirect
load_indirect-IsStable blk offset =
    bind-IsStable (load_entry blk offset) _ (load_entry-IsStable blk offset) λ n s. refl

inode_blk_no-IsStable : (inode : Inode) (offset : ℕ) → IsStable (inode_blk_no inode offset)
unfolding inode_blk_no
inode_blk_no-IsStable inode offset =
    let k = offset / block_sz in
    if-IsStable (ltb k 7) _ _ (λ s. refl)
      (if-IsStable (ltb k (7 + 512)) _ _ (load_indirect-IsStable (inode.i_data 7) (2 * (k - 7))) (
        if-IsStable (ltb k (7 + 512 + 512 * 512)) _ _
          (load_indirect-IsStable (inode.i_data 8) (2 * (k - 7 - 512) / 512)) (λ s. refl)))

inode_get_blk-IsStable : (inode : Inode) (offset : ℕ) → IsStable (inode_get_blk inode offset)
unfolding inode_get_blk
inode_get_blk-IsStable inode offset =
    bind-IsStable (inode_blk_no inode offset) _ (inode_blk_no-IsStable inode offset) λ blk_no.
      option-IsStable blk_no (pure none) (λ n. get_blk n >>= λ bh. pure (some bh)) (λ s. refl)
        λ n. bind-IsStable (get_blk n) _ (get_blk-IsStable n) λ bh s. refl

pub put_ref-IsStable : (id : ℕ) (i : Inode) → IsStable (put_ref id i)
unfolding put_ref
put_ref-IsStable id i s = refl

get_inode-IsStable : (ino : ℕ) → IsStable (get_inode ino)
unfolding get_inode get_new_inode
get_inode-IsStable ino s = Stays-run s (find_ino ino s.inodes) _ on_inode
  where
    on_inode :
        (o : Option Inode)
        → IsStable (λ t. elim o [
          | none ↦ get_new_inode ino t
          | some i ↦ ok (
            i.id,
            record t {
              inodes = replace_inode i.id (record i { i_count = i.i_count + 1 }) t.inodes;
            },
          )
        ])
    on_inode none = λ t. refl
    on_inode (some i) = λ t. refl

pub minix_raw_inode-IsStable : (ino : ℕ) → IsStable (minix_raw_inode ino)
unfolding minix_raw_inode bread
minix_raw_inode-IsStable ino =
    bind-IsStable get_state _ (λ s. refl)
      λ s. if-IsStable ((ino == 0) || ltb s.sb.s_ninodes ino) _ _ (λ t. refl) (λ t. refl)

fill_from_disk-IsStable : (ino : ℕ) (i : Inode) → IsStable (fill_from_disk ino i)
unfolding fill_from_disk
fill_from_disk-IsStable ino i =
    bind-IsStable (minix_raw_inode ino) _ (minix_raw_inode-IsStable ino) λ raw.
      bind-IsStable (deref raw) _ (deref-IsStable raw)
        λ (bh, a). bind-IsStable (get_buf bh) _ (get_buf-IsStable bh) λ b. put_ref-IsStable i.id _

minix_iget-IsStable : (ino : ℕ) → IsStable (minix_iget ino)
unfolding minix_iget
minix_iget-IsStable ino =
    if-IsStable (ino == 0) _ _ (λ s. refl)
      (bind-IsStable (get_inode ino) _ (get_inode-IsStable ino) λ id.
        bind-IsStable (get_ref id) _ (get_ref-IsStable id) λ i.
          bind-IsStable (if i.is_new then fill_from_disk ino i else pure tt) _
            (if-IsStable i.is_new _ _ (fill_from_disk-IsStable ino i) (λ s. refl)) λ _ s. refl)

scan_dir-IsStable :
    (fuel k offset : ℕ) (dir : Inode) (name : Reader) → IsStable (scan_dir fuel k offset dir name)
unfolding scan_dir
scan_dir-IsStable fuel zero offset dir name = λ s. tt
scan_dir-IsStable fuel (suc k) offset dir name =
    if-IsStable (ltb offset dir.i_size) _ _
      (bind-IsStable (inode_get_blk dir offset) _ (inode_get_blk-IsStable dir offset) λ blk.
        bind-IsStable (deref blk) _ (deref-IsStable blk) λ bh.
          bind-IsStable (get_buf bh) _ (get_buf-IsStable bh) λ b.
            bind-IsStable _ _
              (λ s.
                Stays-run s (scan_block fuel dir_per_blk 0 name b.bytes) (λ r t. ok (r, t))
                  (λ r t. refl))
              λ found.
                option-IsStable found (scan_dir fuel k (offset + block_sz) dir name) minix_iget
                  (scan_dir-IsStable fuel k (offset + block_sz) dir name) minix_iget-IsStable)
      (λ s. refl)

minix_lookup-IsStable : (fuel dir : ℕ) (name : Reader) → IsStable (minix_lookup fuel dir name)
unfolding minix_lookup
minix_lookup-IsStable fuel dir name = bind-IsStable (get_ref dir) _ (get_ref-IsStable dir) λ d.
    if-IsStable (not (is_dir d.i_mode)) _ _ (λ s. refl)
      (bind-IsStable _ _ (λ s. Stays-run s (strlen fuel name) (λ r t. ok (r, t)) (λ r t. refl))
        λ n.
          if-IsStable (ltb name_len n) _ _ (λ s. refl)
            (scan_dir-IsStable fuel (d.i_size / block_sz + 2) 0 d name))

lookup-IsStable : (fuel dir : ℕ) (name : Reader) → IsStable (lookup fuel dir name)
unfolding lookup
lookup-IsStable fuel dir name =
    bind-IsStable (get_ref dir) _ (get_ref-IsStable dir) λ d. on_op d.i_op
  where
    on_op :
        (o : InodeOps)
        → IsStable {A = Option ℕ} (elim o as (λ x. M Fs (Option ℕ)) [
          | dir_ops ↦ minix_lookup fuel dir name
          | no_ops ↦ raise
          | file_ops ↦ raise
        ])
    on_op no_ops = λ s. tt
    on_op file_ops = λ s. tt
    on_op dir_ops = minix_lookup-IsStable fuel dir name

namei_from-IsStable :
    (fuel k : ℕ) (dir : Option ℕ) (path : Reader) → IsStable (namei_from fuel k dir path)
unfolding namei_from
namei_from-IsStable fuel zero dir path = λ s. tt
namei_from-IsStable fuel (suc k) dir path = λ s.
    Stays-run s (path_len fuel path) _ λ (length, offset) u.
      Stays-if (length == 0) u (ok (dir, u)) _ refl (
        bind-IsStable (deref dir) _ (deref-IsStable dir)
          (λ d.
            bind-IsStable (lookup fuel d (name_of length (skip offset path))) _
              (lookup-IsStable fuel d (name_of length (skip offset path)))
              λ found.
                option-IsStable found (pure none)
                  (λ e. namei_from fuel k (some e) (skip length (skip offset path))) (λ s. refl)
                  λ e. namei_from-IsStable fuel k (some e) (skip length (skip offset path)))
          u)

-- `namei` leaves the descriptors and the open files alone.
pub namei-IsStable :
    (fuel : ℕ) (cur_dir : Option ℕ) (path : Option Reader) → IsStable (namei fuel cur_dir path)
unfolding namei
namei-IsStable fuel cur_dir none = λ s. refl
namei-IsStable fuel cur_dir (some path) =
    λ s. Stays-if (path 0 == b'/') s _ _ (start s.root_inode s) (on_dir cur_dir s)
  where
    path' : Reader
    path' = if (path 0 == b'.') && (path 1 == b'/') then skip 2 path else path

    start :
        (dir : Option ℕ)
        → IsStable (λ s.
          and_then
            (strlen fuel path')
            λ n. if ltb page_size (n + 4) then fault else namei_from fuel fuel dir path' s)
    start dir s =
        Stays-run s (strlen fuel path')
          (λ n s. if ltb page_size (n + 4) then fault else namei_from fuel fuel dir path' s)
          (λ n s.
            Stays-if (ltb page_size (n + 4)) s _ _ tt (namei_from-IsStable fuel fuel dir path' s))

    on_dir :
        (o : Option ℕ) (s : Fs)
        → Stays s (elim o as (λ x. Run (Option ℕ × Fs)) [
          | none ↦ ok (none, s)
          | some d ↦
              and_then
                (strlen fuel path')
                λ n. if ltb page_size (n + 4) then fault else namei_from fuel fuel (some d) path' s
        ])
    on_dir none s = refl
    on_dir (some d) s = start (some d) s
