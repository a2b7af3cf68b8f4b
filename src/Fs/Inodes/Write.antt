-- ===== src/Fs/Inodes/Write.antt =====
-- Writing an inode back to the device.
use nbos.Base.{
  ℕ, ◌+◌, ◌-◌, ◌*◌, ◌%◌, ◌<◌, ◌≤◌, ◌≡◌, refl, ◌≢◌, sym, ◌∙◌, ap, arith, true, false, ◌||◌, ◌==◌,
  ==_refl, ==_ne, [], ◌∷◌, some, inl, inr, ◌⊎◌, Bool-cases, ==→eq, ltb, ok,
}
use nbos.Fs.{Fs, Inode, Buf, no_ops}
use nbos.Fs.Layout.{inode_sz, inodes_per_block, ino_to_blk_no}
use nbos.Fs.Buffer.{bread, get_buf-ok, put_block}
use nbos.Fs.Buffer.Single.{store_through-ok}
use nbos.Fs.Inodes.{
  find_inode, get_ref, put_ref, get_inode, find_ino, get_new_inode, fill_from_disk, minix_iget,
  minix_raw_inode, minix_write_inode, inode_to_raw, fill_inode,
}
use nbos.Fs.Inodes.Raw.{FitsRaw, Restored, inode_to_raw-Restored, raw_outside}

-- Where the inode `ino` lies in its block, and byte `x` of it.
abbrev pub raw_offset : ℕ → ℕ
raw_offset ino = (ino - 1) % inodes_per_block * inode_sz

abbrev pub raw_byte : Fs → (ino x : ℕ) → ℕ
raw_byte s ino x = s.disk (ino_to_blk_no s.sb ino) (raw_offset ino + x)

-- The state after the inode was written.
abbrev pub written : Fs → Inode → Fs
written s i = record s {
  disk =
      put_block s.disk (ino_to_blk_no s.sb i.i_ino)
        (inode_to_raw (raw_offset i.i_ino) i (s.disk (ino_to_blk_no s.sb i.i_ino)));
  next = s.next + 1;
}

pub get_ref-ok :
    (s : Fs) (id : ℕ) (i : Inode)
    → find_inode id s.inodes ≡ some i
    → i.live ≡ true
    → get_ref id s ≡ ok (i, s)
unfolding get_ref
get_ref-ok s id i f l = rw (f, get_ref, l)

abbrev read_in : Fs → ℕ → Fs
read_in s blk = record s {
  bufs = record { id = s.next; blk_no = blk; dirty = false; bytes = s.disk blk } ∷ s.bufs;
  next = s.next + 1;
}

raw-run :
    (s : Fs) (ino : ℕ)
    → 0 < ino
    → ino ≤ s.sb.s_ninodes
    → minix_raw_inode ino s ≡ ok (some (s.next, raw_offset ino), read_in s (ino_to_blk_no s.sb ino))
unfolding minix_raw_inode bread
raw-run s ino p q = rw in_range
  where
    in_range : ((ino == 0) || ltb s.sb.s_ninodes ino) ≡ false
    in_range = ground arith

pub write-run :
    (s : Fs) (id : ℕ) (i : Inode)
    → find_inode id s.inodes ≡ some i
    → i.live ≡ true
    → 0 < i.i_ino
    → i.i_ino ≤ s.sb.s_ninodes
    → minix_write_inode id s ≡ ok (0, written s i)
unfolding minix_write_inode
write-run s id i f l p q = rw (
  get_ref-ok s id i f l,
  raw-run s i.i_ino p q,
  store_through-ok (read_in s (ino_to_blk_no s.sb i.i_ino)) s.next
      (record {
        id = s.next;
        blk_no = ino_to_blk_no s.sb i.i_ino;
        dirty = false;
        bytes = s.disk (ino_to_blk_no s.sb i.i_ino);
      })
      (inode_to_raw (raw_offset i.i_ino) i) (rw (==_refl s.next)) refl,
  ==_refl s.next,
)

-- The other inodes lie elsewhere.
beside :
    (s : Fs) (i : Inode) (other x : ℕ)
    → 0 < i.i_ino
    → 0 < other
    → other ≢ i.i_ino
    → x < inode_sz
    → raw_byte (written s i) other x ≡ raw_byte s other x
unfolding ino_to_blk_no
beside s i other x p q n h =
    elim (Bool-cases (ino_to_blk_no s.sb other == ino_to_blk_no s.sb i.i_ino)) [
      | inl e ↦ rw e (
          raw_outside (raw_offset i.i_ino) (raw_offset other + x) i
            (s.disk (ino_to_blk_no s.sb i.i_ino))
            (apart (==→eq (ino_to_blk_no s.sb other) (ino_to_blk_no s.sb i.i_ino) e))
          ∙ ap (λ (b : ℕ). s.disk b (raw_offset other + x))
              (sym (==→eq (ino_to_blk_no s.sb other) (ino_to_blk_no s.sb i.i_ino) e)))
      | inr e ↦ rw e
    ]
  where
    apart :
        ino_to_blk_no s.sb other ≡ ino_to_blk_no s.sb i.i_ino
        → (raw_offset other + x < raw_offset i.i_ino)
          ⊎ (raw_offset i.i_ino + inode_sz ≤ raw_offset other + x)
    apart e =
        elim (Bool-cases
          (ltb ((other - 1) % inodes_per_block) ((i.i_ino - 1) % inodes_per_block))) [
            | inl l ↦ inl (ground arith)
            | inr l ↦ inr (ground arith)
          ]

-- The state when the inodes in memory are gone, as at the next start.
abbrev pub forgotten : Fs → Fs
forgotten s = record s { inodes = [] }

-- `minix_iget` of an inode that is not in memory fills a new one from the device.
abbrev pub new_inode : Fs → (ino : ℕ) → Inode
new_inode s ino = record {
  id = s.next;
  live = true;
  i_mode = s.junk;
  i_uid = s.junk;
  i_gid = s.junk;
  i_size = s.junk;
  i_atime = s.junk;
  i_mtime = s.junk;
  i_ctime = s.junk;
  is_new = true;
  i_nlink = s.junk;
  i_ino = ino;
  i_op = no_ops;
  i_count = 1;
  i_data = λ k. s.junk;
}

abbrev fetched : Fs → (ino : ℕ) → Fs
fetched s ino = record (forgotten s) { inodes = new_inode s ino ∷ []; next = s.next + 1 }

get_inode-run : (s : Fs) (ino : ℕ) → get_inode ino (forgotten s) ≡ ok (s.next, fetched s ino)
unfolding get_inode find_ino get_new_inode
get_inode-run s ino = refl

fill-run :
    (s : Fs) (ino : ℕ)
    → 0 < ino
    → ino ≤ s.sb.s_ninodes
    → fill_from_disk ino (new_inode s ino) (fetched s ino)
      ≡ ok (
        tt,
        record (read_in (fetched s ino) (ino_to_blk_no s.sb ino)) {
          inodes =
              fill_inode (s.disk (ino_to_blk_no s.sb ino)) (raw_offset ino) (new_inode s ino) ∷ [];
        },
      )
unfolding fill_from_disk put_ref
fill-run s ino p q =
    let v = fetched s ino in
    let blk = ino_to_blk_no s.sb ino in
    let bh : Buf = record { id = s.next + 1; blk_no = blk; dirty = false; bytes = s.disk blk } in
    rw
      (
        raw-run v ino p q,
        get_buf-ok (s.next + 1) (read_in v blk) bh (rw (==_refl (s.next + 1)) refl),
      )
      (rw (==_refl s.next) refl)

iget-run :
    (s : Fs) (ino : ℕ)
    → 0 < ino
    → ino ≤ s.sb.s_ninodes
    → (u : Fs) × (minix_iget ino (forgotten s) ≡ ok (some s.next, u))
      × (find_inode s.next u.inodes
          ≡ some (fill_inode (s.disk (ino_to_blk_no s.sb ino)) (raw_offset ino) (new_inode s ino)))
unfolding minix_iget fill_inode
iget-run s ino p q =
    let w = read_in (fetched s ino) (ino_to_blk_no s.sb ino) in
    let i = fill_inode (s.disk (ino_to_blk_no s.sb ino)) (raw_offset ino) (new_inode s ino) in
    (
      record w { inodes = i ∷ [] },
      rw (
        ==_ne ino 0 (λ e. omega (arith, e, p)),
        get_inode-run s ino,
        get_ref-ok (fetched s ino) s.next (new_inode s ino) (rw (==_refl s.next) refl) refl,
        fill-run s ino p q,
      ),
      rw (==_refl s.next) refl,
    )

-- `minix_write_inode` of an inode in memory with a number of the device, whose fields fit the ones on
-- disk, succeeds. When the inodes in memory are gone then, `minix_iget` of its number gives an inode with
-- its mode, owner, group, size, modification time and zones, and with the operations of its mode; the
-- access and change times are the modification time, and the link count is what the memory held. The
-- bytes of all other inodes, and all other blocks, the inodes in memory and the buffers are as before.
pub minix_write_inode-Restored :
    (s : Fs) (id : ℕ) (i : Inode)
    → find_inode id s.inodes ≡ some i
    → i.live ≡ true
    → 0 < i.i_ino
    → i.i_ino ≤ s.sb.s_ninodes
    → FitsRaw i
    → (t : Fs) × (minix_write_inode id s ≡ ok (0, t))
      × ((u : Fs) × (r : Inode) × (minix_iget i.i_ino (forgotten t) ≡ ok (some t.next, u))
          × (find_inode t.next u.inodes ≡ some r)
          × Restored i r)
      × ((other x : ℕ)
          → 0 < other
          → other ≢ i.i_ino
          → x < inode_sz
          → raw_byte t other x ≡ raw_byte s other x)
      × ((n : ℕ) → n ≢ ino_to_blk_no s.sb i.i_ino → t.disk n ≡ s.disk n)
      × (t.inodes ≡ s.inodes)
      × (t.bufs ≡ s.bufs)
minix_write_inode-Restored s id i f l p q fits =
    let blk = ino_to_blk_no s.sb i.i_ino in
    let new = new_inode (written s i) i.i_ino in
    let (u, get, there) = iget-run (written s i) i.i_ino p q in
    (
      written s i,
      write-run s id i f l p q,
      (
        u,
        fill_inode ((written s i).disk blk) (raw_offset i.i_ino) new,
        get,
        there,
        rw (==_refl blk) (inode_to_raw-Restored i new (raw_offset i.i_ino) (s.disk blk) fits),
      ),
      λ other x r n h. beside s i other x p r n h,
      λ n h. rw (==_ne n blk h),
      refl,
      refl,
    )
