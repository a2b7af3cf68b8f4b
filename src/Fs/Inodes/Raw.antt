-- ===== src/Fs/Inodes/Raw.antt =====
-- An inode on disk: what is stored is what is read.
use nbos.Base.{
  ℕ, zero, suc, ◌+◌, ◌*◌, ◌^◌, ◌<◌, ◌≤◌, ◌≡◌, refl, sym, ◌∙◌, ap, ap₂, subst, arith, ◌==◌, inl, inr,
  ◌⊎◌, Bool-cases, ==→eq, lt→ltb,
}
use nbos.Fs.{Inode, Block}
use nbos.Fs.Layout.{le16, le32, put8, put16, put32, inode_sz}
use nbos.Fs.Inodes.{ops_of, zones_to_raw, inode_to_raw, fill_inode}

-- The fields fit the ones on disk.
pub record FitsRaw (i : Inode) : Type 0 where
  pub mode : i.i_mode < 2 ^ 16
  pub uid : i.i_uid < 2 ^ 16
  pub gid : i.i_gid < 2 ^ 8
  pub size : i.i_size < 2 ^ 32
  pub mtime : i.i_mtime < 2 ^ 32
  pub zones : (k : ℕ) → k < 9 → i.i_data k < 2 ^ 16

le16-put16 : (b : Block) (a v : ℕ) → v < 2 ^ 16 → le16 (put16 a v b) a ≡ v
le16-put16 b a v h = ground arith

zones_outside :
    (n k a x : ℕ) (zones : ℕ → ℕ) (b : Block)
    → (x < a + 14 + 2 * k) ⊎ (a + 14 + 2 * (k + n) ≤ x)
    → zones_to_raw n k a zones b x ≡ b x
unfolding zones_to_raw
zones_outside zero k a x zones b o = refl
zones_outside (suc n) k a x zones b o =
    zones_outside n (k + 1) a x zones (put16 (a + 14 + 2 * k) (zones k) b) (ground (arith, o))
    ∙ ground (arith, o)

zones_at :
    (n k l a : ℕ) (zones : ℕ → ℕ) (b : Block)
    → k ≤ l
    → l < k + n
    → zones l < 2 ^ 16
    → le16 (zones_to_raw n k a zones b) (a + 14 + 2 * l) ≡ zones l
unfolding zones_to_raw
zones_at zero k l a zones b p q h = absurd (omega arith)
zones_at (suc n) k l a zones b p q h = elim (Bool-cases (l == k)) [
  | inl e ↦
      let same : l ≡ k = ==→eq l k e in
      let stored = put16 (a + 14 + 2 * k) (zones k) b in
      ap₂ (λ (x y : ℕ). x + 2 ^ 8 * y)
        (zones_outside n (k + 1) a (a + 14 + 2 * l) zones stored (inl (omega (arith, same))))
        (zones_outside n (k + 1) a (a + 14 + 2 * l + 1) zones stored (inl (omega (arith, same))))
      ∙ ap (λ (m : ℕ). le16 stored (a + 14 + 2 * m)) same
      ∙ le16-put16 b (a + 14 + 2 * k) (zones k) (subst (λ (m : ℕ). zones m < 2 ^ 16) same h)
      ∙ ap zones (sym same)
  | inr e ↦
      zones_at n (k + 1) l a zones (put16 (a + 14 + 2 * k) (zones k) b) (ground arith) (omega arith)
        h
]

-- The stores before those of the zones.
abbrev head_to_raw : ℕ → Inode → Block → Block
head_to_raw a i b = put32 (a + 8) i.i_mtime (
    put32 (a + 4) i.i_size (
      put8 (a + 13) i.i_nlink (put8 (a + 12) i.i_gid (put16 (a + 2) i.i_uid (put16 a i.i_mode b)))))

head_at :
    (a x : ℕ) (i : Inode) (b : Block) → x < a + 14 → inode_to_raw a i b x ≡ head_to_raw a i b x
unfolding inode_to_raw
head_at a x i b h = zones_outside 9 0 a x i.i_data (head_to_raw a i b) (inl (omega arith))

head16 :
    (a x : ℕ) (i : Inode) (b : Block)
    → x + 1 < a + 14
    → le16 (inode_to_raw a i b) x ≡ le16 (head_to_raw a i b) x
head16 a x i b h =
    ap₂ (λ (y z : ℕ). y + 2 ^ 8 * z) (head_at a x i b (omega arith))
      (head_at a (x + 1) i b (omega arith))

head32 :
    (a x : ℕ) (i : Inode) (b : Block)
    → x + 3 < a + 14
    → le32 (inode_to_raw a i b) x ≡ le32 (head_to_raw a i b) x
head32 a x i b h =
    ap₂ (λ (y z : ℕ). y + 2 ^ 16 * z) (head16 a x i b (omega arith))
      (head16 a (x + 2) i b (omega arith))

zones_kept :
    (i : Inode) (a : ℕ) (b : Block) (k : ℕ)
    → k < 9
    → i.i_data k < 2 ^ 16
    → le16 (inode_to_raw a i b) (a + 14 + 2 * k) ≡ i.i_data k
unfolding inode_to_raw
zones_kept i a b k l h = zones_at 9 0 k a i.i_data (head_to_raw a i b) (omega arith) (omega arith) h

head_outside :
    (a x : ℕ) (i : Inode) (b : Block) → (x < a) ⊎ (a + inode_sz ≤ x) → head_to_raw a i b x ≡ b x
head_outside a x i b (inl h) = ground arith
head_outside a x i b (inr h) = ground arith

pub raw_outside :
    (a x : ℕ) (i : Inode) (b : Block) → (x < a) ⊎ (a + inode_sz ≤ x) → inode_to_raw a i b x ≡ b x
unfolding inode_to_raw
raw_outside a x i b o =
    zones_outside 9 0 a x i.i_data (head_to_raw a i b) (ground (arith, o)) ∙ head_outside a x i b o

mode_at :
    (a : ℕ) (i : Inode) (b : Block) → i.i_mode < 2 ^ 16 → le16 (head_to_raw a i b) a ≡ i.i_mode
mode_at a i b h = ground arith

uid_at :
    (a : ℕ) (i : Inode) (b : Block) → i.i_uid < 2 ^ 16 → le16 (head_to_raw a i b) (a + 2) ≡ i.i_uid
uid_at a i b h = ground arith

gid_at : (a : ℕ) (i : Inode) (b : Block) → i.i_gid < 2 ^ 8 → head_to_raw a i b (a + 12) ≡ i.i_gid
gid_at a i b h = ground arith

le32-put32 : (b : Block) (a v : ℕ) → v < 2 ^ 32 → le32 (put32 a v b) a ≡ v
le32-put32 b a v h = ground arith

before_time : (a v : ℕ) (b : Block) → le32 (put32 (a + 8) v b) (a + 4) ≡ le32 b (a + 4)
before_time a v b = ground arith

size_at :
    (a : ℕ) (i : Inode) (b : Block)
    → i.i_size < 2 ^ 32
    → le32 (head_to_raw a i b) (a + 4) ≡ i.i_size
size_at a i b h =
    before_time a i.i_mtime (
      put32 (a + 4) i.i_size (
        put8 (a + 13) i.i_nlink
          (put8 (a + 12) i.i_gid (put16 (a + 2) i.i_uid (put16 a i.i_mode b)))))
    ∙ le32-put32
        (put8 (a + 13) i.i_nlink
          (put8 (a + 12) i.i_gid (put16 (a + 2) i.i_uid (put16 a i.i_mode b))))
        (a + 4) i.i_size h

time_at :
    (a : ℕ) (i : Inode) (b : Block)
    → i.i_mtime < 2 ^ 32
    → le32 (head_to_raw a i b) (a + 8) ≡ i.i_mtime
time_at a i b h = ground arith

-- `r` is `i` as far as the disk keeps an inode: its three times are one, and its link count is not
-- read.
pub record Restored (i r : Inode) : Type 0 where
  pub mode : r.i_mode ≡ i.i_mode
  pub uid : r.i_uid ≡ i.i_uid
  pub gid : r.i_gid ≡ i.i_gid
  pub size : r.i_size ≡ i.i_size
  pub mtime : r.i_mtime ≡ i.i_mtime
  pub atime : r.i_atime ≡ i.i_mtime
  pub ctime : r.i_ctime ≡ i.i_mtime
  pub ops : r.i_op ≡ ops_of i.i_mode
  pub zones : (k : ℕ) → k < 9 → r.i_data k ≡ i.i_data k

-- What is stored for an inode is what is read.
pub inode_to_raw-Restored :
    (i j : Inode) (a : ℕ) (b : Block) → FitsRaw i → Restored i (fill_inode (inode_to_raw a i b) a j)
unfolding fill_inode
inode_to_raw-Restored i j a b f =
    let mode = head16 a a i b (omega arith) ∙ mode_at a i b f.mode in
    let time = head32 a (a + 8) i b (omega arith) ∙ time_at a i b f.mtime in
    record {
      mode = mode;
      uid = head16 a (a + 2) i b (omega arith) ∙ uid_at a i b f.uid;
      gid = head_at a (a + 12) i b (omega arith) ∙ gid_at a i b f.gid;
      size = head32 a (a + 4) i b (omega arith) ∙ size_at a i b f.size;
      mtime = time;
      atime = time;
      ctime = time;
      ops = ap ops_of mode;
      zones = λ k l. rw (lt→ltb k 9 l) (zones_kept i a b k l (f.zones k l));
    }
