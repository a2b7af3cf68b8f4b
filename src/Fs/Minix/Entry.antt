-- ===== src/Fs/Minix/Entry.antt =====
-- Block numbers in an indirect block: the code loads eight bytes where an entry has two.
use nbos.Base.{
  ℕ, ◌+◌, ◌-◌, ◌*◌, ◌/◌, ◌^◌, ◌≤◌, ◌<◌, ◌≡◌, ◌∙◌, ap, sym, arith, some, ok, fault, lt→ltb, le→ltb,
}
use nbos.Fs.{Fs, Buf, Inode, Block, block_sz}
use nbos.Fs.Layout.{le16, le64}
use nbos.Fs.Buffer.Coherent.{IsCoherent, Holds, Frame}
use nbos.Fs.Minix.{inode_get_blk}
use nbos.Fs.Minix.Map.{bmap, inode_get_blk-bmap}

-- The number that the entry for block `k` of the file holds.
abbrev pub zone_entry : (ℕ → Block) → Inode → (k : ℕ) → ℕ
zone_entry view inode k = le16 (view (inode.i_data 7)) (2 * (k - 7))

-- For a file offset in the single indirect range, with the three entries behind the block's entry in
-- the indirect block too, the map gives the entry plus 2^16 times the next one, and so on for four
-- entries: it is the block's number only if the next three entries are 0.
pub bmap-indirect :
    (view : ℕ → Block) (inode : Inode) (offset : ℕ)
    → 7 ≤ offset / block_sz
    → offset / block_sz + 3 < 7 + 512
    → bmap view inode offset
      ≡ ok (
          some (
            zone_entry view inode (offset / block_sz)
            + 2 ^ 16 * zone_entry view inode (offset / block_sz + 1)
            + 2 ^ 32 * zone_entry view inode (offset / block_sz + 2)
            + 2 ^ 48 * zone_entry view inode (offset / block_sz + 3)))
unfolding bmap
bmap-indirect view inode offset lo hi =
    rw
      (
        le→ltb (offset / block_sz) 7 lo,
        lt→ltb (offset / block_sz) (7 + 512) (omega arith),
        le→ltb block_sz (2 * (offset / block_sz - 7) + 8) (omega arith),
      )
      (ap (λ n. ok (some n)) sum)
  where
    b : Block
    b = view (inode.i_data 7)

    k : ℕ
    k = offset / block_sz

    at : (j i : ℕ) → j ≡ i → le16 b j ≡ le16 b i
    at j i e = ap (le16 b) e

    sum :
        le64 b (2 * (k - 7))
        ≡ zone_entry view inode k
          + 2 ^ 16 * zone_entry view inode (k + 1)
          + 2 ^ 32 * zone_entry view inode (k + 2)
          + 2 ^ 48 * zone_entry view inode (k + 3)
    sum = omega (
      arith,
      at (2 * (k - 7) + 2) (2 * (k + 1 - 7)) (omega arith),
      at (2 * (k - 7) + 4) (2 * (k + 2 - 7)) (omega arith),
      at (2 * (k - 7) + 4 + 2) (2 * (k + 3 - 7)) (omega arith),
    )

-- What that means for `inode_get_blk`, over coherent buffers: for such an offset it returns a buffer
-- for that number, which is the file's block only if the next three entries are 0.
pub inode_get_blk-indirect :
    (view : ℕ → Block) (s : Fs) (inode : Inode) (offset n : ℕ)
    → IsCoherent view s
    → 7 ≤ offset / block_sz
    → offset / block_sz + 3 < 7 + 512
    → n
      ≡ zone_entry view inode (offset / block_sz)
        + 2 ^ 16 * zone_entry view inode (offset / block_sz + 1)
        + 2 ^ 32 * zone_entry view inode (offset / block_sz + 2)
        + 2 ^ 48 * zone_entry view inode (offset / block_sz + 3)
    → (id : ℕ) × (t : Fs) × (b : Buf) × (inode_get_blk inode offset s ≡ ok (some id, t))
      × IsCoherent view t
      × Holds t id n b
      × (b.bytes ≡ view n)
      × Frame s t
inode_get_blk-indirect view s inode offset n c l h e =
    inode_get_blk-bmap view s inode offset n c
      (bmap-indirect view inode offset l h ∙ ap (λ k. ok (some k)) (sym e))

-- For the last three blocks of that range the load leaves the indirect block.
pub bmap-indirect_end :
    (view : ℕ → Block) (inode : Inode) (offset : ℕ)
    → 7 + 512 ≤ offset / block_sz + 3
    → offset / block_sz < 7 + 512
    → bmap view inode offset ≡ fault
unfolding bmap
bmap-indirect_end view inode offset lo hi = rw (
  le→ltb (offset / block_sz) 7 (omega arith),
  lt→ltb (offset / block_sz) (7 + 512) hi,
  lt→ltb block_sz (2 * (offset / block_sz - 7) + 8) (omega arith),
)
