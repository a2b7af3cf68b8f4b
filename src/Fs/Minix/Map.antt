-- ===== src/Fs/Minix/Map.antt =====
-- `inode_get_blk` against the content of the blocks: which block the code takes for a file offset.
use nbos.Base.{
  ℕ, ◌+◌, ◌-◌, ◌*◌, ◌/◌, ◌<◌, ◌≤◌, ◌≡◌, refl, false, ap, arith, ltb, if◌then◌else◌, Option, none,
  some, Run, ok, fault, out_of_fuel, Bool-cases, inl, inr, and_then,
}
use nbos.Fs.{Fs, Inode, Block, Buf, block_sz}
use nbos.Fs.Buffer.{get_buf-ok}
use nbos.Fs.Buffer.Coherent.{IsCoherent, Holds, Frame, Frame-trans, get_blk-IsCoherent}
use nbos.Fs.Layout.{le64}
use nbos.Fs.Minix.{load_entry, load_indirect, inode_blk_no, inode_get_blk}

-- The direct zones lie on the flash chip, which has 65536 blocks.
abbrev pub OnChip : Inode → Type 0
OnChip inode = (k : ℕ) → k < 7 → inode.i_data k < 64 * 1024

module _ (view : ℕ → Block) where
  -- The entry at an offset of a block, as the code loads it.
  abbrev pub entry : (blk offset : ℕ) → Run ℕ
  entry blk offset = if ltb block_sz (offset + 8) then fault else ok (le64 (view blk) offset)

  -- The block that the code takes for a file offset, by the content of the blocks. Beyond the direct
  -- blocks this is not the map of the Minix file system (see Entry).
  unfoldable pub bmap : Inode → (offset : ℕ) → Run (Option ℕ)
  bmap inode offset =
      let k = offset / block_sz in
      if ltb k 7
      then ok (some (inode.i_data k))
      else if ltb k (7 + 512)
      then and_then (entry (inode.i_data 7) (2 * (k - 7))) (λ n. ok (some n))
      else if ltb k (7 + 512 + 512 * 512)
      then and_then (entry (inode.i_data 8) (2 * (k - 7 - 512) / 512)) (λ n. ok (some n))
      else ok none

  pub bmap-direct :
      (inode : Inode) (offset : ℕ)
      → offset < 7 * block_sz
      → bmap inode offset ≡ ok (some (inode.i_data (offset / block_sz)))
  unfolding bmap
  bmap-direct inode offset h = ground arith

  load_entry-ok :
      (s : Fs) (blk offset n : ℕ)
      → IsCoherent view s
      → entry blk offset ≡ ok n
      → (t : Fs) × (load_entry blk offset s ≡ ok (n, t)) × IsCoherent view t × Frame s t
  unfolding load_entry
  load_entry-ok s blk offset n c e =
      let (id, t, b, run, c', h, v, f) = get_blk-IsCoherent view s blk c in
      (
        t,
        elim (Bool-cases (ltb block_sz (offset + 8))) [
          | inl beyond ↦ absurd (cc (rw beyond at e))
          | inr fits ↦
              rw (run, get_buf-ok id t b h.found, fits, v)
                (ap (λ r. and_then r (λ k. ok (k, t))) (rw fits at e))
        ],
        c',
        f,
      )

  load_indirect-ok :
      (s : Fs) (blk offset : ℕ) (r : Option ℕ)
      → IsCoherent view s
      → and_then (entry blk offset) (λ n. ok (some n)) ≡ ok r
      → (t : Fs) × (load_indirect blk offset s ≡ ok (r, t)) × IsCoherent view t × Frame s t
  unfolding load_indirect
  load_indirect-ok s blk offset r c e = go (entry blk offset) refl e
    where
      go :
          (z : Run ℕ)
          → entry blk offset ≡ z
          → and_then z (λ n. ok (some n)) ≡ ok r
          → (t : Fs) × (load_indirect blk offset s ≡ ok (r, t)) × IsCoherent view t × Frame s t
      go (ok n) d e =
          let (t, run, c', f) = load_entry-ok s blk offset n c d in
          (t, rw run (ap (λ z. and_then z (λ k. ok (k, t))) e), c', f)
      go fault d e = absurd (cc e)
      go out_of_fuel d e = absurd (cc e)

  inode_blk_no-ok :
      (s : Fs) (inode : Inode) (offset : ℕ) (r : Option ℕ)
      → IsCoherent view s
      → bmap inode offset ≡ ok r
      → (t : Fs) × (inode_blk_no inode offset s ≡ ok (r, t)) × IsCoherent view t × Frame s t
  unfolding inode_blk_no bmap
  inode_blk_no-ok s inode offset r c e = elim (Bool-cases (ltb (offset / block_sz) 7)) [
    | inl direct ↦ (s, rw direct (ap (λ z. and_then z (λ k. ok (k, s))) (rw direct at e)), c, refl)
    | inr far ↦ elim (Bool-cases (ltb (offset / block_sz) (7 + 512))) [
      | inl single ↦
          let (t, run, c', f) = load_indirect-ok s _ _ r c (rw (far, single) at e) in
          (t, rw (far, single) run, c', f)
      | inr farther ↦ elim (Bool-cases (ltb (offset / block_sz) (7 + 512 + 512 * 512))) [
        | inl double ↦
            let (t, run, c', f) = load_indirect-ok s _ _ r c (rw (far, farther, double) at e) in
            (t, rw (far, farther, double) run, c', f)
        | inr out ↦ (
          s,
          rw (far, farther, out)
              (ap (λ z. and_then z (λ k. ok (k, s))) (rw (far, farther, out) at e)),
          c,
          refl,
        )
      ]
    ]
  ]

  -- Over coherent buffers `inode_get_blk` follows the map: for an offset that `bmap` takes to block
  -- `n` it returns a buffer for `n` that holds the content of `n`; coherence is kept, and only the
  -- buffer list changes.
  pub inode_get_blk-bmap :
      (s : Fs) (inode : Inode) (offset n : ℕ)
      → IsCoherent view s
      → bmap inode offset ≡ ok (some n)
      → (id : ℕ) × (t : Fs) × (b : Buf) × (inode_get_blk inode offset s ≡ ok (some id, t))
        × IsCoherent view t
        × Holds t id n b
        × (b.bytes ≡ view n)
        × Frame s t
  unfolding inode_get_blk
  inode_get_blk-bmap s inode offset n c e =
      let (t, run, c', f) = inode_blk_no-ok s inode offset (some n) c e in
      let (id, u, b, run', c'', h, v, f') = get_blk-IsCoherent view t n c' in
      (id, u, b, rw (run, run'), c'', h, v, Frame-trans s t u f f')

  no_block :
      (s : Fs) (inode : Inode) (offset : ℕ)
      → (7 + 512 + 512 * 512) * block_sz ≤ offset
      → inode_get_blk inode offset s ≡ ok (none, s)
  unfolding inode_get_blk inode_blk_no
  no_block s inode offset h = rw (
    far offset 7 (omega arith) h,
    far offset (7 + 512) (omega arith) h,
    far offset (7 + 512 + 512 * 512) (omega arith) h,
  )
    where
      far :
          (o n : ℕ)
          → n ≤ 7 + 512 + 512 * 512
          → (7 + 512 + 512 * 512) * block_sz ≤ o
          → ltb (o / block_sz) n ≡ false
      far o n l h = ground (arith, l, h)

  -- Over coherent buffers, for an offset in the direct blocks of an inode whose direct zones lie on the
  -- chip, `inode_get_blk` returns a buffer of the zone that the offset lies in, with the content of that
  -- block; coherence is kept, and only the buffer list changes. For an offset behind all supported
  -- blocks it returns `NULL` and changes nothing.
  pub inode_get_blk-direct :
      (s : Fs) (inode : Inode) (offset : ℕ)
      → IsCoherent view s
      → OnChip inode
      → (offset < 7 * block_sz
          → (id : ℕ) × (t : Fs) × (b : Buf) × (inode_get_blk inode offset s ≡ ok (some id, t))
            × IsCoherent view t
            × Holds t id (inode.i_data (offset / block_sz)) b
            × (b.bytes ≡ view (inode.i_data (offset / block_sz)))
            × Frame s t)
        × ((7 + 512 + 512 * 512) * block_sz ≤ offset → inode_get_blk inode offset s ≡ ok (none, s))
  inode_get_blk-direct s inode offset c on = (
    λ h.
        inode_get_blk-bmap s inode offset (inode.i_data (offset / block_sz)) c
          (bmap-direct inode offset h),
    no_block s inode offset,
  )
