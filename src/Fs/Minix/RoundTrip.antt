-- ===== src/Fs/Minix/RoundTrip.antt =====
-- `minix_read` after `minix_write`.
use nbos.Base.{
  ℕ, ◌+◌, ◌*◌, ◌<◌, ◌≤◌, ◌≡◌, ◌∙◌, ap, arith, List, length, ok, sym, subst, fault, Run, Bool, true,
  false, if◌then◌else◌, Option, none, some, Option-cases, inl, inr,
}
use nbos.Base.Int.{pos}
use nbos.Fs.{Fs, Inode, Block, block_sz}
use nbos.Fs.Buffer.Coherent.{IsCoherent, Frame}
use nbos.Fs.Buffer.Single.{IsSingle}
use nbos.Fs.Inodes.{get_ref, find_inode}
use nbos.Fs.Minix.{minix_read, minix_write}
use nbos.Fs.Minix.Map.{bmap-direct}
use nbos.Fs.Minix.Read.{file_bytes, minix_read-file_bytes}
use nbos.Fs.Minix.Write.{Injective7, put_bytes, minix_write-put_bytes, file_bytes-put_bytes}

abbrev found_ref : Inode → Bool → Fs → Run (Inode × Fs)
found_ref i b s = if b then ok (i, s) else fault

abbrev ref_of : Option Inode → Fs → Run (Inode × Fs)
ref_of none s = fault
ref_of (some i) s = found_ref i i.live s

live-Frame :
    (s t : Fs) (b : Bool) (i inode : Inode)
    → found_ref i b s ≡ ok (inode, s)
    → found_ref i b t ≡ ok (inode, t)
live-Frame s t true i inode e = ap (λ (z : Inode). ok (z, t)) (cc e)
live-Frame s t false i inode e = absurd (cc e)

get_ref-ref_of : (id : ℕ) (s : Fs) → get_ref id s ≡ ref_of (find_inode id s.inodes) s
unfolding get_ref
get_ref-ref_of id s = elim (Option-cases (find_inode id s.inodes)) [
  | inl e ↦ rw (get_ref, e)
  | inr (i, e) ↦ rw (get_ref, e)
]

-- An inode reference is the same in states that differ in buffers and device only.
get_ref-Frame :
    (s t : Fs) (id : ℕ) (inode : Inode)
    → Frame s t
    → get_ref id s ≡ ok (inode, s)
    → get_ref id t ≡ ok (inode, t)
get_ref-Frame s t id inode f e =
    subst (λ (z : Fs). get_ref id z ≡ ok (inode, z)) (sym f)
      (get_ref-ref_of id moved ∙ go (find_inode id s.inodes) (sym (get_ref-ref_of id s) ∙ e))
  where
    moved : Fs
    moved = record s { disk = t.disk; bufs = t.bufs; next = t.next }

    go : (o : Option Inode) → ref_of o s ≡ ok (inode, s) → ref_of o moved ≡ ok (inode, moved)
    go none h = absurd (cc h)
    go (some i) h = live-Frame s moved i.live i inode h

-- Writing bytes to a live inode within its seven direct blocks, which are distinct data blocks, and
-- reading as many back from the same place, over coherent buffers with at most one for each data
-- block: both calls return the number of bytes, and the bytes read are the bytes written.
pub minix_read-minix_write :
    (inode : Inode) (lo : ℕ) (view : ℕ → Block) (s : Fs) (id : ℕ) (buf : List ℕ) (p count : ℕ)
    → ((k : ℕ) → k < 7 → lo ≤ inode.i_data k)
    → Injective7 inode.i_data
    → get_ref id s ≡ ok (inode, s)
    → IsCoherent view s
    → IsSingle lo s
    → length buf ≡ count
    → p + count ≤ 7 * block_sz
    → 0 < count
    → (t u : Fs) × (minix_write id buf p count s ≡ ok (pos count, t))
      × (minix_read id p count t ≡ ok ((pos count, buf), u))
minix_read-minix_write inode lo view s id buf p count data_blk inj live c m b h z =
    let (t, run, c₁, m₁, f) =
      minix_write-put_bytes inode lo data_blk view s id buf p count live c m b h z in
    let view' = put_bytes view inode.i_data p buf in
    let (u, run', c₂, f₂) =
      minix_read-file_bytes view' inode inode.i_data t id p count
        (get_ref-Frame s t id inode f live) c₁ (λ o a l. bmap-direct view' inode o (omega arith))
        z in
    (
      t,
      u,
      run,
      run'
          ∙ ap (λ l. ok ((pos count, l), u))
              (ap (file_bytes view' inode.i_data p) (sym b)
                ∙ file_bytes-put_bytes view inode.i_data p buf inj (omega arith)),
    )
