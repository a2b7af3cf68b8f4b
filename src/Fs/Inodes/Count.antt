-- ===== src/Fs/Inodes/Count.antt =====
-- The reference counts of inodes, and the use of an inode after its memory was freed.
use nbos.Base.{
  ℕ, ◌+◌, ◌-◌, ◌<◌, ◌≤◌, ◌≡◌, refl, ◌≢◌, sym, ◌∙◌, ap, subst, arith, true, false, ◌==◌, ==_refl,
  ==_ne, List, [], ◌∷◌, ◌++◌, some, ok, fault,
}
use nbos.Base.Int.{pos}
use nbos.Fs.{Fs, Inode}
use nbos.Fs.Inodes.{
  find_inode, replace_inode, find_ino, put_ref, get_inode, put_inode, generic_drop_inode,
  minix_destroy_inode, inode_to_raw, fill_inode,
}
use nbos.Fs.Layout.{ino_to_blk_no}
use nbos.Fs.Inodes.Raw.{FitsRaw, Restored, inode_to_raw-Restored}
use nbos.Fs.Inodes.Write.{raw_offset, written, write-run, get_ref-ok}

find-replace :
    (id : ℕ) (is : List Inode) (i c : Inode)
    → find_inode id is ≡ some i
    → c.id ≡ id
    → find_inode id (replace_inode id c is) ≡ some c
find-replace id [] i c f e = absurd (ground arith)
find-replace id (d ∷ is) i c f e = ground (arith, find-replace id is i c)

replace-replace :
    (id : ℕ) (is : List Inode) (c d : Inode)
    → c.id ≡ id
    → replace_inode id d (replace_inode id c is) ≡ replace_inode id d is
replace-replace id [] c d e = refl
replace-replace id (i ∷ is) c d e = ground (arith, replace-replace id is c d)

replace_same :
    (id : ℕ) (is : List Inode) (i : Inode) → find_inode id is ≡ some i → replace_inode id i is ≡ is
replace_same id [] i f = refl
replace_same id (c ∷ is) i f = ground (arith, replace_same id is i)

abbrev with_count : Inode → ℕ → Inode
with_count i n = record i { i_count = n }

abbrev with_inodes : Fs → List Inode → Fs
with_inodes s is = record s { inodes = is }

-- Where the walk of `get_inode` finds an inode that is in use, `put_inode` undoes `get_inode`: the
-- reference that was counted is given back, and the whole state is as before.
pub put_inode-get_inode :
    (s : Fs) (ino : ℕ) (i : Inode)
    → find_ino ino s.inodes ≡ ok (some i)
    → find_inode i.id s.inodes ≡ some i
    → i.live ≡ true
    → 0 < i.i_count
    → (t : Fs) × (get_inode ino s ≡ ok (i.id, t))
      × (find_inode i.id t.inodes ≡ some (record i { i_count = i.i_count + 1 }))
      × (put_inode i.id t ≡ ok (pos 0, s))
unfolding get_inode put_inode put_ref
put_inode-get_inode s ino i w f l p =
    let more = with_count i (i.i_count + 1) in
    let t = with_inodes s (replace_inode i.id more s.inodes) in
    let found : find_inode i.id t.inodes ≡ some more = find-replace i.id s.inodes i more f refl in
    (
      t,
      rw w,
      found,
      rw
          (
            get_ref-ok t i.id more found l,
            ==_ne (i.i_count + 1) 0 (λ e. omega (arith, e)),
            ==_ne (i.i_count + 1 - 1) 0 (λ e. omega (arith, e)),
          )
          (ap (λ (is : List Inode). ok (pos 0, with_inodes s is))
            (replace-replace i.id s.inodes more (with_count i (i.i_count + 1 - 1)) refl
              ∙ ap (λ (n : ℕ). replace_inode i.id (with_count i n) s.inodes) (omega arith)
              ∙ replace_same i.id s.inodes i f)),
    )

-- No node of the list has this number, and all can be read.
abbrev pub Without : (ino : ℕ) → List Inode → Type 0
Without ino [] = Unit
Without ino (i ∷ is) = (i.live ≡ true) × (i.i_ino ≢ ino) × Without ino is

abbrev pub WithoutId : (id : ℕ) → List Inode → Type 0
WithoutId id [] = Unit
WithoutId id (i ∷ is) = (i.id ≢ id) × WithoutId id is

find_behind :
    (front back : List Inode) (i : Inode)
    → WithoutId i.id front
    → find_inode i.id (front ++ i ∷ back) ≡ some i
find_behind [] back i w = rw (==_refl i.id)
find_behind (c ∷ front) back i (n, w) = rw (==_ne c.id i.id n) (find_behind front back i w)

replace_behind :
    (front back : List Inode) (i c : Inode)
    → WithoutId i.id front
    → replace_inode i.id c (front ++ i ∷ back) ≡ front ++ c ∷ back
replace_behind [] back i c w = rw (==_refl i.id)
replace_behind (d ∷ front) back i c (n, w) =
    rw (==_ne d.id i.id n) (ap (λ (is : List Inode). d ∷ is) (replace_behind front back i c w))

freed_walk :
    (ino : ℕ) (front back : List Inode) (i : Inode)
    → Without ino front
    → i.live ≡ false
    → find_ino ino (front ++ i ∷ back) ≡ fault
unfolding find_ino
freed_walk ino [] back i w l = rw l
freed_walk ino (c ∷ front) back i (l', n, w) l =
    rw (l', ==_ne c.i_ino ino n) (freed_walk ino front back i w l)

abbrev freed : Inode → Inode
freed i = record i { live = false }

-- The state after the last reference to `i` was given back.
abbrev after_last : (s : Fs) (front back : List Inode) (i : Inode) → Fs
after_last s front back i =
    let last = with_count i (i.i_count - 1) in
    with_inodes (written (with_inodes s (front ++ last ∷ back)) last) (front ++ freed last ∷ back)

last-run :
    (s : Fs) (front back : List Inode) (i : Inode)
    → WithoutId i.id front
    → i.live ≡ true
    → i.i_count ≡ 1
    → 0 < i.i_ino
    → i.i_ino ≤ s.sb.s_ninodes
    → put_inode i.id (with_inodes s (front ++ i ∷ back)) ≡ ok (pos 0, after_last s front back i)
unfolding put_inode put_ref generic_drop_inode minix_destroy_inode
last-run s front back i w l c p q =
    let last = with_count i (i.i_count - 1) in
    let s₁ = with_inodes s (front ++ last ∷ back) in
    rw (
      get_ref-ok (with_inodes s (front ++ i ∷ back)) i.id i (find_behind front back i w) l,
      ==_ne i.i_count 0 (λ e. omega (arith, e)),
      replace_behind front back i last w,
      subst (λ (n : ℕ). (n - 1 == 0) ≡ true) (sym c) refl,
      write-run s₁ i.id last (find_behind front back last w) l p q,
      get_ref-ok (written s₁ last) i.id last (find_behind front back last w) l,
      replace_behind front back last (freed last) w,
    )

-- The last reference to an inode of the device goes: `put_inode` writes the inode back, so that its
-- fields can be read again, and frees it. From then on `get_inode` faults, for this number as for
-- every one that no node in front of the freed one has: the walk of the list reads the freed node.
pub put_inode-last :
    (s : Fs) (front back : List Inode) (i : Inode)
    → s.inodes ≡ front ++ i ∷ back
    → WithoutId i.id front
    → i.live ≡ true
    → i.i_count ≡ 1
    → 0 < i.i_ino
    → i.i_ino ≤ s.sb.s_ninodes
    → FitsRaw i
    → (t : Fs) × (put_inode i.id s ≡ ok (pos 0, t))
      × ((j : Inode)
          → Restored i (fill_inode (t.disk (ino_to_blk_no s.sb i.i_ino)) (raw_offset i.i_ino) j))
      × ((ino : ℕ) → Without ino front → get_inode ino t ≡ fault)
unfolding get_inode inode_to_raw
put_inode-last s front back i e w l c p q fits =
    let last = with_count i (i.i_count - 1) in
    let blk = ino_to_blk_no s.sb i.i_ino in
    (
      after_last s front back i,
      ap (λ (is : List Inode). put_inode i.id (with_inodes s is)) e
          ∙ last-run s front back i w l c p q,
      λ j. rw (==_refl blk) (inode_to_raw-Restored i j (raw_offset i.i_ino) (s.disk blk) fits),
      λ ino n. rw (freed_walk ino front back (freed last) n refl),
    )
