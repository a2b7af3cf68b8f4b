-- ===== src/Fs/Frame/Write.antt =====
-- Giving back an inode leaves the descriptors and the open files alone.
use nbos.Base.{ℕ, ◌-◌, refl, ◌==◌, if◌then◌else◌, pure, ◌>>◌}
use nbos.Fs.{Block}
use nbos.Fs.Buffer.{get_buf, write_buf, mark_buffer_dirty, brelse, store_through}
use nbos.Fs.Inodes.{
  get_ref, put_ref, minix_raw_inode, inode_to_raw, minix_write_inode, minix_destroy_inode,
  generic_drop_inode, put_inode,
}
use nbos.Fs.Frame.{IsStable, bind-IsStable, if-IsStable, option-IsStable}
use nbos.Fs.Frame.Walk.{
  get_buf-IsStable, get_ref-IsStable, put_ref-IsStable, minix_raw_inode-IsStable,
}

write_buf-IsStable : (id : ℕ) (change : Block → Block) → IsStable (write_buf id change)
unfolding write_buf
write_buf-IsStable id change = bind-IsStable (get_buf id) _ (get_buf-IsStable id) λ bh s. refl

mark_buffer_dirty-IsStable : (id : ℕ) → IsStable (mark_buffer_dirty id)
unfolding mark_buffer_dirty
mark_buffer_dirty-IsStable id = bind-IsStable (get_buf id) _ (get_buf-IsStable id) λ bh s. refl

brelse-IsStable : (id : ℕ) → IsStable (brelse id)
unfolding brelse
brelse-IsStable id = bind-IsStable (get_buf id) _ (get_buf-IsStable id) λ bh s. refl

store_through-IsStable : (id : ℕ) (change : Block → Block) → IsStable (store_through id change)
unfolding store_through
store_through-IsStable id change =
    bind-IsStable (write_buf id change) _ (write_buf-IsStable id change) λ _.
      bind-IsStable (mark_buffer_dirty id) _ (mark_buffer_dirty-IsStable id) λ _. brelse-IsStable id

minix_write_inode-IsStable : (id : ℕ) → IsStable (minix_write_inode id)
unfolding minix_write_inode
minix_write_inode-IsStable id = bind-IsStable (get_ref id) _ (get_ref-IsStable id) λ i.
    bind-IsStable (minix_raw_inode i.i_ino) _ (minix_raw_inode-IsStable i.i_ino) λ raw.
      option-IsStable raw (pure 0) (λ (bh, a). store_through bh (inode_to_raw a i) >> pure 0)
        (λ s. refl)
        λ (bh, a).
          bind-IsStable (store_through bh (inode_to_raw a i)) _
            (store_through-IsStable bh (inode_to_raw a i)) λ _ s. refl

generic_drop_inode-IsStable : (id : ℕ) → IsStable (generic_drop_inode id)
unfolding generic_drop_inode minix_destroy_inode
generic_drop_inode-IsStable id =
    bind-IsStable (minix_write_inode id) _ (minix_write_inode-IsStable id)
      λ _. bind-IsStable (get_ref id) _ (get_ref-IsStable id) λ i. put_ref-IsStable id _

-- So does `put_inode`.
pub put_inode-IsStable : (id : ℕ) → IsStable (put_inode id)
unfolding put_inode
put_inode-IsStable id = bind-IsStable (get_ref id) _ (get_ref-IsStable id) λ i.
    if-IsStable (i.i_count == 0) _ _ (λ s. refl)
      (bind-IsStable (put_ref id (record i { i_count = i.i_count - 1 })) _
        (put_ref-IsStable id (record i { i_count = i.i_count - 1 }))
        λ _.
          bind-IsStable (if i.i_count - 1 == 0 then generic_drop_inode id else pure tt) _
            (if-IsStable (i.i_count - 1 == 0) _ _ (generic_drop_inode-IsStable id) (λ s. refl))
            λ _ s. refl)
