-- ===== src/Ext2/Read.antt =====
-- `ext2_read` of kernel/drivers/fs/ext2.c.
pub mod Pointers
pub mod Stages
pub mod Whole
pub mod Indirect
use dos.Prelude.{
  List, Option, [], get_or, if◌then◌else◌, leb, length, ltb, none, some, suc, zero, ℕ, ◌%◌, ◌*◌,
  ◌+◌, ◌-◌, ◌/◌, ◌==◌, ◌^◌, ◌||◌,
}
use dos.Sectors.{copy_sector, prepend}
use dos.Vfs.{Result, ok, err, eio, ebadfd}
use dos.Ext2.{
  IoDriver, Ext2, Ext2Superblock, Ext2Inode, Ext2Stat, block_size, u32_at, ext2_read_block,
}

-- To go on with a result, if it is no error.
abbrev pub after : Result (List ℕ) → (List ℕ → Result (List ℕ)) → Result (List ℕ)
after (ok bytes) f = f bytes
after (err e) f = err e

-- The bytes from a block that has been read, or not, and those of the blocks behind it.
pub copy_data : ℕ → ℕ → Option (ℕ → ℕ) → Result (List ℕ) → Result (List ℕ)
copy_data off to_read none rest = err eio
copy_data off to_read (some block_buffer) rest = prepend (copy_sector block_buffer off to_read) rest

-- The work on a block of pointers that has been read, or not.
abbrev pub with_pointers : ((ℕ → ℕ) → Result (List ℕ)) → Option (ℕ → ℕ) → Result (List ℕ)
with_pointers f none = err eio
with_pointers f (some block) = f (λ i. u32_at block (4 * i))

module _ (driver : IoDriver) (uninitialised : ℕ → ℕ) (fs : Ext2) where
  -- The loop over data blocks, from the pointer `i` on, with so many pointers to go.
  pub read_pointers : ℕ → (ℕ → ℕ) → ℕ → ℕ → ℕ → Result (List ℕ)
  read_pointers zero pointers i off count = ok []
  read_pointers (suc left) pointers i off count =
      let to_read = if ltb count (block_size fs) then count else block_size fs in
      let rest = read_pointers left pointers (i + 1) off (count - to_read) in
      if pointers i == 0 || count == 0
      then ok []
      else copy_data off to_read (ext2_read_block driver fs (pointers i) uninitialised) rest

  pub ext2_read_singly_indirect_block_pointer : ℕ → ℕ → ℕ → Result (List ℕ)
  unfolding read_pointers
  ext2_read_singly_indirect_block_pointer block_pointer count offset =
      let i = offset / block_size fs / 4 in
      with_pointers
        (λ pointers.
          read_pointers (block_size fs / 4 - i) pointers i (offset % block_size fs) count)
        (ext2_read_block driver fs block_pointer uninitialised)

  -- What a read of `count` bytes at `offset` has so far, with what a block of pointers adds to it.
  module _ (count offset : ℕ) where
    pub read_singly : ℕ → List ℕ → Result (List ℕ)
    unfolding ext2_read_singly_indirect_block_pointer
    read_singly pointer bytes = prepend bytes (
        ext2_read_singly_indirect_block_pointer pointer (count - length bytes)
          (if ltb offset (length bytes) then 0 else offset - length bytes))

    -- The loop over the pointers in a block, each with what it adds.
    pub pointers_loop : ℕ → (ℕ → List ℕ → Result (List ℕ)) → (ℕ → ℕ) → ℕ → List ℕ → Result (List ℕ)
    pointers_loop zero add pointers i bytes = ok bytes
    pointers_loop (suc left) add pointers i bytes =
        let rest = after (add (pointers i) bytes) (pointers_loop left add pointers (i + 1)) in
        if count - length bytes == 0 || pointers i == 0 then ok bytes else rest

    pub read_doubly : ℕ → List ℕ → Result (List ℕ)
    unfolding read_singly pointers_loop
    read_doubly pointer bytes =
        with_pointers (λ pointers. pointers_loop (block_size fs / 4) read_singly pointers 0 bytes)
          (ext2_read_block driver fs pointer uninitialised)

    pub read_triply : ℕ → List ℕ → Result (List ℕ)
    unfolding read_doubly pointers_loop
    read_triply pointer bytes =
        with_pointers (λ pointers. pointers_loop (block_size fs / 4) read_doubly pointers 0 bytes)
          (ext2_read_block driver fs pointer uninitialised)

    -- A block of pointers is looked at if bytes are missing and there is one.
    abbrev pub if_more : (ℕ → List ℕ → Result (List ℕ)) → ℕ → List ℕ → Result (List ℕ)
    if_more add pointer bytes =
        if count - length bytes == 0 || pointer == 0 then ok bytes else add pointer bytes

  -- The bytes of an inode.
  pub read_inode : Ext2Inode → ℕ → ℕ → Result (List ℕ)
  read_inode f count offset =
      let i = offset / block_size fs in
      after
        (after
          (after
            (read_pointers (12 - i) (λ n. get_or f.direct_block_pointers n 0) i
              (offset % block_size fs) count)
            (if_more count offset (read_singly count offset) f.singly_indirect_block_pointer))
          (if_more count offset (read_doubly count offset) f.doubly_indirect_block_pointer))
        (if_more count offset (read_triply count offset) f.triply_indirect_block_pointer)

  -- The bytes that `ext2_read` writes to `buf`; it returns their number. `offset + count` may wrap.
  pub ext2_read : Ext2Stat → ℕ → ℕ → Result (List ℕ)
  ext2_read st count offset = elim st.st_private [
    | none ↦ err ebadfd
    | some f ↦
        let wanted = if ltb f.size ((offset + count) % 2 ^ 32) then f.size - offset else count in
        if leb f.size offset then ok [] else read_inode f wanted offset
  ]
