-- ===== src/Ext2/Read/Stages.antt =====
-- The stages of `ext2_read` of kernel/drivers/fs/ext2.c: the pointers in the inode, and the blocks of pointers.
use dos.Prelude.{
  ==_false_of_ne, List, ap, ap₂, arith, false, get_or, length, ltb, refl, some, true, ℕ, ◌%◌, ◌*◌,
  ◌++◌, ◌-◌, ◌/◌, ◌<◌, ◌==◌, ◌∙◌, ◌≡◌, ◌≢◌,
}
use native.Mathlib.Nat.{zero-div, zero-mod}
use dos.Sectors.{prepend}
use dos.Vfs.{Result, ok}
use dos.Ext2.{IoDriver, Ext2, Ext2Inode, block_size, u32_at, ext2_read_block}
use dos.Ext2.Read.{
  after, with_pointers, ext2_read_singly_indirect_block_pointer, read_pointers, read_singly,
  read_doubly, read_triply, if_more, read_inode,
}

module _ (driver : IoDriver) (uninitialised : ℕ → ℕ) (fs : Ext2) where
  -- What is there already is enough.
  pub enough :
      (count offset pointer : ℕ) (add : ℕ → List ℕ → Result (List ℕ)) (bytes : List ℕ)
      → length bytes ≡ count
      → if_more driver uninitialised fs count offset add pointer bytes ≡ ok bytes
  enough count offset pointer add bytes full =
      let done : (count - length bytes == 0) ≡ true = ground (arith, full) in rw done refl

  module _ (f : Ext2Inode) (count offset : ℕ) where
    -- The pointers in the inode give all bytes, or those in the singly indirect block the rest.
    pub inode_direct :
        (bytes : List ℕ)
        → read_pointers driver uninitialised fs
            (12 - offset / block_size fs)
            (λ n. get_or f.direct_block_pointers n 0)
            (offset / block_size fs)
            (offset % block_size fs)
            count
          ≡ ok bytes
        → length bytes ≡ count
        → read_inode driver uninitialised fs f count offset ≡ ok bytes
    unfolding read_inode
    inode_direct bytes run full =
        let more = if_more driver uninitialised fs count offset in
        let doubly =
          more (read_doubly driver uninitialised fs count offset) f.doubly_indirect_block_pointer in
        let triply =
          more (read_triply driver uninitialised fs count offset) f.triply_indirect_block_pointer in
        ap
          (λ r.
            after
              (after
                (after r (
                  more (read_singly driver uninitialised fs count offset)
                    f.singly_indirect_block_pointer))
                doubly)
              triply)
          run
        ∙ ap (λ r. after (after r doubly) triply)
            (enough count offset f.singly_indirect_block_pointer
              (read_singly driver uninitialised fs count offset) bytes full)
        ∙ ap (λ r. after r triply)
            (enough count offset f.doubly_indirect_block_pointer
              (read_doubly driver uninitialised fs count offset) bytes full)
        ∙ enough count offset f.triply_indirect_block_pointer
            (read_triply driver uninitialised fs count offset) bytes full

    pub inode_singly :
        (bytes rest : List ℕ)
        → read_pointers driver uninitialised fs
            (12 - offset / block_size fs)
            (λ n. get_or f.direct_block_pointers n 0)
            (offset / block_size fs)
            (offset % block_size fs)
            count
          ≡ ok bytes
        → length bytes < count
        → f.singly_indirect_block_pointer ≢ 0
        → read_singly driver uninitialised fs count offset f.singly_indirect_block_pointer bytes
          ≡ ok (bytes ++ rest)
        → length (bytes ++ rest) ≡ count
        → read_inode driver uninitialised fs f count offset ≡ ok (bytes ++ rest)
    unfolding read_inode
    inode_singly bytes rest run short used singly full =
        let more = if_more driver uninitialised fs count offset in
        let doubly =
          more (read_doubly driver uninitialised fs count offset) f.doubly_indirect_block_pointer in
        let triply =
          more (read_triply driver uninitialised fs count offset) f.triply_indirect_block_pointer in
        let missing : (count - length bytes == 0) ≡ false = ground (arith, short) in
        let pointer : (f.singly_indirect_block_pointer == 0) ≡ false =
          ==_false_of_ne f.singly_indirect_block_pointer 0 used in
        let looked_at : more (read_singly driver uninitialised fs count offset)
              f.singly_indirect_block_pointer bytes
            ≡ ok (bytes ++ rest) =
          rw (missing, pointer) singly in
        ap
          (λ r.
            after
              (after
                (after r (
                  more (read_singly driver uninitialised fs count offset)
                    f.singly_indirect_block_pointer))
                doubly)
              triply)
          run
        ∙ ap (λ r. after (after r doubly) triply) looked_at
        ∙ ap (λ r. after r triply)
            (enough count offset f.doubly_indirect_block_pointer
              (read_doubly driver uninitialised fs count offset) (bytes ++ rest) full)
        ∙ enough count offset f.triply_indirect_block_pointer
            (read_triply driver uninitialised fs count offset) (bytes ++ rest) full

  -- The singly indirect block from its first pointer on.
  pub singly_start :
      (pointer count : ℕ) (table : ℕ → ℕ) (r : Result (List ℕ))
      → ext2_read_block driver fs pointer uninitialised ≡ some table
      → read_pointers driver uninitialised fs
          (block_size fs / 4)
          (λ n. u32_at table (4 * n))
          0
          0
          count
        ≡ r
      → ext2_read_singly_indirect_block_pointer driver uninitialised fs pointer count 0 ≡ r
  unfolding ext2_read_singly_indirect_block_pointer
  singly_start pointer count table r found run =
      let bs = block_size fs in
      let first : 0 / bs / 4 ≡ 0 = ap (λ (t : ℕ). t / 4) (zero-div bs) in
      let all_of_it : bs / 4 - 0 / bs / 4 ≡ bs / 4 = omega (arith, first) in
      let pointers : ℕ → ℕ = λ n. u32_at table (4 * n) in
      ap
        (with_pointers λ p.
          read_pointers driver uninitialised fs (bs / 4 - 0 / bs / 4) p (0 / bs / 4) (0 % bs) count)
        found
      ∙ ap₂ (λ (x y : ℕ). read_pointers driver uninitialised fs x pointers y (0 % bs) count)
          all_of_it first
      ∙ ap (λ t. read_pointers driver uninitialised fs (bs / 4) pointers 0 t count) (zero-mod bs)
      ∙ run

  pub read_singly_start :
      (pointer count : ℕ) (table : ℕ → ℕ) (bytes rest : List ℕ)
      → ext2_read_block driver fs pointer uninitialised ≡ some table
      → 0 < length bytes
      → read_pointers driver uninitialised fs
          (block_size fs / 4)
          (λ n. u32_at table (4 * n))
          0
          0
          (count - length bytes)
        ≡ ok rest
      → read_singly driver uninitialised fs count 0 pointer bytes ≡ ok (bytes ++ rest)
  unfolding read_singly
  read_singly_start pointer count table bytes rest found some_bytes run =
      let before : ltb 0 (length bytes) ≡ true = ground arith in
      rw before
        (ap (prepend bytes) (singly_start pointer (count - length bytes) table (ok rest) found run))
