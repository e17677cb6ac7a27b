-- ===== src/Ext2/Read/Indirect.antt =====
-- What `ext2_read` of kernel/drivers/fs/ext2.c reads through the singly indirect block.
use dos.Prelude.{
  Bool-cases, ap, ap₂, arith, false, get_or, if◌then◌else◌, inl, inr, length, length-append,
  length-tabulate, ltb, min, refl, some, subst, sym, tabulate, tabulate_append, tabulate_ext, true,
  ℕ, ◌%◌, ◌*◌, ◌++◌, ◌+◌, ◌-◌, ◌/◌, ◌<◌, ◌∙◌, ◌≡◌, ◌≢◌, ◌≤◌,
}
use native.Mathlib.Nat.{
  zero-div, zero-mod, zero-mul, add-mul, mul-add-div_right, mul-add-mod_self_right,
  div-lt_iff_lt-mul, lt_of_mul-lt-mul_right, div-mul-le_self,
}
use dos.Sectors.{piece_byte}
use dos.Vfs.{ok}
use dos.Ext2.{IoDriver, Ext2, Ext2Inode, Ext2Stat, block_size, u32_at, ext2_read_block}
use dos.Ext2.Block.{block_byte, ext2_read_block_lem, little_endian32, u32_at-bytes}
use dos.Ext2.Inode.{some_block}
use dos.Ext2.Read.{read_pointers, read_inode, ext2_read}
use dos.Ext2.Read.Pointers.{IsData, read_pointers_lem}
use dos.Ext2.Read.Stages.{inode_singly, read_singly_start}
use dos.Ext2.Read.Whole.{IsRead, file_byte, read_run, file_bytes}

-- The pointers of a file to its blocks, with those in the singly indirect block.
abbrev pub file_pointer : Ext2Inode → (ℕ → ℕ) → ℕ → ℕ
file_pointer f table n =
    if ltb n 12 then get_or f.direct_block_pointers n 0 else u32_at table (4 * (n - 12))

module _ (f : Ext2Inode) (table : ℕ → ℕ) where
  pointer_direct : (n : ℕ) → n < 12 → file_pointer f table n ≡ get_or f.direct_block_pointers n 0
  pointer_direct n lt = let t : ltb n 12 ≡ true = ground arith in rw t refl

  pointer_indirect : (n : ℕ) → file_pointer f table (12 + n) ≡ u32_at table (4 * n)
  pointer_indirect n =
      let t : ltb (12 + n) 12 ≡ false = ground arith in
      let back : 12 + n - 12 ≡ n = omega arith in rw (t, back) refl

  module _ (driver : IoDriver) (fs : Ext2) (image : ℕ → ℕ → ℕ) where
    -- The bytes of the first 12 blocks and those of the blocks behind them.
    front_bytes :
        tabulate
          (12 * block_size fs)
          0
          (file_byte driver fs image (λ n. get_or f.direct_block_pointers n 0))
        ≡ tabulate (12 * block_size fs) 0 (file_byte driver fs image (file_pointer f table))
    front_bytes =
        tabulate_ext (12 * block_size fs) 0 0
          (file_byte driver fs image (λ n. get_or f.direct_block_pointers n 0))
          (file_byte driver fs image (file_pointer f table))
          λ k lt.
            let below : (0 + k) / block_size fs < 12 =
              (div-lt_iff_lt-mul (some_block fs)).1 (omega (arith, lt)) in
            ap (λ t. block_byte driver fs image t ((0 + k) % block_size fs))
              (sym (pointer_direct ((0 + k) / block_size fs) below))

    back_bytes :
        (n : ℕ)
        → tabulate n 0 (file_byte driver fs image (λ m. u32_at table (4 * m)))
          ≡ tabulate n (0 + 12 * block_size fs) (file_byte driver fs image (file_pointer f table))
    back_bytes n =
        let bs = block_size fs in
        tabulate_ext n 0 (0 + 12 * bs) (file_byte driver fs image (λ m. u32_at table (4 * m)))
          (file_byte driver fs image (file_pointer f table))
          λ k lt.
            let plain : 0 + k ≡ k = omega arith in
            let at : 12 * bs + k ≡ 0 + 12 * bs + k = omega arith in
            ap (file_byte driver fs image (λ m. u32_at table (4 * m))) plain
            ∙ ap₂ (block_byte driver fs image) (sym (pointer_indirect (k / bs)))
                (sym (mul-add-mod_self_right 12 bs k))
            ∙ ap (λ t. block_byte driver fs image (file_pointer f table t) ((12 * bs + k) % bs))
                (sym (mul-add-div_right (some_block fs) 12 k))
            ∙ ap (file_byte driver fs image (file_pointer f table)) at

-- The read with the pointers in what `ext2_read_block` gives for the singly indirect block.
indirect_table :
    (driver : IoDriver) (uninitialised : ℕ → ℕ) (fs : Ext2) (image : ℕ → ℕ → ℕ) (st : Ext2Stat)
    (f : Ext2Inode) (table : ℕ → ℕ) (count len : ℕ)
    → IsRead fs st f count 0
    → min count f.size ≡ len
    → 12 * block_size fs < len
    → len ≤ 12 * block_size fs + block_size fs / 4 * block_size fs
    → f.singly_indirect_block_pointer ≢ 0
    → ext2_read_block driver fs f.singly_indirect_block_pointer uninitialised ≡ some table
    → ((n : ℕ) → n * block_size fs < len → IsData driver fs image (file_pointer f table n))
    → ext2_read driver uninitialised fs st count 0
      ≡ ok (tabulate len 0 (file_byte driver fs image (file_pointer f table)))
indirect_table driver uninitialised fs image st f table count len r all far near used found
      readable =
    let bs = block_size fs in
    let direct : ℕ → ℕ = λ n. get_or f.direct_block_pointers n 0 in
    let indirect : ℕ → ℕ = λ n. u32_at table (4 * n) in
    let zero_blocks : 0 * bs ≡ 0 = zero-mul bs in
    let wanted : min (0 + count) f.size - 0 ≡ len = omega (arith, all) in
    let front = tabulate (12 * bs) 0 (file_byte driver fs image direct) in
    let back = tabulate (len - 12 * bs) 0 (file_byte driver fs image indirect) in
    let front_size : length front ≡ 12 * bs =
      length-tabulate (12 * bs) 0 (file_byte driver fs image direct) in
    let first : 0 / bs ≡ 0 = zero-div bs in
    let twelve : 12 - 0 / bs ≡ 12 = omega (arith, first) in
    let cut : min len (12 * bs) ≡ 12 * bs = omega (arith, far) in
    let run_front : read_pointers driver uninitialised fs (12 - 0 / bs) direct (0 / bs) (0 % bs) len
        ≡ ok front =
      ap₂ (λ (x y : ℕ). read_pointers driver uninitialised fs x direct y (0 % bs) len) twelve first
      ∙ ap (λ t. read_pointers driver uninitialised fs 12 direct 0 t len) (zero-mod bs)
      ∙ read_pointers_lem driver uninitialised fs image direct 12 0 len (some_block fs)
          (λ n low below high.
            subst (IsData driver fs image) (pointer_direct f table n (omega (arith, below)))
              (readable n (omega (arith, zero_blocks, high))))
      ∙ ap
          (λ t.
            ok (tabulate t 0 (piece_byte (λ m a. block_byte driver fs image (direct m) a) bs 0 0)))
          cut
      ∙ ap (λ t. ok t) (file_bytes driver fs image direct (12 * bs) 0 0 zero_blocks) in
    let rest_cut : min (len - length front) (bs / 4 * bs) ≡ len - 12 * bs =
      omega (arith, front_size, near) in
    let run_back : read_pointers driver uninitialised fs (bs / 4) indirect 0 0 (len - length front)
        ≡ ok back =
      read_pointers_lem driver uninitialised fs image indirect (bs / 4) 0 (len - length front)
        (some_block fs)
        (λ n low below high.
          subst (IsData driver fs image) (pointer_indirect f table n)
            (readable (12 + n) (omega (arith, zero_blocks, high, front_size, add-mul 12 n bs))))
      ∙ ap
          (λ t.
            ok
              (tabulate t 0 (piece_byte (λ m a. block_byte driver fs image (indirect m) a) bs 0 0)))
          rest_cut
      ∙ ap (λ t. ok t) (file_bytes driver fs image indirect (len - 12 * bs) 0 0 zero_blocks) in
    let some_front : 0 < length front = omega (arith, front_size, some_block fs) in
    let total : length (front ++ back) ≡ len = omega (
      arith,
      length-append front back,
      front_size,
      length-tabulate (len - 12 * bs) 0 (file_byte driver fs image indirect),
      far,
    ) in
    let whole : 12 * bs + (len - 12 * bs) ≡ len = omega (arith, far) in
    read_run driver uninitialised fs st f count 0 r
    ∙ ap (λ t. read_inode driver uninitialised fs f t 0) wanted
    ∙ inode_singly driver uninitialised fs f len 0 front back run_front
        (omega (arith, front_size, far)) used
        (read_singly_start driver uninitialised fs f.singly_indirect_block_pointer len table front
          back found some_front run_back)
        total
    ∙ ap (λ t. ok t)
        (ap₂ ◌++◌ (front_bytes f table driver fs image)
            (back_bytes f table driver fs image (len - 12 * bs))
          ∙ tabulate_append (12 * bs) (len - 12 * bs) 0
              (file_byte driver fs image (file_pointer f table))
          ∙ ap (λ t. tabulate t 0 (file_byte driver fs image (file_pointer f table))) whole)

-- The pointers of a file to its blocks: 12 in the inode, and those behind them as the numbers of
-- four bytes in the singly indirect block.
abbrev pub stored_pointer : IoDriver → Ext2 → (ℕ → ℕ → ℕ) → Ext2Inode → ℕ → ℕ
stored_pointer driver fs image f n =
    if ltb n 12
    then get_or f.direct_block_pointers n 0
    else little_endian32 (block_byte driver fs image f.singly_indirect_block_pointer) (4 * (n - 12))

file_pointer-stored :
    (driver : IoDriver) (fs : Ext2) (image : ℕ → ℕ → ℕ) (f : Ext2Inode) (table : ℕ → ℕ) (n : ℕ)
    → ((a : ℕ)
        → a < block_size fs
        → table a ≡ block_byte driver fs image f.singly_indirect_block_pointer a)
    → n * block_size fs < 12 * block_size fs + block_size fs / 4 * block_size fs
    → file_pointer f table n ≡ stored_pointer driver fs image f n
file_pointer-stored driver fs image f table n same near =
    let bs = block_size fs in
    let few : n < 12 + bs / 4 =
      lt_of_mul-lt-mul_right bs {m = n} {n = 12 + bs / 4}
        (omega (arith, near, add-mul 12 (bs / 4) bs)) in
    elim (Bool-cases (ltb n 12)) [
      | inl direct ↦ rw direct refl
      | inr later ↦ rw later (
          u32_at-bytes table (block_byte driver fs image f.singly_indirect_block_pointer)
            (4 * (n - 12)) (4 * (n - 12))
            (λ j lt. same (4 * (n - 12) + j) (ground (arith, few, lt, later))))
    ]

-- `ext2_read` from the start of a file, to a byte behind the first 12 blocks and within those of
-- the singly indirect block, gives the bytes of the file up to there, if that block and all blocks
-- up to there can be read and start within the first `2 ^ 32` bytes of the volume and no pointer to
-- them is 0. The pointers to the blocks behind the first 12 are the numbers that the singly
-- indirect block has on the disk.
pub ext2_read_indirect :
    (driver : IoDriver) (uninitialised : ℕ → ℕ) (fs : Ext2) (image : ℕ → ℕ → ℕ) (st : Ext2Stat)
    (f : Ext2Inode) (count len : ℕ)
    → IsRead fs st f count 0
    → min count f.size ≡ len
    → 12 * block_size fs < len
    → len ≤ 12 * block_size fs + block_size fs / 4 * block_size fs
    → IsData driver fs image f.singly_indirect_block_pointer
    → ((n : ℕ)
        → n * block_size fs < len
        → IsData driver fs image (stored_pointer driver fs image f n))
    → ext2_read driver uninitialised fs st count 0
      ≡ ok (tabulate len 0 (file_byte driver fs image (stored_pointer driver fs image f)))
ext2_read_indirect driver uninitialised fs image st f count len r all far near pointers readable =
    let bs = block_size fs in
    let (table, found, same) =
      ext2_read_block_lem driver fs image f.singly_indirect_block_pointer uninitialised
        pointers.block in
    let agrees : (n : ℕ)
        → n * bs < len
        → file_pointer f table n ≡ stored_pointer driver fs image f n =
      λ n lt. file_pointer-stored driver fs image f table n same (omega (arith, lt, near)) in
    indirect_table driver uninitialised fs image st f table count len r all far near pointers.used
      found (λ n lt. subst (IsData driver fs image) (sym (agrees n lt)) (readable n lt))
    ∙ ap (λ t. ok t)
        (tabulate_ext len 0 0 (file_byte driver fs image (file_pointer f table))
          (file_byte driver fs image (stored_pointer driver fs image f))
          λ k lt.
            let block = (0 + k) / bs in
            let before : block * bs ≤ 0 + k = div-mul-le_self (0 + k) bs in
            ap (λ t. block_byte driver fs image t ((0 + k) % bs))
              (agrees block (omega (arith, before, lt))))
