-- ===== src/Ext2/Read/Pointers.antt =====
-- The blocks of pointers that `ext2_read` of kernel/drivers/fs/ext2.c goes through.
use dos.Prelude.{
  ==_false_of_ne, Bool-cases, List, [], ap, append-nil, arith, dec_lt, false, if◌then◌else◌, inl,
  inr, ltb, min, refl, subst, suc, sym, tabulate, tabulate_ext, zero, ℕ, ◌*◌, ◌++◌, ◌+◌, ◌-◌, ◌<◌,
  ◌==◌, ◌∙◌, ◌≡◌, ◌≢◌, ◌≤◌,
}
use native.Mathlib.Nat.{zero-mul, suc-mul, le_refl}
use dos.Sectors.{copy_sector_lem, piece_byte, piece_byte_first, piece_byte_join}
use dos.Vfs.{ok}
use dos.Ext2.{IoDriver, Ext2, block_size}
use dos.Ext2.Block.{IsBlock, block_byte, ext2_read_block_lem}
use dos.Ext2.Read.{copy_data, read_pointers}

-- A pointer to a block that can be read.
pub record IsData (driver : IoDriver) (fs : Ext2) (image : ℕ → ℕ → ℕ) (pointer : ℕ) : Type 0 where
  pub used : pointer ≢ 0
  pub block : IsBlock driver fs image pointer

module _ (driver : IoDriver) (uninitialised : ℕ → ℕ) (fs : Ext2) (image : ℕ → ℕ → ℕ) where
  module _ (pointers : ℕ → ℕ) where
    abbrev pub data_byte : ℕ → ℕ → ℕ
    data_byte n a = block_byte driver fs image (pointers n) a

    pointers_end :
        (left i off : ℕ) → read_pointers driver uninitialised fs left pointers i off 0 ≡ ok []
    unfolding read_pointers
    pointers_end zero i off = refl
    pointers_end (suc left) i off = elim (Bool-cases (pointers i == 0)) [
      | inl e ↦ rw e refl
      | inr e ↦ rw e refl
    ]

    pointers_none :
        (i count : ℕ) → read_pointers driver uninitialised fs 0 pointers i 0 count ≡ ok []
    unfolding read_pointers
    pointers_none i count = refl

    pointers_round :
        (left i count to_read : ℕ) (rest : List ℕ)
        → IsData driver fs image (pointers i)
        → 0 < count
        → (if ltb count (block_size fs) then count else block_size fs) ≡ to_read
        → to_read ≤ block_size fs
        → read_pointers driver uninitialised fs left pointers (i + 1) 0 (count - to_read) ≡ ok rest
        → read_pointers driver uninitialised fs (suc left) pointers i 0 count
          ≡ ok (tabulate to_read 0 (data_byte i) ++ rest)
    unfolding read_pointers copy_data
    pointers_round left i count to_read rest readable more size le run =
        let used : (pointers i == 0) ≡ false = ==_false_of_ne (pointers i) 0 readable.used in
        let wanted : (count == 0) ≡ false = ground arith in
        let (block, found, same) =
          ext2_read_block_lem driver fs image (pointers i) uninitialised readable.block in
        rw (used, wanted, size, found, run, copy_sector_lem)
          (ap (λ t. ok (t ++ rest))
            (tabulate_ext to_read 0 0 block (data_byte i) λ k lt. same (0 + k) (omega (arith, lt))))

    -- Blocks from their start on, as many as there are pointers.
    pub read_pointers_lem :
        (left i count : ℕ)
        → 0 < block_size fs
        → ((n : ℕ)
            → i ≤ n
            → n < i + left
            → n * block_size fs < i * block_size fs + count
            → IsData driver fs image (pointers n))
        → read_pointers driver uninitialised fs left pointers i 0 count
          ≡ ok (
              tabulate
                (min count (left * block_size fs))
                0
                (piece_byte data_byte (block_size fs) 0 i))
    read_pointers_lem left i zero some_bytes readable =
        let nothing : 0 ≡ min 0 (left * block_size fs) = omega arith in
        pointers_end left i 0
        ∙ ap (λ t. ok (tabulate t 0 (piece_byte data_byte (block_size fs) 0 i))) nothing
    read_pointers_lem zero i (suc c) some_bytes readable =
        let nothing : 0 ≡ min (suc c) (0 * block_size fs) =
          omega (arith, zero-mul (block_size fs)) in
        pointers_none i (suc c)
        ∙ ap (λ t. ok (tabulate t 0 (piece_byte data_byte (block_size fs) 0 i))) nothing
    read_pointers_lem (suc left) i (suc c) some_bytes readable =
        let bs = block_size fs in
        let width = suc-mul left bs in
        let next : (i + 1) * bs ≡ i * bs + bs = grind arith in
        let here = readable i (omega arith) (omega arith) (omega arith) in
        elim (dec_lt (suc c) bs) [
          | yes last ↦
              let size : (if ltb (suc c) (block_size fs) then suc c else block_size fs) ≡ suc c =
                ground arith in
              let none_left : 0 ≡ suc c - suc c = omega arith in
              let all_of_it : suc c ≡ min (suc c) (suc left * bs) = omega (arith, width, last) in
              let rest : read_pointers driver uninitialised fs left pointers (i + 1) 0
                    (suc c - suc c)
                  ≡ ok [] =
                subst (λ t. read_pointers driver uninitialised fs left pointers (i + 1) 0 t ≡ ok [])
                  none_left (pointers_end left (i + 1) 0) in
              pointers_round left i (suc c) (suc c) [] here (omega arith) size (omega arith) rest
              ∙ ap (λ t. ok t)
                  (append-nil (tabulate (suc c) 0 (data_byte i))
                    ∙ piece_byte_first data_byte bs 0 i (suc c) (omega arith)
                    ∙ ap (λ t. tabulate t 0 (piece_byte data_byte bs 0 i)) all_of_it)
          | no more ↦
              let size : (if ltb (suc c) (block_size fs) then suc c else block_size fs)
                  ≡ block_size fs =
                ground arith in
              let after_one : suc i ≡ i + 1 = omega arith in
              let piece = min (suc c - bs) (left * bs) in
              let rest : read_pointers driver uninitialised fs left pointers (i + 1) 0 (suc c - bs)
                  ≡ ok (tabulate piece 0 (piece_byte data_byte bs 0 (suc i))) =
                read_pointers_lem left (i + 1) (suc c - bs) some_bytes (λ n low below high.
                  readable n (omega arith) (omega arith) (omega (arith, next, high, more)))
                ∙ ap (λ t. ok (tabulate piece 0 (piece_byte data_byte bs 0 t))) (sym after_one) in
              let whole : bs + piece ≡ min (suc c) (suc left * bs) = omega (arith, width, more) in
              pointers_round left i (suc c) bs
                (tabulate piece 0 (piece_byte data_byte bs 0 (suc i))) here (omega arith) size
                (le_refl bs) rest
              ∙ ap (λ t. ok t)
                  (piece_byte_join data_byte bs 0 i piece some_bytes
                    ∙ ap (λ t. tabulate t 0 (piece_byte data_byte bs 0 i)) whole)
        ]
