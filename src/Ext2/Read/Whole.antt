-- ===== src/Ext2/Read/Whole.antt =====
-- What `ext2_read` of kernel/drivers/fs/ext2.c reads.
use dos.Prelude.{
  ap, ap₂, arith, false, get_or, if◌then◌else◌, leb, length-tabulate, ltb, min, refl, some, sym,
  tabulate, tabulate_ext, ℕ, ◌%◌, ◌*◌, ◌+◌, ◌-◌, ◌/◌, ◌<◌, ◌^◌, ◌∙◌, ◌≡◌, ◌≤◌,
}
use native.Mathlib.Nat.{
  mul-add-div_right, mul-add-mod_self_right, div-add-mod', add-mul, le_of_mul-le-mul_right,
}
use dos.Sectors.{piece_byte}
use dos.Vfs.{ok}
use dos.Ext2.{IoDriver, Ext2, Ext2Inode, Ext2Stat, block_size}
use dos.Ext2.Block.{block_byte}
use dos.Ext2.Inode.{some_block}
use dos.Ext2.Read.{read_pointers, read_inode, ext2_read}
use dos.Ext2.Read.Pointers.{IsData, read_pointers_lem}
use dos.Ext2.Read.Stages.{inode_direct}

-- A read that starts in a file, at the start of a block.
pub record IsRead (fs : Ext2) (st : Ext2Stat) (f : Ext2Inode) (count offset : ℕ) : Type 0 where
  pub file : st.st_private ≡ some f
  pub inside : offset < f.size
  pub plain : offset + count < 2 ^ 32
  pub aligned : offset % block_size fs ≡ 0

-- The byte of a file at an index, by the pointers to its blocks.
abbrev pub file_byte : IoDriver → Ext2 → (ℕ → ℕ → ℕ) → (ℕ → ℕ) → ℕ → ℕ
file_byte driver fs image pointers a =
    block_byte driver fs image (pointers (a / block_size fs)) (a % block_size fs)

pub read_run :
    (driver : IoDriver) (uninitialised : ℕ → ℕ) (fs : Ext2) (st : Ext2Stat) (f : Ext2Inode)
    (count offset : ℕ)
    → IsRead fs st f count offset
    → ext2_read driver uninitialised fs st count offset
      ≡ read_inode driver uninitialised fs f (min (offset + count) f.size - offset) offset
unfolding ext2_read
read_run driver uninitialised fs st f count offset r =
    let within : leb f.size offset ≡ false = ground (arith, r.inside) in
    let cut : (if ltb f.size ((offset + count) % 2 ^ 32) then f.size - offset else count)
        ≡ min (offset + count) f.size - offset =
      let same : (offset + count) % 2 ^ 32 ≡ offset + count = omega (arith, r.plain) in
      rw same (ground (arith, r.inside)) in
    rw (r.file, within, cut) refl

-- The bytes of a file from the start of its block `q` on.
pub file_bytes :
    (driver : IoDriver) (fs : Ext2) (image : ℕ → ℕ → ℕ) (pointers : ℕ → ℕ) (n q start : ℕ)
    → q * block_size fs ≡ start
    → tabulate n 0
        (piece_byte (λ m a. block_byte driver fs image (pointers m) a) (block_size fs) 0 q)
      ≡ tabulate n start (file_byte driver fs image pointers)
file_bytes driver fs image pointers n q start e =
    let bs = block_size fs in
    tabulate_ext n 0 start (piece_byte (λ m a. block_byte driver fs image (pointers m) a) bs 0 q)
      (file_byte driver fs image pointers)
      λ k lt.
        let plain : 0 + k ≡ k = omega arith in
        let at : q * bs + k ≡ start + k = omega (arith, e) in
        let index : q + k / bs ≡ (start + k) / bs =
          sym (mul-add-div_right (some_block fs) q k) ∙ ap (λ (t : ℕ). t / bs) at in
        let first : 0 + k % bs ≡ k % bs = omega arith in
        let place : 0 + k % bs ≡ (start + k) % bs =
          first ∙ sym (mul-add-mod_self_right q bs k) ∙ ap (λ (t : ℕ). t % bs) at in
        ap (piece_byte (λ m a. block_byte driver fs image (pointers m) a) bs 0 q) plain
        ∙ ap₂ (λ (x y : ℕ). block_byte driver fs image (pointers x) y) index place

-- `ext2_read` at an offset inside the file that is the start of a block, to a byte within the first
-- 12 blocks, gives the bytes of the file from the offset on, to the end of the file at most, if the
-- blocks up to there can be read and start within the first `2 ^ 32` bytes of the volume, no
-- pointer to them is 0 and `offset + count` does not wrap.
pub ext2_read_direct :
    (driver : IoDriver) (uninitialised : ℕ → ℕ) (fs : Ext2) (image : ℕ → ℕ → ℕ) (st : Ext2Stat)
    (f : Ext2Inode) (count offset : ℕ)
    → IsRead fs st f count offset
    → min (offset + count) f.size ≤ 12 * block_size fs
    → ((n : ℕ)
        → n * block_size fs < min (offset + count) f.size
        → IsData driver fs image (get_or f.direct_block_pointers n 0))
    → ext2_read driver uninitialised fs st count offset
      ≡ ok (
          tabulate
            (min (offset + count) f.size - offset)
            offset
            (file_byte driver fs image (λ n. get_or f.direct_block_pointers n 0)))
ext2_read_direct driver uninitialised fs image st f count offset r near readable =
    let bs = block_size fs in
    let q = offset / bs in
    let wanted = min (offset + count) f.size - offset in
    let pointers : ℕ → ℕ = λ n. get_or f.direct_block_pointers n 0 in
    let start : q * bs ≡ offset = omega (arith, div-add-mod' offset bs, r.aligned) in
    let inside : q ≤ 12 =
      le_of_mul-le-mul_right {m = q} {n = 12} {k = bs} (omega (arith, start, near, r.inside))
        (some_block fs) in
    let rest : (12 - q) * bs + q * bs ≡ 12 * bs =
      let sum : 12 - q + q ≡ 12 = omega (arith, inside) in
      sym (add-mul (12 - q) q bs) ∙ ap (λ (t : ℕ). t * bs) sum in
    let room : min wanted ((12 - q) * bs) ≡ wanted = omega (arith, rest, start, near) in
    let run =
      ap (λ t. read_pointers driver uninitialised fs (12 - q) pointers q t wanted) r.aligned
      ∙ read_pointers_lem driver uninitialised fs image pointers (12 - q) q wanted (some_block fs)
          (λ n low below high. readable n (omega (arith, start, high, r.inside)))
      ∙ ap
          (λ t.
            ok
              (tabulate t 0 (piece_byte (λ m a. block_byte driver fs image (pointers m) a) bs 0 q)))
          room in
    read_run driver uninitialised fs st f count offset r
    ∙ inode_direct driver uninitialised fs f wanted offset
        (tabulate wanted 0 (piece_byte (λ m a. block_byte driver fs image (pointers m) a) bs 0 q))
        run
        (length-tabulate wanted 0
          (piece_byte (λ m a. block_byte driver fs image (pointers m) a) bs 0 q))
    ∙ ap (λ t. ok t) (file_bytes driver fs image pointers wanted q offset start)
