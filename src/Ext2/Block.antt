-- ===== src/Ext2/Block.antt =====
-- What `ext2_read_block` of kernel/drivers/fs/ext2.c leaves in its buffer.
use dos.Prelude.{
  Option, ap, ap₂, arith, dec_lt, inl, inr, none, refl, some, suc, sym, zero, ℕ, ◌%◌, ◌*◌, ◌+◌, ◌-◌,
  ◌/◌, ◌<◌, ◌>>=◌, ◌^◌, ◌∙◌, ◌≡◌, ◌≤◌, ◌⊎◌,
}
use native.Mathlib.Nat.{
  zero-mul, mul_assoc, add-mul, add-zero, mul-div_cancel, add-mul-div_right, div-eq_of_lt,
}
use dos.Sectors.{copy_at, copy_at_in, copy_at_before, split_index}
use dos.Ext2.{
  IoDriver, Ext2, block_size, read_tries, sector_of, read_sectors, ext2_read_block, u16_at, u32_at,
}

-- One of the three tries reads the sector, and the buffer of the driver then has the bytes; what the tries before it give does not matter.
unfoldable pub IsRead : IoDriver → ℕ → (ℕ → ℕ) → Type 0
IsRead driver sector bytes = read_tries (λ try. driver.read_sector try sector) 3 1 ≡ some bytes

-- A sector is read if one of three tries reads it, and what the tries before give does not matter.
pub read_tries_lem :
    (read : ℕ → Option (ℕ → ℕ)) (bytes : ℕ → ℕ)
    → ((read 1 ≡ some bytes)
        ⊎ ((read 1 ≡ none) × (read 2 ≡ some bytes))
        ⊎ ((read 1 ≡ none) × (read 2 ≡ none) × (read 3 ≡ some bytes)))
    → read_tries read 3 1 ≡ some bytes
unfolding read_tries
read_tries_lem read bytes (inl first) = rw first refl
read_tries_lem read bytes (inr (inl (first, second))) = rw (first, second) refl
read_tries_lem read bytes (inr (inr (first, second, third))) = rw (first, second, third) refl

-- The byte at an index of the volume, which begins with the sector `start_lba` of a disk whose
-- sectors have the bytes `image`.
unfoldable pub volume_byte : IoDriver → Ext2 → (ℕ → ℕ → ℕ) → ℕ → ℕ
volume_byte driver fs image x =
    image (fs.start_lba + x / driver.sector_size) (x % driver.sector_size)

-- The byte of a block; the blocks stand one behind the other from the start of the volume on.
unfoldable pub block_byte : IoDriver → Ext2 → (ℕ → ℕ → ℕ) → ℕ → ℕ → ℕ
unfolding volume_byte
block_byte driver fs image lba a = volume_byte driver fs image (lba * block_size fs + a)

-- A block is so many whole sectors, which can be read within three tries, and it starts below byte
-- `2 ^ 32` of the volume and ends below sector `2 ^ 32` of the disk.
pub record IsBlock (driver : IoDriver) (fs : Ext2) (image : ℕ → ℕ → ℕ) (lba : ℕ) : Type 0 where
  pub some_bytes : 0 < driver.sector_size
  pub count : ℕ
  pub whole : block_size fs ≡ count * driver.sector_size
  pub small : lba * block_size fs < 2 ^ 32
  pub on_disk : fs.start_lba + lba * count + count ≤ 2 ^ 32
  pub sectors :
      (s : ℕ)
      → s < count
      → IsRead driver (fs.start_lba + lba * count + s) (image (fs.start_lba + lba * count + s))

module _ {driver : IoDriver} {fs : Ext2} {image : ℕ → ℕ → ℕ} {lba : ℕ}
    (b : IsBlock driver fs image lba) where
  -- The sectors in front of the block.
  before_block : lba * block_size fs ≡ lba * b.count * driver.sector_size
  before_block = ap (λ (t : ℕ). lba * t) b.whole ∙ sym (mul_assoc lba b.count driver.sector_size)

  sector_of-index :
      (s : ℕ)
      → s < b.count
      → sector_of driver fs lba (s * driver.sector_size) ≡ fs.start_lba + lba * b.count + s
  unfolding sector_of
  sector_of-index s lt =
      let plain : lba * block_size fs % 2 ^ 32 ≡ lba * b.count * driver.sector_size =
        omega (arith, b.small, before_block) in
      let first : lba * block_size fs % 2 ^ 32 / driver.sector_size ≡ lba * b.count =
        ap (λ (t : ℕ). t / driver.sector_size) plain
        ∙ mul-div_cancel (lba * b.count) b.some_bytes in
      let index : s * driver.sector_size / driver.sector_size ≡ s = mul-div_cancel s b.some_bytes in
      ap₂ (λ (x y : ℕ). (fs.start_lba + x + y) % 2 ^ 32) first index ∙ omega (arith, b.on_disk, lt)

  -- The bytes of a sector of the block are those of the volume.
  sector_byte :
      (s a : ℕ)
      → s * driver.sector_size ≤ a
      → a < s * driver.sector_size + driver.sector_size
      → image (fs.start_lba + lba * b.count + s) (a - s * driver.sector_size)
        ≡ block_byte driver fs image lba a
  unfolding block_byte volume_byte
  sector_byte s a low high =
      let ss = driver.sector_size in
      let x = lba * block_size fs + a in
      let start : (lba * b.count + s) * ss ≡ lba * block_size fs + s * ss =
        add-mul (lba * b.count) s ss ∙ ap (λ (t : ℕ). t + s * ss) (sym before_block) in
      let (index, place) =
        split_index ss (lba * b.count + s) x b.some_bytes (omega (arith, start, low))
          (omega (arith, start, high)) in
      let sector : fs.start_lba + lba * b.count + s ≡ fs.start_lba + x / ss =
        omega (arith, index) in
      let offset : a - s * ss ≡ x % ss = omega (arith, place, start) in ap₂ image sector offset

  sectors_step :
      (left s : ℕ) (buffer : ℕ → ℕ)
      → s < b.count
      → read_sectors (suc left) driver fs lba (s * driver.sector_size) buffer
        ≡ read_sectors left driver fs lba (s * driver.sector_size + driver.sector_size) (
            copy_at
              (s * driver.sector_size)
              driver.sector_size
              (image (fs.start_lba + lba * b.count + s))
              buffer)
  unfolding read_sectors IsRead
  sectors_step left s buffer lt =
      ap
        (λ o. o >>= λ io_buffer.
          read_sectors left driver fs lba (s * driver.sector_size + driver.sector_size)
            (copy_at (s * driver.sector_size) driver.sector_size io_buffer buffer))
        (ap (λ t. read_tries (λ try. driver.read_sector try t) 3 1) (sector_of-index s lt)
          ∙ b.sectors s lt)

  read_sectors_lem :
      (left s : ℕ) (buffer : ℕ → ℕ)
      → s + left ≡ b.count
      → (block : ℕ → ℕ) × (read_sectors left driver fs lba (s * driver.sector_size) buffer
          ≡ some block)
        × ((a : ℕ) → a < s * driver.sector_size → block a ≡ buffer a)
        × ((a : ℕ)
            → s * driver.sector_size ≤ a
            → a < (s + left) * driver.sector_size
            → block a ≡ block_byte driver fs image lba a)
  unfolding read_sectors
  read_sectors_lem zero s buffer all =
      let plain : s + 0 ≡ s = omega arith in
      let same = ap (λ (t : ℕ). t * driver.sector_size) plain in
      (buffer, refl, λ a low. refl, λ a low high. absurd (omega (arith, same, low, high)))
  read_sectors_lem (suc left) s buffer all =
      let ss = driver.sector_size in
      let stored = copy_at (s * ss) ss (image (fs.start_lba + lba * b.count + s)) buffer in
      let (block, run, before, behind) = read_sectors_lem left (s + 1) stored (omega arith) in
      let next : s * ss + ss ≡ (s + 1) * ss = grind arith in
      let sum : s + 1 + left ≡ s + suc left = omega arith in
      let total = ap (λ (t : ℕ). t * ss) sum in
      (
        block,
        sectors_step left s buffer (omega arith)
            ∙ ap (λ t. read_sectors left driver fs lba t stored) next
            ∙ run,
        λ a low.
            before a (omega (arith, next, low))
            ∙ copy_at_before (s * ss) ss (image (fs.start_lba + lba * b.count + s)) buffer a low,
        λ a low high. elim (dec_lt a ((s + 1) * ss)) [
          | yes here ↦
              before a here
              ∙ copy_at_in (s * ss) ss (image (fs.start_lba + lba * b.count + s)) buffer a low
                  (omega (arith, next, here))
              ∙ sector_byte s a low (omega (arith, next, here))
          | no later ↦ behind a (omega (arith, later)) (omega (arith, total, high))
        ],
      )

-- `ext2_read_block` of a block whose sectors can each be read within three tries gives the bytes of
-- the volume at the place of the block.
pub ext2_read_block_lem :
    (driver : IoDriver) (fs : Ext2) (image : ℕ → ℕ → ℕ) (lba : ℕ) (buffer : ℕ → ℕ)
    → IsBlock driver fs image lba
    → (block : ℕ → ℕ) × (ext2_read_block driver fs lba buffer ≡ some block)
      × ((a : ℕ) → a < block_size fs → block a ≡ block_byte driver fs image lba a)
unfolding ext2_read_block
ext2_read_block_lem driver fs image lba buffer b =
    let ss = driver.sector_size in
    let (block, run, before, inside) = read_sectors_lem b b.count 0 buffer (omega arith) in
    let rounds : (block_size fs + ss - 1) / ss ≡ b.count =
      let up : block_size fs + ss - 1 ≡ ss - 1 + b.count * ss =
        omega (arith, b.whole, b.some_bytes) in
      ap (λ (t : ℕ). t / ss) up
      ∙ add-mul-div_right (ss - 1) b.count b.some_bytes
      ∙ omega (arith, div-eq_of_lt {n = ss - 1} {m = ss} (omega (arith, b.some_bytes))) in
    let start : 0 ≡ 0 * ss = sym (zero-mul ss) in
    let plain : 0 + b.count ≡ b.count = omega arith in
    let end = ap (λ (t : ℕ). t * ss) plain in
    (
      block,
      ap₂ (λ (r i : ℕ). read_sectors r driver fs lba i buffer) rounds start ∙ run,
      λ a lt. inside a (omega (arith, start)) (omega (arith, end, b.whole, lt)),
    )

-- Numbers of two and four bytes, the low byte first.
abbrev pub little_endian16 : (ℕ → ℕ) → ℕ → ℕ
little_endian16 bytes a = bytes a + 256 * bytes (a + 1)

abbrev pub little_endian32 : (ℕ → ℕ) → ℕ → ℕ
little_endian32 bytes a =
    bytes a + 256 * (bytes (a + 1) + 256 * (bytes (a + 2) + 256 * bytes (a + 3)))

pub u16_at-bytes :
    (buffer bytes : ℕ → ℕ) (a c : ℕ)
    → ((j : ℕ) → j < 2 → buffer (a + j) ≡ bytes (c + j))
    → u16_at buffer a ≡ little_endian16 bytes c
unfolding u16_at
u16_at-bytes buffer bytes a c same =
    let first : buffer a ≡ bytes c =
      ap buffer (sym (add-zero a)) ∙ same 0 (omega arith) ∙ ap bytes (add-zero c) in
    omega (arith, first, same 1 (omega arith))

pub u32_at-bytes :
    (buffer bytes : ℕ → ℕ) (a c : ℕ)
    → ((j : ℕ) → j < 4 → buffer (a + j) ≡ bytes (c + j))
    → u32_at buffer a ≡ little_endian32 bytes c
unfolding u32_at u16_at
u32_at-bytes buffer bytes a c same =
    let first : buffer a ≡ bytes c =
      ap buffer (sym (add-zero a)) ∙ same 0 (omega arith) ∙ ap bytes (add-zero c) in
    let last : buffer (a + 2 + 1) ≡ bytes (c + 3) =
      let three : a + 2 + 1 ≡ a + 3 = omega arith in ap buffer three ∙ same 3 (omega arith) in
    omega (arith, first, same 1 (omega arith), same 2 (omega arith), last)
