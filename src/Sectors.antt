-- ===== src/Sectors.antt =====
-- Buffers that the file systems of kernel/drivers/fs fill sector by sector, as functions from an index to
-- the byte there.
use dos.Prelude.{
  Bool-cases, List, ap, ap₂, arith, false, if◌then◌else◌, inl, inr, leb, ltb, refl, suc, sym,
  tabulate, tabulate_append, tabulate_ext, true, ℕ, ◌%◌, ◌&&◌, ◌*◌, ◌++◌, ◌+◌, ◌-◌, ◌/◌, ◌<◌, ◌∙◌,
  ◌≡◌, ◌≤◌,
}
use dos.Vfs.{Result, ok, err}
use native.Mathlib.Nat.{
  le_refl, mul_assoc, mul_comm, mul-add, div-add-mod', mod-lt, mul-lt-mul_of_pos_left, add-div_left,
  add-mod_left, mul-add-div_right, mul-add-mod_self_right, div-eq_of_lt, mod-eq_of_lt,
}

-- `memcpy` of so many bytes to an index of a buffer.
unfoldable pub copy_at : ℕ → ℕ → (ℕ → ℕ) → (ℕ → ℕ) → ℕ → ℕ
copy_at start len source buffer a =
    if leb start a && ltb a (start + len) then source (a - start) else buffer a

module _ (start len : ℕ) (source buffer : ℕ → ℕ) (a : ℕ) where
  pub copy_at_in :
      start ≤ a → a < start + len → copy_at start len source buffer a ≡ source (a - start)
  unfolding copy_at
  copy_at_in low high =
      let l : leb start a ≡ true = ground arith in
      let h : ltb a (start + len) ≡ true = ground arith in rw (l, h) refl

  pub copy_at_before : a < start → copy_at start len source buffer a ≡ buffer a
  unfolding copy_at
  copy_at_before low = let l : leb start a ≡ false = ground arith in rw l refl

-- The index of a sector and the place in it.
pub split_index :
    (width i a : ℕ)
    → 0 < width
    → i * width ≤ a
    → a < i * width + width
    → (i ≡ a / width) × (a - i * width ≡ a % width)
split_index width i a some_bytes low high =
    let off = a - i * width in
    let split : i * width + off ≡ a = omega arith in
    let none_more = div-eq_of_lt {n = off} {m = width} (omega arith) in
    let same = mod-eq_of_lt {n = off} {m = width} (omega arith) in
    (
      omega (arith, none_more, mul-add-div_right some_bytes i off, ap (λ (t : ℕ). t / width) split),
      sym same ∙ sym (mul-add-mod_self_right i width off) ∙ ap (λ (t : ℕ). t % width) split,
    )

-- The place of a record in a sector that holds a whole number of them.
pub scaled-mod : (c k m : ℕ) → 0 < c → 0 < m → c * k % (c * m) ≡ c * (k % m)
scaled-mod c k m some_bytes some_records =
    let split : k / m * (c * m) + c * (k % m) ≡ c * k =
      ap (λ t. t + c * (k % m))
        (sym (mul_assoc (k / m) c m)
          ∙ ap (λ (t : ℕ). t * m) (mul_comm (k / m) c)
          ∙ mul_assoc c (k / m) m)
      ∙ sym (mul-add c (k / m * m) (k % m))
      ∙ ap (λ (t : ℕ). c * t) (div-add-mod' k m) in
    let inside : c * (k % m) < c * m = mul-lt-mul_of_pos_left (mod-lt k some_records) some_bytes in
    ap (λ (t : ℕ). t % (c * m)) (sym split)
    ∙ mul-add-mod_self_right (k / m) (c * m) (c * (k % m))
    ∙ mod-eq_of_lt {n = c * (k % m)} {m = c * m} inside

-- Bytes in front of those that are read behind them.
abbrev pub prepend : List ℕ → Result (List ℕ) → Result (List ℕ)
prepend bytes (ok rest) = ok (bytes ++ rest)
prepend bytes (err e) = err e

-- The two copies out of the buffer of a driver, from an index on.
pub copy_sector : (ℕ → ℕ) → ℕ → ℕ → List ℕ
copy_sector io_buffer off to_read =
    let len = if ltb off to_read then to_read - off else to_read in
    tabulate len off io_buffer ++ tabulate (to_read - len) (off + len) io_buffer

pub copy_sector_lem :
    (io_buffer : ℕ → ℕ) (off to_read : ℕ)
    → copy_sector io_buffer off to_read ≡ tabulate to_read off io_buffer
unfolding copy_sector
copy_sector_lem io_buffer off to_read = elim (Bool-cases (ltb off to_read)) [
  | inl e ↦
      let sum : to_read - off + (to_read - (to_read - off)) ≡ to_read = omega arith in
      rw e (
        tabulate_append (to_read - off) (to_read - (to_read - off)) off io_buffer
        ∙ ap (λ t. tabulate t off io_buffer) sum)
  | inr e ↦
      let sum : to_read + (to_read - to_read) ≡ to_read = omega arith in
      rw e (
        tabulate_append to_read (to_read - to_read) off io_buffer
        ∙ ap (λ t. tabulate t off io_buffer) sum)
]

-- A file is read in pieces: piece `n` has the bytes `piece n` from `off` on, `width` of each piece.
module _ (piece : ℕ → ℕ → ℕ) (width off : ℕ) where
  -- The byte at an index of what is read from a piece on.
  abbrev pub piece_byte : ℕ → ℕ → ℕ
  piece_byte n k = piece (n + k / width) (off + k % width)

  -- Bytes from one piece, and from those behind it.
  pub piece_byte_first :
      (n m : ℕ) → m ≤ width → tabulate m off (piece n) ≡ tabulate m 0 (piece_byte n)
  piece_byte_first n m le = tabulate_ext m off 0 (piece n) (piece_byte n) λ k lt.
      let plain : k ≡ 0 + k = omega arith in
      let none_before = div-eq_of_lt {n = k} {m = width} (omega arith) in
      let whole : n ≡ n + k / width = omega (arith, none_before) in
      let inside = mod-eq_of_lt {n = k} {m = width} (omega arith) in
      let place : off + k ≡ off + k % width = ap (λ (t : ℕ). off + t) (sym inside) in
      ap₂ piece whole place ∙ ap (piece_byte n) plain

  piece_byte_later :
      (n m : ℕ)
      → 0 < width
      → tabulate m 0 (piece_byte (suc n)) ≡ tabulate m (0 + width) (piece_byte n)
  piece_byte_later n m some_bytes =
      tabulate_ext m 0 (0 + width) (piece_byte (suc n)) (piece_byte n) λ k lt.
        let plain : 0 + k ≡ k = omega arith in
        let shifted : width + k ≡ 0 + width + k = omega arith in
        let whole : suc n + k / width ≡ n + (width + k) / width =
          omega (arith, ap (λ (t : ℕ). n + t) (add-div_left k {k = width} some_bytes)) in
        let place : off + k % width ≡ off + (width + k) % width =
          ap (λ (t : ℕ). off + t) (sym (add-mod_left width k)) in
        ap (piece_byte (suc n)) plain ∙ ap₂ piece whole place ∙ ap (piece_byte n) shifted

  -- A whole piece and what follows it.
  pub piece_byte_join :
      (n m : ℕ)
      → 0 < width
      → tabulate width off (piece n) ++ tabulate m 0 (piece_byte (suc n))
        ≡ tabulate (width + m) 0 (piece_byte n)
  piece_byte_join n m some_bytes =
      ap₂ ◌++◌ (piece_byte_first n width (le_refl width)) (piece_byte_later n m some_bytes)
      ∙ tabulate_append width m 0 (piece_byte n)
