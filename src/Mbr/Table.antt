-- ===== src/Mbr/Table.antt =====
-- The table of kernel/drivers/mbr.c as it is written on a disk, and what is read from it.
use dos.Prelude.{
  ==_false_of_ne, Bool-cases, ap, arith, false, inl, inr, ltb, none, not, refl, some, subst, sym,
  true, ℕ, ℕ_discrete, ◌%◌, ◌*◌, ◌+◌, ◌/◌, ◌<◌, ◌==◌, ◌^◌, ◌||◌, ◌↔◌, ◌∙◌, ◌≡◌, ◌≢◌,
}
use mathlib.Core.Option.{some-ne-none, some-injective}
use dos.Mbr.{
  MbrPartition, FsType, fs_fat12, fs_fat16, fs_ext2, fs_iso9660, FileSystem, long_at, partition_at,
  mbr_get_fs, mbr_init,
}

-- The four bytes of a number, low byte first.
abbrev pub HoldsLong : (ℕ → ℕ) → ℕ → ℕ → Type 0
HoldsLong buffer i n =
    (buffer i ≡ n % 2 ^ 8)
    × (buffer (i + 1) ≡ n / 2 ^ 8 % 2 ^ 8)
    × (buffer (i + 2) ≡ n / 2 ^ 16 % 2 ^ 8)
    × (buffer (i + 3) ≡ n / 2 ^ 24)

-- The entry that stands in the sector from byte `i` on, as the format of the table has it: flag, start,
-- type, end, first sector, number of sectors.
pub record Holds (buffer : ℕ → ℕ) (i : ℕ) (p : MbrPartition) : Type 0 where
  pub flag : buffer i ≡ p.bootable
  pub start :
      (buffer (i + 1) ≡ p.start_head)
      × (buffer (i + 2) ≡ p.start_sector)
      × (buffer (i + 3) ≡ p.start_cylinder)
  pub kind : buffer (i + 4) ≡ p.type
  pub end :
      (buffer (i + 5) ≡ p.end_head)
      × (buffer (i + 6) ≡ p.end_sector)
      × (buffer (i + 7) ≡ p.end_cylinder)
  pub first : HoldsLong buffer (i + 8) p.start_lba
  pub number : HoldsLong buffer (i + 12) p.size

long_at-HoldsLong : (buffer : ℕ → ℕ) (i n : ℕ) → HoldsLong buffer i n → long_at buffer i ≡ n
long_at-HoldsLong buffer i n (b0, b1, b2, b3) = omega (arith, b0, b1, b2, b3)

partition_at-Holds :
    (buffer : ℕ → ℕ) (i : ℕ) (p : MbrPartition) → Holds buffer i p → partition_at buffer i ≡ p
partition_at-Holds buffer i p holds =
    let (h, s, c) = holds.start in
    let (h', s', c') = holds.end in
    let first = long_at-HoldsLong buffer (i + 8) p.start_lba holds.first in
    let number = long_at-HoldsLong buffer (i + 12) p.size holds.number in
    let flag = holds.flag in
    let kind = holds.kind in
    λ j. record {
      bootable = flag j;
      start_head = h j;
      start_sector = s j;
      start_cylinder = c j;
      type = kind j;
      end_head = h' j;
      end_sector = s' j;
      end_cylinder = c' j;
      start_lba = first j;
      size = number j;
    }

-- The types of partition that have a file system.
pub data HasType : ℕ → FsType → Type 0 where
  fat12 : HasType 0x01 fs_fat12
  fat16_small : HasType 0x04 fs_fat16
  fat16 : HasType 0x06 fs_fat16
  ext2 : HasType 0x83 fs_ext2
  iso9660_hidden : HasType 0x96 fs_iso9660
  iso9660 : HasType 0xCD fs_iso9660

-- What `mbr_get_fs` gives for a partition of a type.
abbrev of_type : MbrPartition → FsType → FileSystem
of_type p kind = record { type = kind; start_lba = p.start_lba }

mbr_get_fs-HasType :
    (p : MbrPartition) (t : ℕ) (kind : FsType)
    → HasType t kind
    → p.type ≡ t
    → mbr_get_fs p ≡ some (of_type p kind)
unfolding mbr_get_fs
mbr_get_fs-HasType p t kind fat12 e = rw (mbr_get_fs, e) refl
mbr_get_fs-HasType p t kind fat16_small e = rw (mbr_get_fs, e) refl
mbr_get_fs-HasType p t kind fat16 e = rw (mbr_get_fs, e) refl
mbr_get_fs-HasType p t kind ext2 e = rw (mbr_get_fs, e) refl
mbr_get_fs-HasType p t kind iso9660_hidden e = rw (mbr_get_fs, e) refl
mbr_get_fs-HasType p t kind iso9660 e = rw (mbr_get_fs, e) refl

same_result :
    (p : MbrPartition) (fs : FileSystem) (t : ℕ) (kind : FsType)
    → HasType t kind
    → mbr_get_fs p ≡ some fs
    → p.type ≡ t
    → HasType p.type fs.type × (fs.start_lba ≡ p.start_lba)
same_result p fs t kind has result e =
    subst (λ (f : FileSystem). HasType p.type f.type × (f.start_lba ≡ p.start_lba))
      (some-injective (of_type p kind) fs (sym (mbr_get_fs-HasType p t kind has e) ∙ result))
      (subst (λ n. HasType n kind) (sym e) has, refl)

no_type :
    (p : MbrPartition)
    → p.type ≢ 0x01
    → p.type ≢ 0x04
    → p.type ≢ 0x06
    → p.type ≢ 0x83
    → p.type ≢ 0x96
    → p.type ≢ 0xCD
    → mbr_get_fs p ≡ none
unfolding mbr_get_fs
no_type p n1 n4 n6 n83 n96 nCD =
    let t1 = ==_false_of_ne p.type 0x01 n1 in
    let t4 = ==_false_of_ne p.type 0x04 n4 in
    let t6 = ==_false_of_ne p.type 0x06 n6 in
    let t83 = ==_false_of_ne p.type 0x83 n83 in
    let t96 = ==_false_of_ne p.type 0x96 n96 in
    let tCD = ==_false_of_ne p.type 0xCD nCD in
    elim (Bool-cases (p.type == 0x00)) [
      | inl empty ↦ rw (mbr_get_fs, empty) refl
      | inr other ↦ rw (mbr_get_fs, other, t1, t4, t6, t83, t96, tCD) refl
    ]

-- The other way round.
HasType-mbr_get_fs :
    (p : MbrPartition) (fs : FileSystem)
    → mbr_get_fs p ≡ some fs
    → HasType p.type fs.type × (fs.start_lba ≡ p.start_lba)
HasType-mbr_get_fs p fs e = elim (ℕ_discrete p.type 0x01) [
  | yes t ↦ same_result p fs 0x01 fs_fat12 fat12 e t
  | no n1 ↦ elim (ℕ_discrete p.type 0x04) [
    | yes t ↦ same_result p fs 0x04 fs_fat16 fat16_small e t
    | no n4 ↦ elim (ℕ_discrete p.type 0x06) [
      | yes t ↦ same_result p fs 0x06 fs_fat16 fat16 e t
      | no n6 ↦ elim (ℕ_discrete p.type 0x83) [
        | yes t ↦ same_result p fs 0x83 fs_ext2 ext2 e t
        | no n83 ↦ elim (ℕ_discrete p.type 0x96) [
          | yes t ↦ same_result p fs 0x96 fs_iso9660 iso9660_hidden e t
          | no n96 ↦ elim (ℕ_discrete p.type 0xCD) [
            | yes t ↦ same_result p fs 0xCD fs_iso9660 iso9660 e t
            | no nCD ↦ absurd (some-ne-none fs (sym e ∙ no_type p n1 n4 n6 n83 n96 nCD))
          ]
        ]
      ]
    ]
  ]
]

mbr_init-signed :
    (buffer : ℕ → ℕ) (behind : ℕ → MbrPartition) (partition : ℕ) (p : MbrPartition)
    → partition < 4
    → Holds buffer (446 + 16 * partition) p
    → buffer 510 ≡ 0x55
    → buffer 511 ≡ 0xAA
    → mbr_init buffer behind partition ≡ mbr_get_fs p
unfolding mbr_init
mbr_init-signed buffer behind partition p low holds first second =
    let within : ltb partition 4 ≡ true = ground (arith, low) in
    let one : (buffer 510 == 0x55) ≡ true = rw first refl in
    let two : (buffer 511 == 0xAA) ≡ true = rw second refl in
    rw (mbr_init, one, two, within)
      (ap mbr_get_fs (partition_at-Holds buffer (446 + 16 * partition) p holds))

mbr_init-unsigned :
    (buffer : ℕ → ℕ) (behind : ℕ → MbrPartition) (partition : ℕ)
    → (not (buffer 510 == 0x55) || not (buffer 511 == 0xAA)) ≡ true
    → mbr_init buffer behind partition ≡ none
unfolding mbr_init
mbr_init-unsigned buffer behind partition e = rw (mbr_init, e) refl

signed : (a b : ℕ) → (not (a == 0x55) || not (b == 0xAA)) ≡ false → (a ≡ 0x55) × (b ≡ 0xAA)
signed a b e = (ground (arith, e), ground (arith, e))

-- For a partition of the four in the table, `mbr_init` gives a file system exactly if the sector ends with the
-- signature 55 AA and the partition's type is that of a file system the kernel has, and then
-- it is that one, from the first sector of the partition on.
pub mbr_init_lem :
    (buffer : ℕ → ℕ) (behind : ℕ → MbrPartition) (partition : ℕ) (p : MbrPartition)
    (fs : FileSystem)
    → partition < 4
    → Holds buffer (446 + 16 * partition) p
    → (mbr_init buffer behind partition ≡ some fs) ↔ (
        (buffer 510 ≡ 0x55)
        × (buffer 511 ≡ 0xAA)
        × HasType p.type fs.type
        × (fs.start_lba ≡ p.start_lba))
mbr_init_lem buffer behind partition p fs low holds = (
  λ e. elim (Bool-cases (not (buffer 510 == 0x55) || not (buffer 511 == 0xAA))) [
    | inl bad ↦ absurd (some-ne-none fs (sym e ∙ mbr_init-unsigned buffer behind partition bad))
    | inr good ↦
        let (first, second) = signed (buffer 510) (buffer 511) good in
        let (type, start) =
          HasType-mbr_get_fs p fs
            (sym (mbr_init-signed buffer behind partition p low holds first second) ∙ e) in
        (first, second, type, start)
  ],
  λ r.
      let (first, second, type, start) = r in
      mbr_init-signed buffer behind partition p low holds first second
      ∙ mbr_get_fs-HasType p p.type fs.type type refl
      ∙ ap (λ n. some (record { type = fs.type; start_lba = n })) (sym start),
)
