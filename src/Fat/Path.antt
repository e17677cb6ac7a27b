-- ===== src/Fat/Path.antt =====
-- The walk along a path in `fat_stat` of kernel/drivers/fs/fat.c, which ext2_stat repeats.
use dos.Prelude.{
  Bool, List, Option, [], drop, if◌then◌else◌, none, some, suc, zero, ℕ, ◌+◌, ◌>>=◌, ◌∷◌,
}
use dos.Bits.{isset_bit_int}
use dos.Cstring.{strlen, strcmp, stricmp, is_zero}
use dos.Vfs.{Result, ok, err, enoent, enotdir, slash, path_names}
use dos.Fat.{Fat, FatStat}
use dos.Fat.Dir.{fat_readdir}

module _ {ℓ} {S : Type ℓ} (is_dir : S → Bool) (readdir : S → ℕ → Option (Result (List ℕ × S)))
    (same : List ℕ → List ℕ → Bool) where
  -- An entry of a directory is compared with the name, or the directory is at its end.
  pub take_name : Option (Option S) → List ℕ → Result (List ℕ × S) → Option (Option S)
  take_name rest filename (err e) = some none
  take_name rest filename (ok (name, st)) = if same name filename then some (some st) else rest

  -- The loop over the entries from an index on. None is that the fuel runs out.
  pub find_name : ℕ → S → List ℕ → ℕ → Option (Option S)
  unfolding take_name
  find_name zero dir filename i = none
  find_name (suc fuel) dir filename i =
      readdir dir i >>= take_name (find_name fuel dir filename (i + 1)) filename

  -- The walk goes on from the entry, if there is one.
  pub enter_found : (S → Option (Result (Option S))) → Option S → Option (Result (Option S))
  enter_found go_on none = some (err enoent)
  enter_found go_on (some st) = go_on st

  -- The loop over the names: what `out_st` becomes, or an error.
  pub walk_names : ℕ → List (List ℕ) → S → Option S → Option (Result (Option S))
  unfolding find_name enter_found
  walk_names fuel [] dir out_st = some (ok out_st)
  walk_names fuel (filename ∷ names) dir out_st =
      let rest =
        find_name fuel dir filename 0 >>= enter_found (λ st. walk_names fuel names st (some st)) in
      if is_dir dir then rest else some (err enotdir)

-- `fn + 1`
abbrev pub behind_first : List ℕ → List ℕ
behind_first path = drop 1 path

-- What is written to `out_st`, if it is. None is that the fuel runs out.
pub fat_stat :
    (ℕ → Option (ℕ → ℕ))
    → ℕ
    → ℕ
    → Fat
    → (ℕ → ℕ)
    → FatStat
    → List ℕ
    → Option (Result (Option FatStat))
unfolding walk_names isset_bit_int
fat_stat read_sector fuel device fs io_buffer st path =
    let walked =
      walk_names (λ dir. isset_bit_int dir.st_mode 0x4000)
        (λ dir i. fat_readdir read_sector fuel device fs i io_buffer dir)
        (λ name filename. is_zero (stricmp name filename)) fuel
        (path_names (strlen path + 1) (behind_first path)) st none in
    if is_zero (strcmp path slash) then some (ok (some fs.rootdir)) else walked
