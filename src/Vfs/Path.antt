-- ===== src/Vfs/Path.antt =====
-- The names in a path, as kernel/modules/vfs.c cuts them.
use dos.Prelude.{
  List, [], ap, append-nil, arith, length, length-append, suc, zero, ℕ, ◌++◌, ◌+◌, ◌<◌, ◌∙◌, ◌∷◌,
  ◌≡◌, ◌≤◌,
}
use dos.Cstring.{strlen, strtok}
use dos.Cstring.Tokens.{Lacks, strtok-append, strtok_whole, strlen_lem}
use dos.Vfs.{slash, names_of, path_names, skip_slash}

-- A name is not empty and has no slash.
abbrev pub IsName : List ℕ → Type 0
IsName [] = ⊥
IsName (c ∷ name) = Lacks 47 (c ∷ name)

abbrev pub AllNames : List (List ℕ) → Type 0
AllNames [] = Unit {0}
AllNames (name ∷ names) = IsName name × AllNames names

-- The path with these names, each behind a slash.
abbrev pub join : List (List ℕ) → List ℕ
join [] = []
join (name ∷ names) = 47 ∷ (name ++ join names)

names_of-append :
    (rest : List ℕ → List (List ℕ)) (name str : List ℕ)
    → IsName name
    → names_of rest (strtok (name ++ 47 ∷ str) slash) ≡ name ∷ rest str
unfolding names_of
names_of-append rest [] str is = absurd is
names_of-append rest (c ∷ name) str is = ap (names_of rest) (strtok-append 47 (c ∷ name) str is)

names_of_whole :
    (rest : List ℕ → List (List ℕ)) (name : List ℕ)
    → IsName name
    → names_of rest (strtok name slash) ≡ name ∷ []
unfolding names_of
names_of_whole rest [] is = absurd is
names_of_whole rest (c ∷ name) is = ap (names_of rest) (strtok_whole 47 (c ∷ name) is)

path_names-join :
    (fuel : ℕ) (name : List ℕ) (names : List (List ℕ))
    → IsName name
    → AllNames names
    → length names < fuel
    → path_names fuel (name ++ join names) ≡ name ∷ names
unfolding path_names
path_names-join zero name names is all enough = absurd (omega (arith, enough))
path_names-join (suc fuel) name [] is all enough =
    ap (λ s. names_of (path_names fuel) (strtok s slash)) (append-nil name)
    ∙ names_of_whole (path_names fuel) name is
path_names-join (suc fuel) name (next ∷ names) is (next_is, all) enough =
    names_of-append (path_names fuel) name (next ++ join names) is
    ∙ ap (λ l. name ∷ l) (path_names-join fuel next names next_is all (omega (arith, enough)))

length-join : (names : List (List ℕ)) → length names ≤ length (join names)
length-join [] = omega arith
length-join (name ∷ names) =
    let rest = length-join names in
    let whole = length-append name (join names) in omega (arith, rest, whole)

-- The names of an absolute path are cut out as they are.
pub path_names_lem :
    (name : List ℕ) (names : List (List ℕ))
    → IsName name
    → AllNames names
    → path_names (strlen (join (name ∷ names)) + 1) (skip_slash (join (name ∷ names)))
      ≡ name ∷ names
unfolding skip_slash
path_names_lem name names is all =
    path_names-join (strlen (join (name ∷ names)) + 1) name names is all (
      let enough = length-join (name ∷ names) in
      let whole = strlen_lem (join (name ∷ names)) in omega (arith, enough, whole))
