-- ===== src/Mmu/Round.antt =====
-- One page mapped by the loop of kernel/cpu/mmu.c: the tables that are written and what they
-- translate.
use dos.Prelude.{
  ==_false_of_ne, ==_iff, Bool, Bool-cases, List, ap, arith, if◌then◌else◌, inl, inr, not, true, ℕ,
  ℕ_discrete, ◌%◌, ◌*◌, ◌+◌, ◌/◌, ◌<◌, ◌==◌, ◌^◌, ◌∙◌, ◌∷◌, ◌≡◌, ◌≢◌, ◌≤◌,
}
use dos.Mmu.{
  Mmu, Entry, put, pd_index, pt_index, page_offset, find_table, map_entry,
  mmu_get_physical_address_pdt,
}
use dos.Bitmap.Count.{free_pages, alloc_page-has_free}
use dos.Mmu.Space.{
  IsSpace, IsPresent, IsOwned, same_page, pd_index-page, pt_index-page, page_offset_lem,
}
use dos.Mmu.Table.{Gave, find_table-Gave}

module _ (pdt number v : ℕ) (rw_flag user : Bool) (s : Mmu) (r : ℕ × Mmu)
    (gave : Gave pdt (pd_index v) s r) (space : IsSpace pdt s) where
  abbrev pd : Entry
  pd = record { present = true; rw_bit = rw_flag; user = user; address = r.0 }

  abbrev leaf : Entry
  leaf = record { present = true; rw_bit = rw_flag; user = user; address = number }

  -- The tables after the two writes.
  abbrev written : ℕ → ℕ → Entry
  written = put (put r.1.tables pdt (pd_index v) pd) r.0 (pt_index v) leaf

  written-directory : (i : ℕ) → written pdt i ≡ (if i == pd_index v then pd else s.tables pdt i)
  written-directory i = ground (arith, gave.apart, gave.elsewhere pdt i)

  -- Another directory entry's table is as it was.
  written-other :
      (i k : ℕ)
      → IsPresent s pdt i
      → i ≢ pd_index v
      → written (s.tables pdt i).address k ≡ s.tables (s.tables pdt i).address k
  written-other i k there ne =
      ground (arith, gave.distinct i, gave.elsewhere (s.tables pdt i).address k, space.apart i)

  written-table : (k : ℕ) → written r.0 k ≡ (if k == pt_index v then leaf else r.1.tables r.0 k)
  written-table k = ground (arith, gave.apart)

  -- What an address translates to in some tables.
  abbrev translate : (ℕ → ℕ → Entry) → ℕ → ℕ
  translate tables w =
      if not (tables pdt (pd_index w)).present
      then 0
      else if not (tables (tables pdt (pd_index w)).address (pt_index w)).present
      then 0
      else ((tables (tables pdt (pd_index w)).address (pt_index w)).address * 2 ^ 12
          + page_offset w)
        % 2 ^ 32

  translate-written_here :
      (w : ℕ) → w / 4096 ≡ v / 4096 → translate written w ≡ (number * 4096 + w % 4096) % 2 ^ 32
  translate-written_here w e =
      rw (pd_index-page w v e, pt_index-page w v e, written-directory (pd_index v))
        (ground (
          arith,
          ==_iff (pd_index v) (pd_index v),
          written-table (pt_index v),
          ==_iff (pt_index v) (pt_index v),
          page_offset_lem w,
        ))

  -- In the same table, at another entry.
  translate-written_table :
      (w : ℕ)
      → pd_index w ≡ pd_index v
      → pt_index w ≢ pt_index v
      → translate written w ≡ translate s.tables w
  translate-written_table w same other = elim (Bool-cases (s.tables pdt (pd_index v)).present) [
    | inl there ↦
        let (at, unchanged) = gave.old there in
        rw (same, written-directory (pd_index v), there)
          (ground (
            arith,
            ==_iff (pd_index v) (pd_index v),
            written-table (pt_index w),
            at,
            ap (λ t. t.tables) unchanged,
          ))
    | inr gone ↦
        rw (same, written-directory (pd_index v), gone)
          (ground (
            arith,
            ==_iff (pd_index v) (pd_index v),
            written-table (pt_index w),
            gave.new gone (pt_index w),
          ))
  ]

  translate-written_other :
      (w : ℕ) → pd_index w ≢ pd_index v → translate written w ≡ translate s.tables w
  translate-written_other w other = elim (Bool-cases (s.tables pdt (pd_index w)).present) [
    | inl there ↦
        ground (
          arith,
          written-directory (pd_index w),
          written-other (pd_index w) (pt_index w) there other,
        )
    | inr gone ↦ ground (arith, written-directory (pd_index w))
  ]

  abbrev mapped : Mmu
  mapped = record r.1 { tables = written }

  mapped-IsOwned : (f : ℕ) → IsOwned s f → IsOwned mapped f
  mapped-IsOwned f own p e = gave.used_kept p (own p (omega (arith, gave.start_kept, e)))

  mapped-IsSpace : IsSpace pdt mapped
  mapped-IsSpace = record {
    map_valid = gave.map_valid;
    apart = λ i there. ground (arith, written-directory i, space.apart i, gave.apart);
    distinct = λ i j there_i there_j same. ground (
      arith,
      written-directory i,
      written-directory j,
      space.distinct i j,
      gave.distinct i,
      gave.distinct j,
    );
    owned = λ i there. elim (ℕ_discrete i (pd_index v)) [
      | yes e ↦
          let at : (written pdt i).address ≡ r.0 = ground (arith, written-directory i) in
          λ p h. gave.owned p (h ∙ at)
      | no ne ↦
          let at : written pdt i ≡ s.tables pdt i = ground (arith, written-directory i) in
          λ p h.
            mapped-IsOwned (s.tables pdt i).address (space.owned i (rw at at there)) p
              (h ∙ ap (λ t. t.address) at)
    ];
    self_owned = mapped-IsOwned pdt space.self_owned;
  }

-- One round of the loop, with a free page in hand.
module _ (pdt number v : ℕ) (rw_flag user : Bool) (s : Mmu) (space : IsSpace pdt s)
    (some_free : 0 < free_pages s.bitmap) where
  abbrev next : Mmu
  next = map_entry pdt number v rw_flag user s

  given : Gave pdt (pd_index v) s (find_table pdt v s)
  given = find_table-Gave pdt v s space (alloc_page-has_free s.bitmap space.map_valid some_free)

  -- The new state is the written one, but for the list of flushed pages.
  next-mapped :
      (l : List ℕ) × (next
        ≡ record (mapped pdt number v rw_flag user s (find_table pdt v s) given space) {
          flushed = l;
        })
  unfolding map_entry
  next-mapped = elim (Bool-cases (pdt == (find_table pdt v s).1.current_pdt)) [
    | inl now ↦ (v ∷ (find_table pdt v s).1.flushed, rw now)
    | inr later ↦ ((find_table pdt v s).1.flushed, rw later)
  ]

  pub next-IsSpace : IsSpace pdt next
  next-IsSpace =
      let (l, e) = next-mapped in
      let good = mapped-IsSpace pdt number v rw_flag user s (find_table pdt v s) given space in
      rw e (record {
        map_valid = good.map_valid;
        apart = good.apart;
        distinct = good.distinct;
        owned = good.owned;
        self_owned = good.self_owned;
      })

  pub next-spent : free_pages s.bitmap ≤ free_pages next.bitmap + 1
  next-spent = let (l, e) = next-mapped in rw e given.spent

  pub next-translates :
      (w : ℕ)
      → mmu_get_physical_address_pdt w pdt next ≡ (
          if w / 4096 == v / 4096
          then (number * 4096 + w % 4096) % 2 ^ 32
          else mmu_get_physical_address_pdt w pdt s)
  unfolding mmu_get_physical_address_pdt
  next-translates w =
      let (l, e) = next-mapped in
      rw e (elim (ℕ_discrete (w / 4096) (v / 4096)) [
        | yes here ↦
            rw ((==_iff _ _).1 here)
              (translate-written_here pdt number v rw_flag user s _ given space w here)
        | no away ↦ rw (==_false_of_ne _ _ away) (elim (ℕ_discrete (pd_index w) (pd_index v)) [
          | yes same ↦
              translate-written_table pdt number v rw_flag user s _ given space w same
                (λ same_too. away (same_page w v same same_too))
          | no other ↦ translate-written_other pdt number v rw_flag user s _ given space w other
        ])
      ])
