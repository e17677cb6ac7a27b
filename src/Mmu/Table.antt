-- ===== src/Mmu/Table.antt =====
-- `find_table`: the table that a directory entry leads to, old or new, is no other's.
use dos.Prelude.{
  ==_iff, Bool-cases, ap, arith, false, inl, inr, refl, sym, true, ℕ, ◌+◌, ◌/◌, ◌∙◌, ◌≡◌, ◌≢◌, ◌≤◌,
}
use dos.Bitmap.{bitmap_alloc_page, null, page_size}
use dos.Bitmap.Pages.{page_used, IsValid}
use dos.Bitmap.Alloc.{Took, bitmap_alloc_page_lem, bitmap_alloc_page-IsValid}
use dos.Bitmap.Count.{free_pages, free_pages-alloc_page}
use dos.Mmu.{Mmu, pd_index, find_table}
use dos.Mmu.Space.{IsSpace, IsPresent, IsOwned, frame}

-- What `find_table` has done for entry `i` of directory `pdt` when it gives table `r.0`.
pub record Gave (pdt i : ℕ) (s : Mmu) (r : ℕ × Mmu) : Type 0 where
  pub apart : r.0 ≢ pdt
  pub distinct : (j : ℕ) → IsPresent s pdt j → j ≢ i → (s.tables pdt j).address ≢ r.0
  pub elsewhere : (g k : ℕ) → g ≢ r.0 → r.1.tables g k ≡ s.tables g k
  pub old : IsPresent s pdt i → (r.0 ≡ (s.tables pdt i).address) × (r.1 ≡ s)
  pub new : (s.tables pdt i).present ≡ false → (k : ℕ) → (r.1.tables r.0 k).present ≡ false
  pub map_valid : IsValid r.1.bitmap
  pub start_kept : r.1.bitmap.start_addr ≡ s.bitmap.start_addr
  pub used_kept : (p : ℕ) → page_used s.bitmap p ≡ true → page_used r.1.bitmap p ≡ true
  pub owned : IsOwned r.1 r.0
  pub spent : free_pages s.bitmap ≤ free_pages r.1.bitmap + 1
  pub current_kept : r.1.current_pdt ≡ s.current_pdt

module _ (pdt v : ℕ) (s : Mmu) (space : IsSpace pdt s) where
  find_table-old : IsPresent s pdt (pd_index v) → Gave pdt (pd_index v) s (find_table pdt v s)
  unfolding find_table
  find_table-old there =
      rw (there, find_table)
        (record {
          apart = space.apart (pd_index v) there;
          distinct = λ j pj ne e. ne (space.distinct j (pd_index v) pj there e);
          elsewhere = λ g k ne. refl;
          old = λ _. (refl, refl);
          new = λ gone. cc;
          map_valid = space.map_valid;
          start_kept = refl;
          used_kept = λ p u. u;
          owned = space.owned (pd_index v) there;
          spent = omega arith;
          current_kept = refl;
        })

  find_table-new :
      (s.tables pdt (pd_index v)).present ≡ false
      → Took s.bitmap (bitmap_alloc_page s.bitmap)
      → Gave pdt (pd_index v) s (find_table pdt v s)
  unfolding find_table
  find_table-new gone took =
      let r = bitmap_alloc_page s.bitmap in
      let pt = r.0 / page_size in
      let is_frame : frame s took.page ≡ pt = ap (λ t. t / page_size) (sym took.returned) in
      let unowned : (f : ℕ) → IsOwned s f → f ≢ pt =
        λ f own e. let u = own took.page (is_frame ∙ sym e) in ground (arith, took.was_free) in
      rw (gone, find_table)
        (record {
          apart = λ e. unowned pdt space.self_owned (sym e);
          distinct = λ j pj ne. unowned _ (space.owned j pj);
          elsewhere = λ g k ne. ground (arith, ==_iff g pt);
          old = λ there. absurd (cc);
          new = λ _ k. ground (arith, ==_iff pt pt);
          map_valid = bitmap_alloc_page-IsValid s.bitmap space.map_valid;
          start_kept = took.rest_kept.0;
          used_kept = λ p u. ground (arith, took.marked p);
          owned = λ p e.
              let same : took.page ≡ p = omega (arith, e, took.rest_kept.0, is_frame) in
              ground (arith, took.marked p, same, ==_iff took.page p);
          spent =
              free_pages-alloc_page s.bitmap space.map_valid
                (λ e. omega (arith, e, took.returned, space.map_valid.start_pos));
          current_kept = refl;
        })

-- With a page to be had for a new table, `find_table` gives a table as described.
pub find_table-Gave :
    (pdt v : ℕ) (s : Mmu)
    → IsSpace pdt s
    → (bitmap_alloc_page s.bitmap).0 ≢ null
    → Gave pdt (pd_index v) s (find_table pdt v s)
find_table-Gave pdt v s space got = elim (Bool-cases (s.tables pdt (pd_index v)).present) [
  | inl there ↦ find_table-old pdt v s space there
  | inr gone ↦ elim (bitmap_alloc_page_lem s.bitmap space.map_valid) [
    | inl took ↦ find_table-new pdt v s space gone took
    | inr refused ↦ absurd (got refused.returned)
  ]
]
