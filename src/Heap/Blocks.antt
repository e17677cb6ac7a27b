-- ===== src/Heap/Blocks.antt =====
-- `heap_alloc` and `heap_free` of kernel/modules/heap.c over all blocks of the heap.
use dos.Prelude.{
  List, [], ap, arith, false, inl, inr, map, refl, some, true, ℕ, ◌+◌, ◌<◌, ◌∷◌, ◌≡◌, ◌≤◌, ◌⊎◌,
}
use dos.Heap.{HeapBlock, header_size, holds, heap_alloc, heap_free}
use dos.Heap.Taken.{IsTaken-block}
use dos.Heap.Alloc.{IsServed, nowhere, here, later, AllValid, cons, heap_alloc_lem}
use dos.Heap.Free.{settled, taken_inside, free_in-taken}

-- The block ends below the other blocks or begins above them.
abbrev pub IsApart : HeapBlock → List HeapBlock → Type 0
IsApart hb [] = Unit {0}
IsApart hb (other ∷ this) =
    ((hb.addr + header_size + hb.size ≤ other.addr)
      ⊎ (other.addr + header_size + other.size ≤ hb.addr))
    × IsApart hb this

-- No two blocks share an address.
abbrev pub AllApart : List HeapBlock → Type 0
AllApart [] = Unit {0}
AllApart (hb ∷ this) = IsApart hb this × AllApart this

served_elsewhere :
    {size p : ℕ} {this this' : List HeapBlock} (hb : HeapBlock)
    → AllValid this
    → IsApart hb this
    → IsServed size this p this'
    → holds hb p ≡ false
served_elsewhere hb valid apart nowhere = ground arith
served_elsewhere hb (cons other_valid rest) apart (here taken) =
    let (low, high) = taken_inside other_valid taken in
    let clear = apart.0 in ground (arith, low, high, clear)
served_elsewhere hb (cons other_valid rest) apart (later served) =
    served_elsewhere hb rest apart.1 served

-- NULL and the heap as it was, or an address that `heap_free` takes back.
abbrev pub IsUndone : List HeapBlock → ℕ → List HeapBlock → Type 0
IsUndone this p this' =
    ((p ≡ 0) × (this' ≡ this))
    ⊎ (((heap_free this' p).0 ≡ true) × (map settled (heap_free this' p).1 ≡ map settled this))

later-IsUndone :
    {p : ℕ} {this this' : List HeapBlock} (hb : HeapBlock)
    → holds hb p ≡ false
    → IsUndone this p this'
    → IsUndone (hb ∷ this) p (hb ∷ this')
unfolding heap_free
later-IsUndone hb elsewhere (inl (null, same)) = inl (null, ap (λ l. hb ∷ l) same)
later-IsUndone hb elsewhere (inr (freed, same)) =
    inr (rw elsewhere freed, rw elsewhere (ap (λ l. settled hb ∷ l) same))

IsServed-IsUndone :
    {size p : ℕ} {this this' : List HeapBlock}
    → AllValid this
    → AllApart this
    → IsServed size this p this'
    → IsUndone this p this'
unfolding heap_free
IsServed-IsUndone valid apart nowhere = inl (refl, refl)
IsServed-IsUndone (cons {hb} {this} valid rest) apart (here {hb'} {p} taken) =
    let (low, high) = taken_inside valid taken in
    let (addr, total, unit) = IsTaken-block taken in
    let inside : holds hb' p ≡ true = ground (arith, low, high, addr, total) in
    inr (rw inside refl, rw inside (ap (λ b. b ∷ map settled this) (free_in-taken valid taken)))
IsServed-IsUndone {this = hb ∷ this} (cons valid rest) apart (later served) =
    later-IsUndone hb (served_elsewhere hb rest apart.0 served)
      (IsServed-IsUndone rest apart.1 served)

-- In a heap of well-formed blocks that share no address, `heap_alloc` of at least one byte ends.
-- Either it gives NULL and leaves the heap as it was, or `heap_free` of the address it gives
-- succeeds and brings every block back to what it was, but for the place where the next search
-- starts.
pub heap_free-heap_alloc :
    (this : List HeapBlock) (size : ℕ)
    → AllValid this
    → AllApart this
    → 0 < size
    → (p : ℕ) × (this' : List HeapBlock) × (heap_alloc this size ≡ some (p, this'))
      × (((p ≡ 0) × (this' ≡ this))
          ⊎ (((heap_free this' p).0 ≡ true)
              × (map settled (heap_free this' p).1 ≡ map settled this)))
heap_free-heap_alloc this size valid apart above =
    let (p, this', e, served, after) = heap_alloc_lem this size valid above in
    (p, this', e, IsServed-IsUndone valid apart served)
