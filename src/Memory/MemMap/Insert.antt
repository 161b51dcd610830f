-- ===== src/Memory/MemMap/Insert.antt =====
-- The list stays sorted by base, and takes up to 32 regions.
use proto_kernel.Prelude.{
  ℕ, suc, ◌+◌, ◌≤◌, ◌<◌, ◌≡◌, refl, ap, arith, inl, inr, List, [], ◌∷◌, ltb, length, Bool-cases,
}
use proto_kernel.Memory.MemMap.{
  MemRegion, MemMap, static_region_count, insert_after, insert, add_region,
}

-- `x` is at most the base of every region of the list
abbrev pub Below : ℕ → List MemRegion → Type 0
Below x [] = Unit
Below x (r ∷ rs) = (x ≤ r.base) × Below x rs

abbrev pub Sorted : List MemRegion → Type 0
Sorted [] = Unit
Sorted (r ∷ rs) = Below r.base rs × Sorted rs

-- `rs'` is `rs` with `r` at some place
pub data Inserted (r : MemRegion) : List MemRegion → List MemRegion → Type 0 where
  here : {rs : List MemRegion} → Inserted r rs (r ∷ rs)
  there :
      {x : MemRegion} {rs rs' : List MemRegion} → Inserted r rs rs' → Inserted r (x ∷ rs) (x ∷ rs')

Below-trans : (x y : ℕ) (rs : List MemRegion) → x ≤ y → Below y rs → Below x rs
Below-trans x y [] h b = tt
Below-trans x y (r ∷ rs) h b = (omega (arith, b.0), Below-trans x y rs h b.1)

Below-Inserted :
    (x : ℕ) (r : MemRegion) {rs rs' : List MemRegion}
    → Inserted r rs rs'
    → x ≤ r.base
    → Below x rs
    → Below x rs'
Below-Inserted x r here h b = (h, b)
Below-Inserted x r (there c) h b = (b.0, Below-Inserted x r c h b.1)

insert_after-Inserted : (r : MemRegion) (rs : List MemRegion) → Inserted r rs (insert_after r rs)
unfolding insert_after
insert_after-Inserted r [] = here
insert_after-Inserted r (next ∷ rs) = elim (Bool-cases (ltb next.base r.base)) [
  | inl low ↦ rw low (there (insert_after-Inserted r rs))
  | inr high ↦ rw high here
]

insert_after-Sorted : (r : MemRegion) (rs : List MemRegion) → Sorted rs → Sorted (insert_after r rs)
unfolding insert_after
insert_after-Sorted r [] s = (tt, tt)
insert_after-Sorted r (next ∷ rs) s = elim (Bool-cases (ltb next.base r.base)) [
  | inl low ↦ rw low (
    Below-Inserted next.base r (insert_after-Inserted r rs) (ground arith) s.0,
    insert_after-Sorted r rs s.1,
  )
  | inr high ↦ rw high ((ground arith, Below-trans r.base next.base rs (ground arith) s.0), s)
]

pub insert-Inserted : (r : MemRegion) (rs : List MemRegion) → Inserted r rs (insert r rs)
unfolding insert
insert-Inserted r [] = here
insert-Inserted r (head ∷ rs) = elim (Bool-cases (ltb r.base head.base)) [
  | inl low ↦ rw low here
  | inr high ↦ rw high (there (insert_after-Inserted r rs))
]

insert-Sorted : (r : MemRegion) (rs : List MemRegion) → Sorted rs → Sorted (insert r rs)
unfolding insert
insert-Sorted r [] s = (tt, tt)
insert-Sorted r (head ∷ rs) s = elim (Bool-cases (ltb r.base head.base)) [
  | inl low ↦ rw low ((ground arith, Below-trans r.base head.base rs (ground arith) s.0), s)
  | inr high ↦ rw high (
    Below-Inserted head.base r (insert_after-Inserted r rs) (ground arith) s.0,
    insert_after-Sorted r rs s.1,
  )
]

length-Inserted :
    (r : MemRegion) {rs rs' : List MemRegion} → Inserted r rs rs' → length rs' ≡ suc (length rs)
length-Inserted r here = refl
length-Inserted r (there c) = ap suc (length-Inserted r c)

pub record IsValid (s : MemMap) : Type 0 where
  pub sorted : Sorted s.regions
  pub taken : length s.regions ≡ s.static_region_index
  pub bound : s.static_region_index ≤ static_region_count

-- the region at some place of the list, or nothing once the pool is used up
pub data Added (r : MemRegion) (s : MemMap) : MemMap → Type 0 where
  full : s.static_region_index ≡ static_region_count → Added r s s
  added :
      (s' : MemMap)
      → s.static_region_index < static_region_count
      → Inserted r s.regions s'.regions
      → s'.static_region_index ≡ s.static_region_index + 1
      → Added r s s'

-- In a valid map, which is sorted by base and counts at most 32 regions, memmap_add_region leaves
-- a valid map: the same one if 32 regions are taken, and otherwise the map with the region at one
-- more place.
pub add_region_lem :
    {s : MemMap} (r : MemRegion) → IsValid s → IsValid (add_region r s) × Added r s (add_region r s)
unfolding add_region
add_region_lem {s} r v = elim (Bool-cases (ltb s.static_region_index static_region_count)) [
  | inl room ↦ rw room (
    record {
      sorted = insert-Sorted r s.regions v.sorted;
      taken = omega (arith, length-Inserted r (insert-Inserted r s.regions), v.taken);
      bound = ground arith;
    },
    added _ (ground arith) (insert-Inserted r s.regions) refl,
  )
  | inr used ↦ rw used (v, full (ground (arith, v.bound)))
]
