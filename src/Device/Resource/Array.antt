-- ===== src/Device/Resource/Array.antt =====
-- The array of a device: what is added is found again, by type and place among those of the type.
use proto_kernel.Prelude.{
  ℕ, zero, suc, ◌+◌, ◌-◌, ◌≤◌, ◌<◌, ◌≡◌, ◌≢◌, refl, arith, Bool, true, false, Option, none, some,
  List, [], ◌∷◌, ◌++◌, ◌==◌, leb, if◌then◌else◌, inl, inr, ◌⊎◌, length, get_elem?,
}
use proto_kernel.Device.Resource.{
  device_max_resources, Resource, no_resource, Device, copied_name, add_to, device_add_resource,
  nth_of_type, device_get_resource,
}

-- the array holds these resources from place `i` on
abbrev pub Listed : List Resource → (i : ℕ) → (ℕ → Resource) → Type 0
Listed [] i array = Unit
Listed (r ∷ rest) i array = (array i ≡ r) × Listed rest (suc i) array

abbrev pub ArrayHolds : List Resource → Option (ℕ → Resource) → Type 0
ArrayHolds rs none = rs ≡ []
ArrayHolds rs (some array) = Listed rs 0 array

abbrev pub DeviceHolds : List Resource → Device → Type 0
DeviceHolds rs dev = (dev.num_resources ≡ length rs) × ArrayHolds rs dev.resources

unfoldable pub of_type : (res_type : ℕ) → List Resource → List Resource
of_type res_type [] = []
of_type res_type (r ∷ rest) =
    let later = of_type res_type rest in if r.res_type == res_type then r ∷ later else later

no_lower : (n : ℕ) → (suc n == 0) ≡ false
no_lower n = ground arith

pred-suc : (n : ℕ) → suc n - 1 ≡ n
pred-suc n = omega arith

nth_lem :
    (rs : List Resource) (i res_type index : ℕ) (array : ℕ → Resource)
    → Listed rs i array
    → nth_of_type (length rs) i res_type index array ≡ get_elem? (of_type res_type rs) index
unfolding nth_of_type of_type
nth_lem [] i res_type index array listed = refl
nth_lem (r ∷ rest) i res_type index array (here, listed) =
    rw
      (
        here,
        nth_lem rest (suc i) res_type index array listed,
        nth_lem rest (suc i) res_type (index - 1) array listed,
      )
      (choose (r.res_type == res_type) index)
  where
    choose :
        (b : Bool) (index : ℕ)
        → (if b
            then (if index == 0 then some r else get_elem? (of_type res_type rest) (index - 1))
            else get_elem? (of_type res_type rest) index)
          ≡ get_elem? (if b then r ∷ of_type res_type rest else of_type res_type rest) index
    choose true zero = refl
    choose true (suc n) = rw (no_lower n, pred-suc n) refl
    choose false index = refl

-- On a device that holds a list of resources, device_get_resource of a type and an index from 0
-- on gives the resource of that index among the resources of the type, or NULL if they are fewer.
pub device_get_resource_lem :
    (rs : List Resource) (dev : Device) (res_type index : ℕ)
    → DeviceHolds rs dev
    → device_get_resource res_type index dev ≡ get_elem? (of_type res_type rs) index
unfolding of_type
device_get_resource_lem rs dev res_type index (num, held) = on dev.resources held
  where
    on :
        (resources : Option (ℕ → Resource))
        → ArrayHolds rs resources
        → (elim resources as (λ _. Option Resource) [
          | none ↦ none
          | some array ↦ nth_of_type dev.num_resources 0 res_type index array
        ])
          ≡ get_elem? (of_type res_type rs) index
    on none e = rw e refl
    on (some array) listed = rw num (nth_lem rs 0 res_type index array listed)

same_place : (i n : ℕ) → i ≡ n → (i == n) ≡ true
same_place i n e = ground arith

other_place : (i n : ℕ) → i < n → (i == n) ≡ false
other_place i n lt = ground arith

put-Listed :
    (rs : List Resource) (i n : ℕ) (array : ℕ → Resource) (r : Resource)
    → n ≡ i + length rs
    → Listed rs i array
    → Listed (rs ++ (r ∷ [])) i (λ j. if j == n then r else array j)
put-Listed [] i n array r e listed = (rw (same_place i n (omega arith)) refl, tt)
put-Listed (s ∷ rest) i n array r e (here, listed) = (
  rw (other_place i n (omega arith)) here,
  put-Listed rest (suc i) n array r (omega arith) listed,
)

length-append : (rs : List Resource) (r : Resource) → length (rs ++ (r ∷ [])) ≡ length rs + 1
length-append [] r = omega arith
length-append (s ∷ rest) r = omega (arith, length-append rest r)

add_to-DeviceHolds :
    (copy_name : ℕ → ℕ) (rs : List Resource) (r : Resource) (array : ℕ → Resource) (dev : Device)
    → dev.num_resources ≡ length rs
    → length rs < 8
    → Listed rs 0 array
    → DeviceHolds (rs ++ (copied_name copy_name r ∷ [])) (add_to copy_name r array dev)
add_to-DeviceHolds copy_name rs r array dev num small listed = (
  omega (arith, length-append rs (copied_name copy_name r)),
  put-Listed rs 0 dev.num_resources array (copied_name copy_name r) (omega arith) listed,
)

-- `r'` says what `r` says, under the name that `copy_name` gives, or without one if `r` has none
pub record CopyOf (copy_name : ℕ → ℕ) (r r' : Resource) : Type 0 where
  pub res_type : r'.res_type ≡ r.res_type
  pub start : r'.start ≡ r.start
  pub end : r'.end ≡ r.end
  pub flags : r'.flags ≡ r.flags
  pub mapped_addr : r'.mapped_addr ≡ r.mapped_addr
  pub name : ((r.name ≡ 0) × (r'.name ≡ 0)) ⊎ ((r.name ≢ 0) × (r'.name ≡ copy_name r.name))

copied_name-CopyOf :
    (copy_name : ℕ → ℕ) (r : Resource) → CopyOf copy_name r (copied_name copy_name r)
copied_name-CopyOf copy_name r = by_name (r.name == 0) refl
  where
    by_name :
        (b : Bool)
        → (r.name == 0) ≡ b
        → CopyOf copy_name r (if b then r else record r { name = copy_name r.name })
    by_name true e = record {
      res_type = refl;
      start = refl;
      end = refl;
      flags = refl;
      mapped_addr = refl;
      name = inl (ground arith, ground arith);
    }
    by_name false e = record {
      res_type = refl;
      start = refl;
      end = refl;
      flags = refl;
      mapped_addr = refl;
      name = inr ((λ null. ground arith), refl);
    }

-- what a call of `device_add_resource` on a device that holds these resources comes to
abbrev pub AddedTo :
    (memory : Bool)
    → (copy_name : ℕ → ℕ) → List Resource
    → Resource
    → Device
    → Bool × Device
    → Type 0
AddedTo memory copy_name rs r dev (true, dev') =
    (length rs < 8) × (r' : Resource) × CopyOf copy_name r r' × DeviceHolds (rs ++ (r' ∷ [])) dev'
AddedTo memory copy_name rs r dev (false, dev') =
    (dev' ≡ dev) × ((8 ≤ length rs) ⊎ (memory ≡ false))

-- On a device that holds a list of resources, device_add_resource leaves a device that holds the
-- list and at its end a resource with the type, range, flags and mapped address of the given one,
-- and the name that the copy of names gives, or none if it has none, and then the list had fewer
-- than eight; or it fails with the device unchanged, and then the list has eight at least or the
-- pool has no memory.
pub device_add_resource_lem :
    (memory : Bool) (copy_name : ℕ → ℕ) (rs : List Resource) (r : Resource) (dev : Device)
    → DeviceHolds rs dev
    → AddedTo memory copy_name rs r dev (device_add_resource memory copy_name r dev)
unfolding device_add_resource
device_add_resource_lem memory copy_name rs r dev (num, held) =
    by_room (leb device_max_resources dev.num_resources) refl
  where
    Result : Bool × Device → Type 0
    Result = AddedTo memory copy_name rs r dev

    by_memory :
        (b : Bool)
        → memory ≡ b
        → rs ≡ []
        → Result (if b then (true, add_to copy_name r (λ i. no_resource) dev) else (false, dev))
    by_memory true e empty =
        let few : length rs < 8 = rw empty (omega arith) in
        (
          few,
          copied_name copy_name r,
          copied_name-CopyOf copy_name r,
          add_to-DeviceHolds copy_name rs r (λ i. no_resource) dev num few (rw empty tt),
        )
    by_memory false e empty = (refl, inr e)

    by_array :
        length rs < 8
        → (resources : Option (ℕ → Resource)) → ArrayHolds rs resources
        → Result (elim resources as (λ _. Bool × Device) [
          | some array ↦ (true, add_to copy_name r array dev)
          | none ↦
              if memory then (true, add_to copy_name r (λ i. no_resource) dev) else (false, dev)
        ])
    by_array few none empty = by_memory memory refl empty
    by_array few (some array) listed = (
      few,
      copied_name copy_name r,
      copied_name-CopyOf copy_name r,
      add_to-DeviceHolds copy_name rs r array dev num few listed,
    )

    by_room :
        (b : Bool)
        → leb device_max_resources dev.num_resources ≡ b
        → Result (
            if b then (false, dev) else elim dev.resources [
              | some array ↦ (true, add_to copy_name r array dev)
              | none ↦
                  if memory then (true, add_to copy_name r (λ i. no_resource) dev) else (false, dev)
            ])
    by_room true e = (refl, inl (ground arith))
    by_room false e = by_array (ground arith) dev.resources held
