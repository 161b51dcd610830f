-- ===== src/Device/Resource.antt =====
-- kernel/device/resource.c: the resources of a device, and the children that a resource is divided
-- into. A child is named by its address, and stands in the list of one parent at a time.
pub mod Array
pub mod Division
mod Tests
use proto_kernel.Prelude.{
  ℕ, zero, suc, ◌+◌, ◌-◌, Bool, true, false, not, ◌&&◌, Option, none, some, List, [], ◌∷◌, ◌==◌,
  ltb, leb, if◌then◌else◌, Outcome, ok, fault, ◌%◌, ◌^◌,
}
use proto_kernel.Bits.{u64, sub64}

abbrev pub device_max_resources : ℕ
device_max_resources = 8

abbrev pub res_type_mem : ℕ
res_type_mem = 0

abbrev pub res_type_irq : ℕ
res_type_irq = 2

abbrev pub res_type_max : ℕ
res_type_max = 8

-- a resource but for its links; the name is an address, and 0 is NULL
pub record Resource : Type 0 where
  pub res_type : ℕ
  pub start : ℕ
  pub end : ℕ
  pub flags : ℕ
  pub name : ℕ
  pub mapped_addr : ℕ

abbrev pub resource_init : (res_type start end name : ℕ) → Resource
resource_init res_type start end name = record {
  res_type = res_type;
  start = start;
  end = end;
  flags = 0;
  name = name;
  mapped_addr = 0;
}

abbrev pub resource_size : Resource → ℕ
resource_size res = if ltb res.end res.start then 0 else u64 (sub64 res.end res.start + 1)

abbrev pub resource_contains : (parent child : Resource) → Bool
resource_contains parent child = leb parent.start child.start && leb child.end parent.end

abbrev pub resource_overlaps : (r s : Resource) → Bool
resource_overlaps r s =
    if not (r.res_type == s.res_type) then false else leb r.start s.end && leb s.start r.end

abbrev pub resource_is_valid : Resource → Bool
resource_is_valid res = if leb res_type_max res.res_type then false else not (ltb res.end res.start)

-- The array of a device, NULL at first. `memory` is whether the pool has room for it, and `copy_name`
-- is `device_pool_strdup`, which gives NULL when it has none.
pub record Device : Type 0 where
  pub resources : Option (ℕ → Resource)
  pub num_resources : ℕ

abbrev pub no_resource : Resource
no_resource = resource_init 0 0 0 0

abbrev pub copied_name : (copy_name : ℕ → ℕ) → Resource → Resource
copied_name copy_name res = if res.name == 0 then res else record res { name = copy_name res.name }

abbrev pub add_to : (copy_name : ℕ → ℕ) → Resource → (ℕ → Resource) → Device → Device
add_to copy_name res array dev = record {
  resources = some (λ i. if i == dev.num_resources then copied_name copy_name res else array i);
  num_resources = (dev.num_resources + 1) % 2 ^ 8;
}

unfoldable pub device_add_resource :
    (memory : Bool) → (copy_name : ℕ → ℕ) → Resource → Device → Bool × Device
device_add_resource memory copy_name res dev =
    if leb device_max_resources dev.num_resources then (false, dev) else elim dev.resources [
      | some array ↦ (true, add_to copy_name res array dev)
      | none ↦ if memory then (true, add_to copy_name res (λ i. no_resource) dev) else (false, dev)
    ]

abbrev pub device_add_mem_resource :
    (memory : Bool) → (copy_name : ℕ → ℕ) → (start size flags name : ℕ) → Device → Bool × Device
device_add_mem_resource memory copy_name start size flags name dev =
    if size == 0
    then (false, dev)
    else device_add_resource memory copy_name
        (record (resource_init res_type_mem start (sub64 (u64 (start + size)) 1) name) {
          flags = flags;
        })
        dev

abbrev pub device_add_irq_resource :
    (memory : Bool) → (copy_name : ℕ → ℕ) → (irq flags name : ℕ) → Device → Bool × Device
device_add_irq_resource memory copy_name irq flags name dev =
    device_add_resource memory copy_name
      (record (resource_init res_type_irq irq irq name) { flags = flags }) dev

-- the loop of `device_get_resource` from `i`, with `rounds` places and `index` matches to pass
unfoldable pub nth_of_type : (rounds i res_type index : ℕ) → (ℕ → Resource) → Option Resource
nth_of_type zero i res_type index array = none
nth_of_type (suc rounds) i res_type index array =
    let next = nth_of_type rounds (suc i) res_type index array in
    let past = nth_of_type rounds (suc i) res_type (index - 1) array in
    if (array i).res_type == res_type then (if index == 0 then some (array i) else past) else next

abbrev pub device_get_resource : (res_type index : ℕ) → Device → Option Resource
device_get_resource res_type index dev = elim dev.resources [
  | none ↦ none
  | some array ↦ nth_of_type dev.num_resources 0 res_type index array
]

-- A parent with the addresses of its children, the last added first. `object` gives the fields of the
-- resource at an address, but for its links.
pub record Family : Type 0 where
  pub parent : Resource
  pub children : List ℕ

unfoldable pub conflicts : (object : ℕ → Resource) → (child : Resource) → List ℕ → Bool
conflicts object child [] = false
conflicts object child (s ∷ rest) =
    let later = conflicts object child rest in
    if resource_overlaps (object s) child then true else later

unfoldable pub linked : (at : ℕ) → List ℕ → Bool
linked at [] = false
linked at (s ∷ rest) = let later = linked at rest in if s == at then true else later

-- Linking a child that is linked already would close its list to a ring, which no walk leaves; the
-- model takes that for a fault.
unfoldable pub resource_add_child :
    (object : ℕ → Resource) → (at : ℕ) → Family → Outcome (Bool × Family)
resource_add_child object at f =
    if not (resource_contains f.parent (object at))
    then ok (false, f)
    else if conflicts object (object at) f.children
    then ok (false, f)
    else if linked at f.children
    then fault
    else ok (true, record f { children = at ∷ f.children })

unfoldable pub unlink : (at : ℕ) → List ℕ → Option (List ℕ)
unlink at [] = none
unlink at (s ∷ rest) =
    let later = unlink at rest in
    if s == at then some rest else elim later [ none ↦ none | some left ↦ some (s ∷ left) ]

unfoldable pub resource_remove_child : (at : ℕ) → Family → Bool × Family
resource_remove_child at f = elim (unlink at f.children) [
  | none ↦ (false, f)
  | some left ↦ (true, record f { children = left })
]

unfoldable pub find_range : (object : ℕ → Resource) → (start end : ℕ) → List ℕ → Option ℕ
find_range object start end [] = none
find_range object start end (s ∷ rest) =
    let later = find_range object start end rest in
    if (object s).start == start && (object s).end == end then some s else later

abbrev pub resource_find_child : (object : ℕ → Resource) → (start end : ℕ) → Family → Option ℕ
resource_find_child object start end f = find_range object start end f.children
