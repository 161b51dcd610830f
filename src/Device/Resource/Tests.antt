-- ===== src/Device/Resource/Tests.antt =====
-- A device with three resources, and a bus window divided among its devices.
use proto_kernel.Prelude.{
  ℕ, arith, ◌≡◌, refl, true, none, some, List, [], ◌∷◌, ◌==◌, if◌then◌else◌, get_elem?, ok, fault,
}
use proto_kernel.Device.Resource.{
  Resource, resource_init, Device, device_add_resource, device_add_mem_resource,
  device_add_irq_resource, nth_of_type, device_get_resource, Family, conflicts, linked,
  resource_add_child, unlink, resource_remove_child, find_range, resource_find_child, resource_size,
}
use proto_kernel.Device.Resource.Array.{
  DeviceHolds, of_type, AddedTo, device_add_resource_lem, device_get_resource_lem,
}
use proto_kernel.Device.Resource.Division.{
  Change, add, remove, change_each, Divided, change_each-Divided,
}

all_code : Unit {0}
unfolding device_add_resource nth_of_type conflicts linked resource_add_child unlink
    resource_remove_child find_range change_each of_type
all_code = tt

abbrev empty_device : Device
empty_device = record { resources = none; num_resources = 0 }

abbrev uart_window : Resource
uart_window = resource_init 0 0x0900_0000 0x0900_0fff 0

abbrev uart_irq : Resource
uart_irq = resource_init 2 33 33 0

abbrev rtc_window : Resource
rtc_window = resource_init 0 0x0901_0000 0x0901_0fff 0

abbrev uart : Device
uart = record {
  resources = some (λ i. if i == 0 then uart_window else if i == 1 then uart_irq else rtc_window);
  num_resources = 3;
}

uart-Holds : DeviceHolds (uart_window ∷ uart_irq ∷ rtc_window ∷ []) uart
uart-Holds = (refl, (refl, (refl, (refl, tt))))

second_window : device_get_resource 0 1 uart ≡ some rtc_window
unfolding all_code
second_window = refl

built :
    let (b, d) = device_add_mem_resource true (λ s. s) 0x0900_0000 0x1000 0 0 empty_device in
    let (c, d) = device_add_irq_resource true (λ s. s) 33 0 0 d in
    (b ≡ true)
    × (c ≡ true)
    × (device_get_resource 0 0 d ≡ some uart_window)
    × (device_get_resource 2 0 d ≡ some uart_irq)
    × (resource_size uart_window ≡ 0x1000)
unfolding all_code
built = (refl, refl, refl, refl, refl)

device_get_resource_lem_example :
    device_get_resource 0 1 uart
    ≡ get_elem? (of_type 0 (uart_window ∷ uart_irq ∷ rtc_window ∷ [])) 1
device_get_resource_lem_example =
    device_get_resource_lem (uart_window ∷ uart_irq ∷ rtc_window ∷ []) uart 0 1 uart-Holds

device_add_resource_lem_example :
    AddedTo true
      (λ s. s)
      (uart_window ∷ uart_irq ∷ rtc_window ∷ [])
      uart_irq
      uart
      (device_add_resource true (λ s. s) uart_irq uart)
device_add_resource_lem_example =
    device_add_resource_lem true (λ s. s) (uart_window ∷ uart_irq ∷ rtc_window ∷ []) uart_irq uart
      uart-Holds

abbrev bus : Family
bus = record { parent = resource_init 0 0x0900_0000 0x09ff_ffff 0; children = [] }

abbrev object : ℕ → Resource
object at = if at == 2 then rtc_window else uart_window

abbrev moves : List Change
moves = add 1 ∷ add 2 ∷ add 3 ∷ add 1 ∷ remove 1 ∷ add 3 ∷ []

abbrev divided_bus : Family
divided_bus = record bus { children = 3 ∷ 2 ∷ [] }

moved : change_each object moves bus ≡ ok divided_bus
unfolding all_code
moved = refl

found : resource_find_child object 0x0901_0000 0x0901_0fff divided_bus ≡ some 2
unfolding all_code
found = refl

-- a resource that ends before it starts does not meet itself, and linking it twice makes a ring
ring :
    change_each (λ at. resource_init 0 0x0900_2000 0x0900_1000 0) (add 1 ∷ add 1 ∷ []) bus ≡ fault
unfolding all_code
ring = refl

change_each-Divided_example :
    (f' : Family) × (change_each object moves bus ≡ ok f') × Divided object f'
change_each-Divided_example =
    change_each-Divided object moves bus
      (omega arith, (omega arith, (omega arith, (omega arith, (omega arith, tt))))) tt
