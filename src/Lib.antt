-- ===== src/Lib.antt =====
-- ProtoKernel, a 64-bit kernel for ARMv8 and RISC-V, in C: the parts of kernel/ that keep state or
-- compute, as functions on explicit states.
--
-- Prelude and Bits hold what all parts share: tests, C arrays as lists, the result of a call (it
-- returns, it panics, or it leaves an object), unsigned words with their wrap-around written out, and
-- the bit laws. Bitmap is the bitmap of 64-bit words that irq_alloc.c and pmm.c both keep, with its two
-- searches.
--
-- Irq/Virq is kernel/irq/irq_alloc.c. Its state is `struct virq_allocator`; the lock is not in the
-- state, since each operation is one critical section of it and so a step of the whole state.
-- `kmalloc` of kernel/memory/kmalloc.c is an argument that says whether memory was found.
--
-- Irq/Domain is the part of kernel/irq/irq_domain.c that takes and gives back ranges of hardware
-- interrupt numbers; a domain is its mapping, and a tree domain keeps its numbers in the tree of Radix.
--
-- Irq/Desc is kernel/irq/irq_desc.c with generic_handle_irq of kernel/irq/irq_chip.c, whose default chip
-- operations are Irq/Chip. What the handlers of a dispatch do to the descriptor is a parameter, `run`:
-- Irq/Desc/Dispatch states what is asked of it, and that the chain is left alone is part of that.
--
-- Device/Resource is kernel/device/resource.c: the array of a device, with what the device pool answers
-- as parameters, and one parent with the list of its children, each in this list only and named by its
-- address. A call that would close that list to a ring is a fault.
--
-- Memory/Bootstrap is kernel/memory/pmm_bootstrap.c, which hands out the memory of the bitmaps while
-- pmm_init runs.
--
-- Memory/Pmm is kernel/memory/pmm.c: the regions with their bitmaps, and the counters. The definitions
-- of allocation and of freeing are in Pmm, those of reservation in Pmm/Reserve, the queries in
-- Pmm/Queries, pmm_init in Pmm/Init; what pmm_init reads of the device tree, the linker and the boot
-- code is a record, and Pmm/Layout says where things go without the code's own arithmetic. The count of
-- regions is an int that the device tree parser counts up from 0, and so a natural number here.
-- Printing is left out; clearing a page is kept as an entry of a log. `vmm_is_dmap_ready` and the bounds
-- of the direct map are an argument. A range touches a page that it shares an address with, and an empty
-- range the page it begins inside.
--
-- Memory/MemMap is kernel/memory/memmap.c, the sorted list of what lies where; the addresses that the
-- linker sets are a record.
--
-- Radix is kernel/lib/radix_tree.c with kernel/lib/radix_tree_alloc.c: the tree in Radix, the cache of
-- nodes in Radix/Cache, radix_tree_insert in Radix/Insert, radix_tree_delete, radix_tree_shrink and
-- radix_tree_replace in Radix/Delete, the tags in Radix/Tags, the iterators in Radix/Iterate and
-- Radix/IterateTagged, the counts in Radix/Stats. The nodes are values, so a node stands in one place; a
-- walk up the parent pointers is the way back from the walk down. Radix/Machine holds the map that a
-- tree stands for.
--
-- Strings is kernel/lib/string.c, without snprintf.
--
-- Most loops run by structural recursion on the rounds that are left. Three loops of the radix tree run
-- on fuel: the search for a height has a round for each level from the first to the sixth, and the sixth
-- holds every index; both iterators have a round for each index up to max_key, and each round moves the
-- index up. The cap of 31 digits in num_to_str is the code's own and is enough for 64 bits.
--
-- Not modelled: the buddy, slab and kmalloc allocators, the virtual memory manager, the mappings of the
-- interrupt domains, the tree of devices with its pool and the matching of drivers, the device tree
-- parser, the register access of the drivers, the serial ports, and the assembly.
mod Prelude
pub mod Bits
pub mod Bitmap
pub mod Irq
pub mod Device
pub mod Memory
pub mod Strings
pub mod Radix
