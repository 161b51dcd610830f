-- ===== src/Radix.antt =====
-- kernel/lib/radix_tree.c: a tree of nodes with 64 slots. A tree of level `h` is a leaf for 0 and a
-- node above trees of level `h - 1` otherwise; slots are a function of the offset, which the code
-- masks below 64. The parent pointers follow the tree and are left out: a walk up is a return from
-- the walk down. `rnode` and `height` are null and 0 together. Each operation is one critical section
-- of the root's lock.
pub mod Cache
pub mod Insert
pub mod Delete
pub mod Tags
pub mod Iterate
pub mod Stats
pub mod Live
pub mod Replaced
pub mod IterateTagged
pub mod Tagged
pub mod MaxKey
pub mod Gather
pub mod TagWalk
pub mod Next
pub mod Skip
pub mod Machine
pub mod Removed
pub mod Deleted
pub mod Supply
pub mod Refine
pub mod Extended
pub mod Heights
pub mod Inserted
pub mod Paths
pub mod Valid
mod Tests
use Prim.Native.Nat.{bit_and, bit_or}
use proto_kernel.Prelude.{
  ℕ, zero, suc, ◌+◌, ◌-◌, ◌*◌, ◌/◌, ◌%◌, ◌^◌, Bool, true, false, not, ◌&&◌, Option, none, some,
  ◌==◌, ltb, leb, if◌then◌else◌,
}
use proto_kernel.Bits.{one_shl, complement}

pub record Node (S : Type 0) : Type 0 where
  pub height : ℕ
  pub count : ℕ
  pub slots : ℕ → S
  pub tags : ℕ → ℕ

-- a leaf's slots hold item pointers, 0 is NULL
abbrev pub Tree : ℕ → Type 0
Tree zero = Node ℕ
Tree (suc h) = Node (Option (Tree h))

pub data Rnode : Type 0 where
  null : Rnode
  tree : (h : ℕ) → Tree h → Rnode

pub record Root : Type 0 where
  pub rnode : Rnode
  pub max_key : ℕ

-- a pointer that is not NULL
abbrev pub is_some : {A : Type 0} → Option A → Bool
is_some none = false
is_some (some a) = true

abbrev pub height_of : Rnode → ℕ
height_of null = 0
height_of (tree h n) = suc h

abbrev pub map_size : ℕ
map_size = 64

-- `(index >> (height * 6)) & 63`
abbrev pub get_slot : ℕ → ℕ → ℕ
get_slot index height = index / 2 ^ (6 * height) % 64

unfoldable pub maxindex : ℕ → ℕ
maxindex height =
    if height == 0 then 0 else if leb 6 height then 2 ^ 32 - 1 else 2 ^ (height * 6) - 1

abbrev pub point {ℓ} : {S : Type ℓ} → (ℕ → S) → ℕ → S → ℕ → S
point f k v j = if j == k then v else f j

unfoldable pub node_create : (S : Type 0) → S → (height : ℕ) → Node S
node_create S empty height = record {
  height = height;
  count = 0;
  slots = λ j. empty;
  tags = λ tag. 0;
}

-- a new node of a level, with no child or item
unfoldable pub tree_create : (h : ℕ) → Tree h
tree_create zero = node_create ℕ 0 0
tree_create (suc h) = node_create (Option (Tree h)) none (suc h)

abbrev pub radix_tree_init : Root
radix_tree_init = record { rnode = null; max_key = 0 }

unfoldable pub count_of : (h : ℕ) → Tree h → ℕ
count_of zero n = n.count
count_of (suc h) n = n.count

-- a bit of the one word that a tag has
unfoldable pub tag_set : {S : Type 0} → Node S → (tag offset : ℕ) → Node S
tag_set n tag offset = record n {
  tags = point n.tags tag (bit_or (n.tags tag) (one_shl (offset % 64)));
}

unfoldable pub tag_clear : {S : Type 0} → Node S → (tag offset : ℕ) → Node S
tag_clear n tag offset = record n {
  tags = point n.tags tag (bit_and (n.tags tag) (complement (one_shl (offset % 64))));
}

unfoldable pub tag_get : {S : Type 0} → Node S → (tag offset : ℕ) → Bool
tag_get n tag offset = not (bit_and (n.tags tag) (one_shl (offset % 64)) == 0)

unfoldable pub any_tag_set : (h : ℕ) → Tree h → (tag : ℕ) → Bool
any_tag_set zero n tag = not (n.tags tag == 0)
any_tag_set (suc h) n tag = not (n.tags tag == 0)

-- the walk down to the item; 0 is NULL
unfoldable pub lookup_in : (h : ℕ) → Tree h → (index : ℕ) → ℕ
lookup_in zero n index = n.slots (get_slot index 0)
lookup_in (suc h) n index = elim (n.slots (get_slot index (suc h))) [
  | none ↦ 0
  | some child ↦ lookup_in h child index
]

unfoldable pub radix_tree_lookup : Root → ℕ → ℕ
radix_tree_lookup root index = elim root.rnode [
  | null ↦ 0
  | tree h n ↦ if ltb (maxindex (suc h)) index then 0 else lookup_in h n index
]
