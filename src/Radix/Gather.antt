-- ===== src/Radix/Gather.antt =====
-- `radix_tree_gang_lookup`: the items in the order of their keys.
use proto_kernel.Prelude.{
  ℕ, zero, suc, ◌+◌, ◌^◌, ◌<◌, ◌≡◌, ◌≢◌, sym, ap, subst, ◌∙◌, arith, Option, none, some, List, [],
  ◌∷◌,
}
use proto_kernel.Radix.{Root, radix_tree_lookup}
use proto_kernel.Radix.Iterate.{next_slot, next_index, gang_from, gang_lookup}
use proto_kernel.Radix.Extended.{found, RnodeValid}
use proto_kernel.Radix.Next.{Next}
use proto_kernel.Radix.MaxKey.{Bounded, next_slot_lem}

-- the items of the keys from `index` on, in the order of the keys, `left` at most
pub data Gathered (f : ℕ → ℕ) : (left index : ℕ) → List ℕ → Type 0 where
  full : {index : ℕ} → Gathered f 0 index []
  last : {left index : ℕ} → Next f index none → Gathered f left index []
  more :
      {left index key item : ℕ} {rest : List ℕ}
      → Next f index (some (key, item))
      → Gathered f left (key + 1) rest
      → Gathered f (suc left) index (item ∷ rest)

module _ (root : Root) (v : RnodeValid root.rnode) (bound : Bounded root)
    (top : radix_tree_lookup root 0xffff_ffff ≡ 0) where
  gang_from-Gathered :
      (left index : ℕ)
      → index < 2 ^ 32
      → Gathered (radix_tree_lookup root) left index (gang_from left root index)
  unfolding gang_from
  gang_from-Gathered zero index w = full
  gang_from-Gathered (suc left) index w =
      go (next_slot root index) (next_slot_lem root index v bound w)
        (λ index w. gang_from-Gathered left index w)
    where
      go :
          (o : Option (ℕ × ℕ))
          → Next (radix_tree_lookup root) index o
          → ((index : ℕ)
              → index < 2 ^ 32
              → Gathered (radix_tree_lookup root) left index (gang_from left root index))
          → Gathered (radix_tree_lookup root) (suc left) index (elim o as (λ o. List ℕ) [
            | none ↦ []
            | some (found, item) ↦ item ∷ gang_from left root (next_index found)
          ])
      go none next rec = last next
      go (some (key, item)) (lo, hi, nz, at, least) rec =
          let inner : key ≢ 0xffff_ffff = λ e. nz (sym at ∙ ap (radix_tree_lookup root) e ∙ top) in
          let step : next_index key ≡ key + 1 = ground arith in
          more (lo, hi, nz, at, least)
            (subst
              (λ next. Gathered (radix_tree_lookup root) left (key + 1) (gang_from left root next))
              (sym step) (rec (key + 1) (omega arith)))

  -- In a valid tree with no key above max_key and no item at 0xFFFFFFFF, radix_tree_gang_lookup
  -- from an index below 2^32 gives the items from there on in the order of their keys, as many as
  -- there are or max_items of them.
  pub gang_lookup_lem :
      (first_index max_items : ℕ)
      → first_index < 2 ^ 32
      → Gathered
          (radix_tree_lookup root)
          max_items
          first_index
          (gang_lookup root first_index max_items)
  unfolding gang_lookup
  gang_lookup_lem first_index max_items w = gang_from-Gathered max_items first_index w
