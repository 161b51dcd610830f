-- ===== src/Device/Resource/Division.antt =====
-- The children of a resource lie inside it, and no two of one type meet.
use mathlib.Core.Bool.{true≢false}
use proto_kernel.Prelude.{
  ℕ, ◌≤◌, ◌<◌, ◌≡◌, ◌≢◌, ◌⊎◌, inl, inr, refl, sym, ap, subst, ◌∙◌, arith, Bool, true, false, not,
  Option, none, some, List, [], ◌∷◌, ◌==◌, if◌then◌else◌, Bool-cases, Outcome, ok, fault, ◌>>=◌,
}
use proto_kernel.Device.Resource.{
  Resource, resource_contains, resource_overlaps, Family, conflicts, linked, resource_add_child,
  unlink, resource_remove_child,
}

abbrev pub Within : (parent child : Resource) → Type 0
Within parent child = (parent.start ≤ child.start) × (child.end ≤ parent.end)

abbrev pub Apart : (r s : Resource) → Type 0
Apart r s = (r.res_type ≢ s.res_type) ⊎ ((r.end < s.start) ⊎ (s.end < r.start))

contains-Within :
    (parent child : Resource) → resource_contains parent child ≡ true → Within parent child
contains-Within parent child e = ground arith

Within-contains :
    (parent child : Resource) → Within parent child → resource_contains parent child ≡ true
Within-contains parent child (low, high) = ground arith

overlaps-Apart : (r s : Resource) → resource_overlaps r s ≡ false → Apart r s
overlaps-Apart r s e = ground arith

Apart-overlaps : (r s : Resource) → Apart r s → resource_overlaps r s ≡ false
Apart-overlaps r s apart = ground arith

overlaps-itself : (r : Resource) → r.start ≤ r.end → resource_overlaps r r ≡ true
overlaps-itself r ordered = ground arith

-- a request to divide a resource further, or to take back a part
pub data Change : Type 0 where
  add : (at : ℕ) → Change
  remove : (at : ℕ) → Change

module _ (object : ℕ → Resource) where
  abbrev pub ApartFromAll : Resource → List ℕ → Type 0
  ApartFromAll r [] = Unit
  ApartFromAll r (s ∷ rest) = Apart (object s) r × ApartFromAll r rest

  abbrev pub Divides : (parent : Resource) → List ℕ → Type 0
  Divides parent [] = Unit
  Divides parent (s ∷ rest) =
      Within parent (object s) × ApartFromAll (object s) rest × Divides parent rest

  abbrev pub Divided : Family → Type 0
  Divided f = Divides f.parent f.children

  -- the parts that are added do not end before they start
  abbrev pub EachOrdered : List Change → Type 0
  EachOrdered [] = Unit
  EachOrdered (add at ∷ rest) = ((object at).start ≤ (object at).end) × EachOrdered rest
  EachOrdered (remove at ∷ rest) = EachOrdered rest

  abbrev pub change : Change → Family → Outcome Family
  change (add at) f = resource_add_child object at f >>= λ r. ok r.1
  change (remove at) f = ok (resource_remove_child at f).1

  unfoldable pub change_each : List Change → Family → Outcome Family
  change_each [] f = ok f
  change_each (c ∷ rest) f = change c f >>= change_each rest

  conflicts-ApartFromAll :
      (child : Resource) (l : List ℕ) → conflicts object child l ≡ false → ApartFromAll child l
  unfolding conflicts
  conflicts-ApartFromAll child [] e = tt
  conflicts-ApartFromAll child (s ∷ rest) e =
      elim (Bool-cases (resource_overlaps (object s) child)) [
        | inl meets ↦ cc (meets, e)
        | inr apart ↦ (
          overlaps-Apart (object s) child apart,
          conflicts-ApartFromAll child rest
              (sym (ap (λ b. if b then true else conflicts object child rest) apart) ∙ e),
        )
      ]

  ApartFromAll-conflicts :
      (child : Resource) (l : List ℕ) → ApartFromAll child l → conflicts object child l ≡ false
  unfolding conflicts
  ApartFromAll-conflicts child [] apart = refl
  ApartFromAll-conflicts child (s ∷ rest) (apart, each) =
      ap (λ b. if b then true else conflicts object child rest)
        (Apart-overlaps (object s) child apart)
      ∙ ApartFromAll-conflicts child rest each

  -- a child that is linked meets itself
  linked-conflicts :
      (at : ℕ) (l : List ℕ)
      → (object at).start ≤ (object at).end
      → conflicts object (object at) l ≡ false
      → linked at l ≡ false
  unfolding conflicts linked
  linked-conflicts at [] ordered e = refl
  linked-conflicts at (s ∷ rest) ordered e =
      elim (Bool-cases (resource_overlaps (object s) (object at))) [
        | inl meets ↦ cc (meets, e)
        | inr apart ↦ elim (Bool-cases (s == at)) [
          | inl same ↦
              let here : at ≡ s = ground arith in
              let itself : resource_overlaps (object s) (object at) ≡ true =
                subst (λ n. resource_overlaps (object n) (object at) ≡ true) here
                  (overlaps-itself (object at) ordered) in
              absurd (true≢false (sym itself ∙ apart))
          | inr other ↦
              ap (λ b. if b then true else linked at rest) other
              ∙ linked-conflicts at rest ordered
                  (sym (ap (λ b. if b then true else conflicts object (object at) rest) apart) ∙ e)
        ]
      ]

  -- what a call of `resource_add_child` comes to
  abbrev pub Added : (at : ℕ) → (f : Family) → Bool × Family → Type 0
  Added at f (true, f') =
      Within f.parent (object at)
      × ApartFromAll (object at) f.children
      × (f' ≡ record f { children = at ∷ f.children })
  Added at f (false, f') =
      (¬ (Within f.parent (object at) × ApartFromAll (object at) f.children)) × (f' ≡ f)

  pub resource_add_child_lem :
      (at : ℕ) (f : Family)
      → (object at).start ≤ (object at).end
      → (r : Bool × Family) × (resource_add_child object at f ≡ ok r) × Added at f r
  unfolding resource_add_child
  resource_add_child_lem at f ordered =
      by_tests (resource_contains f.parent (object at)) (conflicts object (object at) f.children)
        refl refl
    where
      Result : Outcome (Bool × Family) → Type 0
      Result o = (r : Bool × Family) × (o ≡ ok r) × Added at f r

      by_tests :
          (b c : Bool)
          → resource_contains f.parent (object at) ≡ b
          → conflicts object (object at) f.children ≡ c
          → Result (
              if not b
              then ok (false, f)
              else if c
              then ok (false, f)
              else if linked at f.children
              then fault
              else ok (true, record f { children = at ∷ f.children }))
      by_tests false c e e' = (
        (false, f),
        refl,
        ((λ fits. true≢false (sym (Within-contains f.parent (object at) fits.0) ∙ e)), refl),
      )
      by_tests true true e e' = (
        (false, f),
        refl,
        (
          (λ fits. true≢false (sym e' ∙ ApartFromAll-conflicts (object at) f.children fits.1)),
          refl,
        ),
      )
      by_tests true false e e' = (
        (true, record f { children = at ∷ f.children }),
        rw (linked-conflicts at f.children ordered e') refl,
        (
          contains-Within f.parent (object at) e,
          conflicts-ApartFromAll (object at) f.children e',
          refl,
        ),
      )

  -- of the list that is left, if there is one
  abbrev LeftDivides : (parent : Resource) → Option (List ℕ) → Type 0
  LeftDivides parent none = Unit
  LeftDivides parent (some l) = Divides parent l

  abbrev LeftApart : Resource → Option (List ℕ) → Type 0
  LeftApart r none = Unit
  LeftApart r (some l) = ApartFromAll r l

  unlink-ApartFromAll :
      (at : ℕ) (r : Resource) (l : List ℕ) → ApartFromAll r l → LeftApart r (unlink at l)
  unfolding unlink
  unlink-ApartFromAll at r [] apart = tt
  unlink-ApartFromAll at r (s ∷ rest) (apart, each) =
      step (s == at) (unlink at rest) (unlink-ApartFromAll at r rest each)
    where
      step :
          (b : Bool) (later : Option (List ℕ))
          → LeftApart r later
          → LeftApart r
              (if b then some rest else elim later [ none ↦ none | some left ↦ some (s ∷ left) ])
      step true later given = each
      step false none given = tt
      step false (some left) given = (apart, given)

  unlink-Divides :
      (at : ℕ) (parent : Resource) (l : List ℕ)
      → Divides parent l
      → LeftDivides parent (unlink at l)
  unfolding unlink
  unlink-Divides at parent [] divides = tt
  unlink-Divides at parent (s ∷ rest) (within, apart, divides) =
      step (s == at) (unlink at rest) (unlink-Divides at parent rest divides)
        (unlink-ApartFromAll at (object s) rest apart)
    where
      step :
          (b : Bool) (later : Option (List ℕ))
          → LeftDivides parent later
          → LeftApart (object s) later
          → LeftDivides parent
              (if b then some rest else elim later [ none ↦ none | some left ↦ some (s ∷ left) ])
      step true later given apart = divides
      step false none given apart = tt
      step false (some left) given apart = (within, apart, given)

  resource_add_child-Divided :
      (at : ℕ) (f : Family) (r : Bool × Family) → Added at f r → Divided f → Divided r.1
  resource_add_child-Divided at f (true, f') (within, apart, e) divided =
      subst Divided (sym e) (within, apart, divided)
  resource_add_child-Divided at f (false, f') (unfit, e) divided = subst Divided (sym e) divided

  resource_remove_child-Divided :
      (at : ℕ) (f : Family) → Divided f → Divided (resource_remove_child at f).1
  unfolding resource_remove_child
  resource_remove_child-Divided at f divided =
      on (unlink at f.children) (unlink-Divides at f.parent f.children divided)
    where
      on :
          (left : Option (List ℕ))
          → LeftDivides f.parent left
          → Divided
              (elim left as (λ _. Bool × Family) [
                | none ↦ (false, f)
                | some left ↦ (true, record f { children = left })
              ]).1
      on none given = divided
      on (some left) given = given

  -- From a parent whose children lie inside it, no two of one type meeting, every sequence of
  -- resource_add_child and resource_remove_child calls on it, in which no resource that is added
  -- ends before it starts, returns without closing the list of children to a ring, and ends in
  -- such a parent.
  pub change_each-Divided :
      (changes : List Change) (f : Family)
      → EachOrdered changes
      → Divided f
      → (f' : Family) × (change_each changes f ≡ ok f') × Divided f'
  unfolding change_each
  change_each-Divided [] f ordered divided = (f, refl, divided)
  change_each-Divided (add at ∷ rest) f (first, ordered) divided =
      let (r, run, added) = resource_add_child_lem at f first in
      let (f', runs, divided') =
        change_each-Divided rest r.1 ordered (resource_add_child-Divided at f r added divided) in
      (f', rw run runs, divided')
  change_each-Divided (remove at ∷ rest) f ordered divided =
      change_each-Divided rest (resource_remove_child at f).1 ordered
        (resource_remove_child-Divided at f divided)
