-- ===== src/Radix/Machine.antt =====
-- Sequences of insertions and deletions, as steps of a machine whose state is the map alone.
use proto_kernel.Prelude.{
  ℕ, ◌^◌, ◌<◌, ◌≡◌, ◌≢◌, inl, inr, refl, sym, subst, ◌∙◌, Bool, true, false, List, [], ◌∷◌, ◌==◌,
  if◌then◌else◌, Bool-cases,
}
use proto_kernel.Radix.{radix_tree_init, Root, point, radix_tree_lookup}
use proto_kernel.Radix.Cache.{Cache}
use proto_kernel.Radix.Insert.{radix_tree_insert}
use proto_kernel.Radix.Delete.{radix_tree_delete}
use proto_kernel.Radix.Extended.{RnodeValid}
use proto_kernel.Radix.Refine.{Inserted, radix_tree_insert_lem}
use proto_kernel.Radix.Removed.{radix_tree_delete_lem}

pub data Call : Type 0 where
  insert : (index item : ℕ) → Call
  delete : (index : ℕ) → Call

-- the answer is the item that a deletion gives, and 1 for an insertion that is done
abbrev pub call : Call → Root × Cache → ℕ × Root × Cache
call (insert index item) (root, k) =
    let (done, root, k) = radix_tree_insert index item root k in (if done then 1 else 0, root, k)
call (delete index) (root, k) = radix_tree_delete index root k

abbrev pub calls : List Call → Root × Cache → List ℕ × Root × Cache
calls [] (root, k) = ([], root, k)
calls (c ∷ rest) s =
    let (answer, root, k) = call c s in
    let (answers, root, k) = calls rest (root, k) in (answer ∷ answers, root, k)

-- An insertion takes a free key, or is refused and changes nothing; a deletion gives what the key
-- has and frees the key.
pub data Step (f : ℕ → ℕ) : Call → (answer : ℕ) → (ℕ → ℕ) → Type 0 where
  taken :
      {index item : ℕ} → item ≢ 0 → f index ≡ 0 → Step f (insert index item) 1 (point f index item)
  refused : {index item : ℕ} → Step f (insert index item) 0 f
  freed : {index : ℕ} → Step f (delete index) (f index) (point f index 0)

pub data Steps : (ℕ → ℕ) → List Call → List ℕ → (ℕ → ℕ) → Type 0 where
  done : {f : ℕ → ℕ} → Steps f [] [] f
  next :
      {c : Call} {rest : List Call} {answer : ℕ} {answers : List ℕ} {f g h : ℕ → ℕ}
      → Step f c answer g
      → Steps g rest answers h
      → Steps f (c ∷ rest) (answer ∷ answers) h

abbrev pub key_of : Call → ℕ
key_of (insert index item) = index
key_of (delete index) = index

abbrev pub Keys : List Call → Type 0
Keys [] = Unit
Keys (c ∷ rest) = (key_of c < 2 ^ 32) × Keys rest

abbrev pub Holds : (ℕ → ℕ) → Root → Type 0
Holds f root = RnodeValid root.rnode × ((j : ℕ) → j < 2 ^ 32 → radix_tree_lookup root j ≡ f j)

insert-Step :
    (f : ℕ → ℕ) (root : Root) (index item : ℕ) (r : Bool × Root × Cache)
    → index < 2 ^ 32
    → Holds f root
    → Inserted root index item r
    → (g : ℕ → ℕ) × Step f (insert index item) (if r.0 then 1 else 0) g × Holds g r.1
insert-Step f root index item (true, root', k) w (v, holds) (v', free, looks) =
    let (nz, e) = free refl in
    (
      point f index item,
      taken nz (sym (holds index w) ∙ e),
      (
        v',
        λ j wj. looks j wj ∙ elim (Bool-cases (j == index)) [
          | inl at ↦ rw at refl
          | inr off ↦ rw off (holds j wj)
        ],
      ),
    )
insert-Step f root index item (false, root', k) w (v, holds) (v', free, looks) =
    (f, refused, (v', λ j wj. looks j wj ∙ holds j wj))

call-Step :
    (c : Call) (f : ℕ → ℕ) (root : Root) (k : Cache)
    → key_of c < 2 ^ 32
    → Holds f root
    → (g : ℕ → ℕ) × Step f c (call c (root, k)).0 g × Holds g (call c (root, k)).1
call-Step (insert index item) f root k w holds =
    insert-Step f root index item (radix_tree_insert index item root k) w holds
      (radix_tree_insert_lem root index item k holds.0 w)
call-Step (delete index) f root k w (v, holds) =
    let (v', is, looks) = radix_tree_delete_lem root index k v w in
    (
      point f index 0,
      subst (λ answer. Step f (delete index) answer (point f index 0)) (sym (is ∙ holds index w))
          freed,
      (
        v',
        λ j wj. looks j wj ∙ elim (Bool-cases (j == index)) [
          | inl at ↦ rw at refl
          | inr off ↦ rw off (holds j wj)
        ],
      ),
    )

-- From a tree that holds a map of the indices below 2^32, any sequence of radix_tree_insert and
-- radix_tree_delete at such indices answers as the map machine does, and leaves a tree that holds
-- its map: an insertion takes a free key for an item that is not NULL, or is refused and changes
-- nothing, and a deletion gives what its key has and frees the key.
pub calls-Steps :
    (cs : List Call) (f : ℕ → ℕ) (root : Root) (k : Cache)
    → Keys cs
    → Holds f root
    → (g : ℕ → ℕ) × Steps f cs (calls cs (root, k)).0 g × Holds g (calls cs (root, k)).1
calls-Steps [] f root k w holds = (f, done, holds)
calls-Steps (c ∷ cs) f root k (w, ws) holds =
    let (g, step, holds') = call-Step c f root k w holds in
    let (h, steps, holds'') =
      calls-Steps cs g (call c (root, k)).1 (call c (root, k)).2 ws holds' in
    (h, next step steps, holds'')

pub radix_tree_init-Holds : Holds (λ j. 0) radix_tree_init
unfolding radix_tree_lookup
radix_tree_init-Holds = (tt, λ j w. refl)
