-- ===== src/Strings/Order.antt =====
-- What the comparisons compute: the lexicographic order of the two texts.
use proto_kernel.Prelude.{
  ℕ, zero, suc, ◌+◌, ◌-◌, ◌<◌, ◌≡◌, ◌≢◌, ◌⊎◌, inl, inr, refl, sym, subst, ◌∙◌, ap, arith, true,
  false, List, [], ◌∷◌, ◌++◌, ◌==◌, leb, length, take, ok, Bool-cases,
}
use proto_kernel.Strings.Compare.{
  Chars, ℤ, pos, negsuc, difference, length_from, strlen, both, strcmp, strncmp,
}

-- no byte is the terminator
abbrev pub Text : List ℕ → Type 0
Text [] = Unit
Text (c ∷ cs) = (0 < c) × Text cs

-- a pointer to the text: the text, the terminator, and what follows in the array
abbrev pub terminated : List ℕ → List ℕ → Chars
terminated cs rest = cs ++ 0 ∷ rest

length_from-Text :
    (cs rest : List ℕ) (len : ℕ)
    → Text cs
    → length_from (terminated cs rest) len ≡ ok (len + length cs)
unfolding length_from
length_from-Text [] rest len text = ap ok (omega arith)
length_from-Text (c ∷ cs) rest len text =
    let char : (c == 0) ≡ false = ground (arith, text.0) in
    rw char (length_from-Text cs rest (len + 1) text.1 ∙ ap ok (omega arith))

pub strlen_lem : (cs rest : List ℕ) → Text cs → strlen (terminated cs rest) ≡ ok (length cs)
unfolding strlen
strlen_lem cs rest text = length_from-Text cs rest 0 text ∙ ap ok (omega arith)

-- lexicographic order of bytes
abbrev pub Less : List ℕ → List ℕ → Type 0
Less [] [] = ⊥
Less [] (d ∷ ds) = Unit
Less (c ∷ cs) [] = ⊥
Less (c ∷ cs) (d ∷ ds) = (c < d) ⊎ ((c ≡ d) × Less cs ds)

-- The sign of a result says how the texts compare.
pub data Verdict (cs ds : List ℕ) : ℤ → Type 0 where
  equal : cs ≡ ds → Verdict cs ds (pos 0)
  less : (k : ℕ) → Less cs ds → Verdict cs ds (negsuc k)
  greater : (k : ℕ) → Less ds cs → Verdict cs ds (pos (suc k))

Verdict-cons :
    (c d : ℕ) (cs ds : List ℕ) (z : ℤ) → c ≡ d → Verdict cs ds z → Verdict (c ∷ cs) (d ∷ ds) z
Verdict-cons c d cs ds (pos zero) e (equal same) = equal (cc (e, same))
Verdict-cons c d cs ds (negsuc k) e (less _ l) = less k (inr (e, l))
Verdict-cons c d cs ds (pos (suc k)) e (greater _ l) = greater k (inr (sym e, l))

module _ (a b : ℕ) (cs ds : List ℕ) where
  Verdict-lower : a < b → Less cs ds → Verdict cs ds (difference a b)
  Verdict-lower h l = let e : leb b a ≡ false = ground arith in rw e (less (b - a - 1) l)

  Verdict-higher : b < a → Less ds cs → Verdict cs ds (difference a b)
  Verdict-higher h l =
      let e : leb b a ≡ true = ground arith in
      let some_more : suc (a - b - 1) ≡ a - b = omega arith in
      rw e (subst (λ n. Verdict cs ds (pos n)) some_more (greater (a - b - 1) l))

-- the first place where the texts differ
Verdict-parted :
    (c d : ℕ) (cs ds : List ℕ)
    → 0 < c
    → both c d ≡ false
    → Verdict (c ∷ cs) (d ∷ ds) (difference c d) ⊎ (d ≡ 0)
Verdict-parted c d cs ds pc stop = elim (Bool-cases (d == 0)) [
  | inl zero_d ↦ inr (ground arith)
  | inr some_d ↦ elim (Bool-cases (leb d c)) [
    | inl high ↦ inl (Verdict-higher c d (c ∷ cs) (d ∷ ds) (ground arith) (inl (ground arith)))
    | inr low ↦ inl (Verdict-lower c d (c ∷ cs) (d ∷ ds) (ground arith) (inl (ground arith)))
  ]
]

Verdict-differ :
    (c d : ℕ) (cs ds : List ℕ)
    → 0 < c
    → 0 < d
    → both c d ≡ false
    → Verdict (c ∷ cs) (d ∷ ds) (difference c d)
Verdict-differ c d cs ds pc pd stop = elim (Verdict-parted c d cs ds pc stop) [
  | inl v ↦ v
  | inr z ↦ absurd (omega arith)
]

-- For two terminated texts strcmp returns 0 for equal texts, a negative number if the first is
-- less in the lexicographic order of bytes, and a positive number if the second is less.
pub strcmp_lem :
    (cs ds rest rest' : List ℕ)
    → Text cs
    → Text ds
    → (z : ℤ) × (strcmp (terminated cs rest) (terminated ds rest') ≡ ok z) × Verdict cs ds z
unfolding strcmp
strcmp_lem [] [] rest rest' tc td = (pos 0, refl, equal refl)
strcmp_lem [] (d ∷ ds) rest rest' tc td =
    (difference 0 d, refl, Verdict-lower 0 d [] (d ∷ ds) td.0 tt)
strcmp_lem (c ∷ cs) [] rest rest' tc td =
    let stop : both c 0 ≡ false = ground (arith, tc.0) in
    (difference c 0, rw stop refl, Verdict-higher c 0 (c ∷ cs) [] tc.0 tt)
strcmp_lem (c ∷ cs) (d ∷ ds) rest rest' tc td = elim (Bool-cases (both c d)) [
  | inl go ↦
      let (z, run, v) = strcmp_lem cs ds rest rest' tc.1 td.1 in
      (z, rw go run, Verdict-cons c d cs ds z (ground arith) v)
  | inr stop ↦ (difference c d, rw stop refl, Verdict-differ c d cs ds tc.0 td.0 stop)
]

-- For two terminated texts and a count, strncmp returns 0, a negative or a positive number as the
-- texts cut to the count are equal, in lexicographic order, or in the opposite order.
pub strncmp_lem :
    (cs ds rest rest' : List ℕ) (n : ℕ)
    → Text cs
    → Text ds
    → (z : ℤ) × (strncmp (terminated cs rest) (terminated ds rest') n ≡ ok z)
      × Verdict (take n cs) (take n ds) z
unfolding strncmp
strncmp_lem cs ds rest rest' zero tc td = (pos 0, refl, equal refl)
strncmp_lem [] [] rest rest' (suc n) tc td = (pos 0, refl, equal refl)
strncmp_lem [] (d ∷ ds) rest rest' (suc n) tc td =
    (difference 0 d, refl, Verdict-lower 0 d [] (d ∷ take n ds) td.0 tt)
strncmp_lem (c ∷ cs) [] rest rest' (suc n) tc td =
    let stop : both c 0 ≡ false = ground (arith, tc.0) in
    (difference c 0, rw stop refl, Verdict-higher c 0 (c ∷ take n cs) [] tc.0 tt)
strncmp_lem (c ∷ cs) (d ∷ ds) rest rest' (suc n) tc td = elim (Bool-cases (both c d)) [
  | inl go ↦
      let (z, run, v) = strncmp_lem cs ds rest rest' n tc.1 td.1 in
      (z, rw go run, Verdict-cons c d (take n cs) (take n ds) z (ground arith) v)
  | inr stop ↦
      (difference c d, rw stop refl, Verdict-differ c d (take n cs) (take n ds) tc.0 td.0 stop)
]

Less-irreflexive : (cs : List ℕ) → Less cs cs → ⊥
Less-irreflexive [] l = elim l [ ]
Less-irreflexive (c ∷ cs) (inl h) = omega arith
Less-irreflexive (c ∷ cs) (inr (e, l)) = Less-irreflexive cs l

Less-≢ : (cs ds : List ℕ) → Less cs ds → cs ≢ ds
Less-≢ cs ds l e = Less-irreflexive cs (subst (Less cs) (sym e) l)

-- A result other than 0 is a difference of the texts.
pub Verdict-≢ : (cs ds : List ℕ) (z : ℤ) → z ≢ pos 0 → Verdict cs ds z → cs ≢ ds
Verdict-≢ cs ds (pos zero) ne (equal same) = absurd (ne refl)
Verdict-≢ cs ds (negsuc k) ne (less _ l) = Less-≢ cs ds l
Verdict-≢ cs ds (pos (suc k)) ne (greater _ l) = λ e. Less-≢ ds cs l (sym e)

pub Verdict-≡ : (cs ds : List ℕ) → Verdict cs ds (pos 0) → cs ≡ ds
Verdict-≡ cs ds (equal same) = same
