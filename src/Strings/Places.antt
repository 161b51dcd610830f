-- ===== src/Strings/Places.antt =====
-- `strstr` and `strchr` find the first place.
use mathlib.Core.Option
use proto_kernel.Prelude.{
  ℕ, zero, suc, ◌+◌, ◌%◌, ◌<◌, ◌≡◌, ◌≢◌, inl, inr, refl, sym, subst, ◌∙◌, ap, arith, true, false,
  Option, none, some, List, [], ◌∷◌, ◌==◌, length, take, drop, take-length, get_elem?, ok,
  Bool-cases,
}
use proto_kernel.Strings.Compare.{ℤ, pos, negsuc}
use proto_kernel.Strings.Order.{
  Text, terminated, strlen_lem, Verdict, strncmp_lem, Verdict-≢, Verdict-≡,
}
use proto_kernel.Strings.Find.{is_zero, find_from, strstr, char_from, strchr}

-- the first of the offsets below `end` at which `P` holds, or none
pub data First (P : ℕ → Type 0) (end : ℕ) : Option ℕ → Type 0 where
  nowhere : ((j : ℕ) → j < end → P j → ⊥) → First P end none
  first : (k : ℕ) → k < end → P k → ((j : ℕ) → j < k → P j → ⊥) → First P end (some k)

earlier :
    (P : ℕ → Type 0) (k : ℕ)
    → (P 0 → ⊥)
    → ((j : ℕ) → j < k → P (suc j) → ⊥)
    → (j : ℕ) → j < suc k
    → P j
    → ⊥
earlier P k absent f zero h q = absent q
earlier P k absent f (suc j) h q = f j (omega arith) q

module _ {P : ℕ → Type 0} (end : ℕ) where
  First-here : P 0 → First P (suc end) (some 0)
  First-here p = first 0 (omega arith) p (λ j h q. omega arith)

  First-later :
      (o : Option ℕ)
      → (P 0 → ⊥)
      → First (λ j. P (suc j)) end o
      → First P (suc end) (Option.map suc o)
  First-later none absent (nowhere f) = nowhere (earlier P end absent f)
  First-later (some k) absent (first _ h p f) = first (suc k) (omega arith) p (earlier P k absent f)

-- `ds` stands in `cs` at offset `j`
abbrev pub Occurs : List ℕ → List ℕ → ℕ → Type 0
Occurs ds cs j = take (length ds) (drop j cs) ≡ ds

-- what an index counted from `at` says of one counted from 0
abbrev shift : ℕ → Option ℕ → Option ℕ
shift at o = Option.map (λ k. at + k) o

shift-suc : (at : ℕ) (o : Option ℕ) → shift (at + 1) o ≡ shift at (Option.map suc o)
shift-suc at none = refl
shift-suc at (some k) = ap some (omega arith)

shift-zero : (o : Option ℕ) → shift 0 o ≡ o
shift-zero none = refl
shift-zero (some k) = ap some (omega arith)

is_zero-pos : (z : ℤ) → is_zero z ≡ true → z ≡ pos 0
is_zero-pos (pos n) e = ap pos (ground arith)
is_zero-pos (negsuc k) e = cc e

is_zero-≢ : (z : ℤ) → is_zero z ≡ false → z ≢ pos 0
is_zero-≢ z no_zero e = let zero_too : is_zero z ≡ true = rw e in cc (no_zero, zero_too)

find_from-First :
    (ds cs rest rest' : List ℕ) (at : ℕ)
    → Text cs
    → Text ds
    → (o : Option ℕ) × (find_from (terminated cs rest) (terminated ds rest') (length ds) at
        ≡ ok (shift at o))
      × First (Occurs ds cs) (length cs) o
unfolding find_from
find_from-First ds [] rest rest' at tc td = (none, refl, nowhere (λ j h q. omega arith))
find_from-First ds (c ∷ cs) rest rest' at tc td =
    let char : (c == 0) ≡ false = ground (arith, tc.0) in
    let (z, order, v) = strncmp_lem (c ∷ cs) ds rest rest' (length ds) tc td in
    elim (Bool-cases (is_zero z)) [
      | inl same ↦
          let found : take (length ds) (c ∷ cs) ≡ take (length ds) ds =
            Verdict-≡ (take (length ds) (c ∷ cs)) (take (length ds) ds) (
              subst (Verdict (take (length ds) (c ∷ cs)) (take (length ds) ds)) (is_zero-pos z same)
                v) in
          (
            some 0,
            rw (char, order, same) (ap (λ k. ok (some k)) (omega arith)),
            First-here (length cs) (found ∙ take-length ds),
          )
      | inr differ ↦
          let (o, run, f) = find_from-First ds cs rest rest' (at + 1) tc.1 td in
          let absent : Occurs ds (c ∷ cs) 0 → ⊥ = λ q.
            Verdict-≢ (take (length ds) (c ∷ cs)) (take (length ds) ds) z (is_zero-≢ z differ) v
              (q ∙ sym (take-length ds)) in
          (
            Option.map suc o,
            rw (char, order, differ) (run ∙ ap ok (shift-suc at o)),
            First-later (length cs) o absent f,
          )
    ]

-- For terminated texts of which the second is not empty, strstr returns the first offset at which
-- the second stands in the first, or NULL if there is none.
pub strstr_lem :
    (cs ds rest rest' : List ℕ)
    → Text cs
    → Text ds
    → 0 < length ds
    → (o : Option ℕ) × (strstr (terminated cs rest) (terminated ds rest') ≡ ok o)
      × First (Occurs ds cs) (length cs) o
unfolding strstr
strstr_lem cs ds rest rest' tc td some_chars =
    let (o, run, f) = find_from-First ds cs rest rest' 0 tc td in
    let not_empty : (length ds == 0) ≡ false = ground arith in
    (o, rw (strlen_lem ds rest' td, not_empty) (run ∙ ap ok (shift-zero o)), f)

-- `c` stands in the text at offset `j`, or `c` is the terminator and `j` its place
abbrev pub CharAt : ℕ → List ℕ → ℕ → Type 0
CharAt c cs j = get_elem? (terminated cs []) j ≡ some c

some-≢ : {a b : ℕ} → (a == b) ≡ false → (some a ≡ some b) → ⊥
some-≢ {a} {b} ne e = let same : a ≡ b = cc e in ground arith

char_from-First :
    (cs rest : List ℕ) (c at : ℕ)
    → Text cs
    → c < 256
    → (o : Option ℕ) × (char_from (terminated cs rest) c at ≡ ok (shift at o))
      × First (CharAt c cs) (suc (length cs)) o
unfolding char_from
char_from-First [] rest c at text small = elim (Bool-cases (c == 0)) [
  | inl end ↦
      (some 0, rw end (ap (λ k. ok (some k)) (omega arith)), First-here 0 (ap some (ground arith)))
  | inr other ↦
      let absent : CharAt c [] 0 → ⊥ = λ q. some-≢ (ground arith) q in
      (none, rw other refl, First-later 0 none absent (nowhere (λ j h q. omega arith)))
]
char_from-First (b ∷ cs) rest c at text small =
    let char : (b == 0) ≡ false = ground (arith, text.0) in
    let byte : c % 256 ≡ c = omega arith in
    elim (Bool-cases (b == c)) [
      | inl same ↦ (
        some 0,
        rw (char, byte, same) (ap (λ k. ok (some k)) (omega arith)),
        First-here (suc (length cs)) (ap some (ground arith)),
      )
      | inr other ↦
          let (o, run, f) = char_from-First cs rest c (at + 1) text.1 small in
          (
            Option.map suc o,
            rw (char, byte, other) (run ∙ ap ok (shift-suc at o)),
            First-later (suc (length cs)) o (some-≢ other) f,
          )
    ]

-- For a terminated text and a byte, strchr returns the first offset at which the byte stands in
-- the text or its terminator, or NULL if there is none.
pub strchr_lem :
    (cs rest : List ℕ) (c : ℕ)
    → Text cs
    → c < 256
    → (o : Option ℕ) × (strchr (some (terminated cs rest)) c ≡ ok o)
      × First (CharAt c cs) (suc (length cs)) o
unfolding strchr
strchr_lem cs rest c text small =
    let (o, run, f) = char_from-First cs rest c 0 text small in (o, run ∙ ap ok (shift-zero o), f)
