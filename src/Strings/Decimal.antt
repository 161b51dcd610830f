-- ===== src/Strings/Decimal.antt =====
-- `num_to_str` writes the decimal numeral, cut to the buffer.
use native.Mathlib.Nat.{pow-succ'}
use proto_kernel.Prelude.{
  ℕ, zero, suc, ◌+◌, ◌-◌, ◌*◌, ◌/◌, ◌%◌, ◌^◌, ◌≤◌, ◌<◌, ◌≡◌, ◌≢◌, ◌⊎◌, inl, inr, refl, ◌∙◌, ap,
  arith, true, false, List, [], ◌∷◌, ◌==◌, ltb, length, take, take-nil, set, length-set, ok,
  Bool-cases,
}
use proto_kernel.Strings.Moves.{Bytes}
use proto_kernel.Strings.Copies.{byte, store-ok}
use proto_kernel.Strings.Order.{terminated}
use proto_kernel.Strings.Write.{Holds, Holds-nil, Holds-cons}
use proto_kernel.Strings.Number.{convert, copy_digits, num_to_str}

-- the number that the digits write after a number `acc`
abbrev pub value : ℕ → List ℕ → ℕ
value acc [] = acc
value acc (digit ∷ ds) = value (acc * 10 + (digit - 48)) ds

abbrev pub Digits : List ℕ → Type 0
Digits [] = Unit
Digits (digit ∷ ds) = (48 ≤ digit) × (digit < 58) × Digits ds

-- `ds` is the decimal numeral of `num`, without leading zeros
pub record Numeral (num : ℕ) (ds : List ℕ) : Type 0 where
  pub digits : Digits ds
  pub total : value 0 ds ≡ num
  pub some_digit : 0 < length ds
  pub leading : 1 < length ds → byte ds 0 ≢ 48

convert-value :
    (left num : ℕ) (temp : List ℕ)
    → num < 10 ^ left
    → value 0 (convert left num temp) ≡ value num temp
unfolding convert
convert-value zero num temp h = ap (λ n. value n temp) (omega arith)
convert-value (suc left) num temp h = elim (Bool-cases (ltb 0 num)) [
  | inl more ↦
      let digit : num / 10 * 10 + (48 + num % 10 - 48) ≡ num = omega arith in
      rw more (
        convert-value left (num / 10) ((48 + num % 10) ∷ temp) (omega (arith, pow-succ' 10 left))
        ∙ ap (λ n. value n temp) digit)
  | inr done ↦ rw done (ap (λ n. value n temp) (ground arith))
]

convert-Digits : (left num : ℕ) (temp : List ℕ) → Digits temp → Digits (convert left num temp)
unfolding convert
convert-Digits zero num temp d = d
convert-Digits (suc left) num temp d = elim (Bool-cases (ltb 0 num)) [
  | inl more ↦
      rw more
        (convert-Digits left (num / 10) ((48 + num % 10) ∷ temp) (omega arith, omega arith, d))
  | inr done ↦ rw done d
]

length-convert : (left num : ℕ) (temp : List ℕ) → length temp ≤ length (convert left num temp)
unfolding convert
length-convert zero num temp = omega arith
length-convert (suc left) num temp = elim (Bool-cases (ltb 0 num)) [
  | inl more ↦ rw more (omega (arith, length-convert left (num / 10) ((48 + num % 10) ∷ temp)))
  | inr done ↦ rw done (omega arith)
]

convert-leading :
    (left num : ℕ) (temp : List ℕ)
    → num < 10 ^ left
    → (0 < num) ⊎ (byte temp 0 ≢ 48)
    → byte (convert left num temp) 0 ≢ 48
unfolding convert
convert-leading zero num temp h (inl more) = absurd (omega arith)
convert-leading zero num temp h (inr other) = other
convert-leading (suc left) num temp h start = elim (Bool-cases (ltb 0 num)) [
  | inl more ↦ rw more (
      convert-leading left (num / 10) ((48 + num % 10) ∷ temp) (omega (arith, pow-succ' 10 left))
        (ground arith))
  | inr done ↦ rw done (elim start [ inl more ↦ absurd (ground arith) | inr other ↦ other ])
]

some-convert : (left num : ℕ) → 0 < num → 0 < length (convert (suc left) num [])
unfolding convert
some-convert left num pos =
    let more : ltb 0 num ≡ true = ground arith in
    rw more (omega (arith, length-convert left (num / 10) ((48 + num % 10) ∷ [])))

convert-Numeral : (num : ℕ) → 0 < num → num < 2 ^ 64 → Numeral num (convert 31 num [])
convert-Numeral num pos small = record {
  digits = convert-Digits 31 num [] tt;
  total = convert-value 31 num [] (omega arith);
  some_digit = some-convert 30 num pos;
  leading = λ long. convert-leading 31 num [] (omega arith) (inl pos);
}

copy_digits-Holds :
    (temp : List ℕ) (at size j room : ℕ) (buf : Bytes)
    → j + suc room ≡ size
    → at + size ≤ length buf
    → (buf' : Bytes) × (copy_digits temp at size j buf ≡ ok (j + length (take room temp), buf'))
      × Holds (at + j) (terminated (take room temp) []) buf buf'
unfolding copy_digits
copy_digits-Holds [] at size j zero buf e h = (
  set buf (at + j) 0,
  rw (store-ok buf (at + j) 0 (omega arith)) (ap (λ n. ok (n, set buf (at + j) 0)) (omega arith)),
  Holds-cons (at + j) 0 [] buf (set buf (at + j) 0) (omega arith)
      (Holds-nil (at + j + 1) (set buf (at + j) 0)),
)
copy_digits-Holds [] at size j (suc room) buf e h = (
  set buf (at + j) 0,
  rw (store-ok buf (at + j) 0 (omega arith)) (ap (λ n. ok (n, set buf (at + j) 0)) (omega arith)),
  Holds-cons (at + j) 0 [] buf (set buf (at + j) 0) (omega arith)
      (Holds-nil (at + j + 1) (set buf (at + j) 0)),
)
copy_digits-Holds (digit ∷ temp) at size j zero buf e h =
    let full : ltb j (size - 1) ≡ false = ground arith in
    (
      set buf (at + j) 0,
      rw (full, copy_digits, store-ok buf (at + j) 0 (omega arith))
          (ap (λ n. ok (n, set buf (at + j) 0)) (omega arith)),
      Holds-cons (at + j) 0 [] buf (set buf (at + j) 0) (omega arith)
          (Holds-nil (at + j + 1) (set buf (at + j) 0)),
    )
copy_digits-Holds (digit ∷ temp) at size j (suc room) buf e h =
    let left : ltb j (size - 1) ≡ true = ground arith in
    let place : at + (j + 1) ≡ at + j + 1 = omega arith in
    let (buf', run, r) =
      copy_digits-Holds temp at size (j + 1) room (set buf (at + j) digit) (omega arith)
        (omega (arith, length-set buf (at + j) digit)) in
    (
      buf',
      rw (left, copy_digits, store-ok buf (at + j) digit (omega arith))
          (run ∙ ap (λ n. ok (n, buf')) (omega arith)),
      Holds-cons (at + j) digit (terminated (take room temp) []) buf buf' (omega arith)
          (rw place at r),
    )

-- The numeral cut to `size - 1` digits, and the terminator, stand from `at` on.
abbrev pub Printed : (at size num : ℕ) → Bytes → Type 0
Printed at size num buf =
    (ds : List ℕ) × (buf' : Bytes) × Numeral num ds
    × (num_to_str at size num buf ≡ ok (length (take (size - 1) ds), buf'))
    × Holds at (terminated (take (size - 1) ds) []) buf buf'

module _ (at size num : ℕ) (buf : Bytes) (pos : 0 < size) (small : num < 2 ^ 64)
    (fits : at + size ≤ length buf) where
  Printed-zero : num ≡ 0 → 1 < size → Printed at size num buf
  unfolding num_to_str
  Printed-zero zero_num two =
      let some_size : (size == 0) ≡ false = ground arith in
      let zero_test : (num == 0) ≡ true = ground arith in
      let large : ltb 1 size ≡ true = ground arith in
      let room : size - 1 ≡ suc (size - 2) = omega arith in
      let buf1 = set buf at 48 in
      let buf2 = set buf1 (at + 1) 0 in
      (
        48 ∷ [],
        buf2,
        record {
          digits = (omega arith, omega arith, tt);
          total = omega arith;
          some_digit = omega arith;
          leading = λ h. omega arith;
        },
        rw
            (
              some_size,
              zero_test,
              large,
              room,
              take-nil (size - 2),
              store-ok buf at 48 (omega arith),
              store-ok buf1 (at + 1) 0 (omega (arith, length-set buf at 48)),
            )
            refl,
        rw (room, take-nil (size - 2))
            (Holds-cons at 48 (0 ∷ []) buf buf2 (omega arith) (
              Holds-cons (at + 1) 0 [] buf1 buf2 (omega (arith, length-set buf at 48))
                (Holds-nil (at + 1 + 1) buf2))),
      )

  Printed-some : 0 < num → Printed at size num buf
  unfolding num_to_str
  Printed-some some_num =
      let some_size : (size == 0) ≡ false = ground arith in
      let nonzero : (num == 0) ≡ false = ground arith in
      let start : at + 0 ≡ at = omega arith in
      let (buf', run, r) =
        copy_digits-Holds (convert 31 num []) at size 0 (size - 1) buf (omega arith) fits in
      (
        convert 31 num [],
        buf',
        convert-Numeral num some_num small,
        rw (some_size, nonzero) (run ∙ ap (λ n. ok (n, buf')) (omega arith)),
        rw start at r,
      )

  -- For a 64-bit number and a buffer of at least one byte, two for the number 0, num_to_str
  -- writes the decimal numeral of the number, which has no leading zero and reads back as the
  -- number, cut to one byte less than the buffer, and a terminator, and returns how many digits
  -- it wrote.
  pub num_to_str_lem : (0 < num) ⊎ (1 < size) → Printed at size num buf
  num_to_str_lem h = elim (Bool-cases (ltb 0 num)) [
    | inl more ↦ Printed-some (ground arith)
    | inr none_left ↦ Printed-zero (ground arith) (ground (arith, h))
  ]
