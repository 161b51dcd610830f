-- ===== src/Strings/Number.antt =====
-- `num_to_str`. `temp[0..i)` is a list with `temp[i - 1]` first, the end at which the code writes it and
-- reads it back. `buf` is the array from the address `at` on.
use proto_kernel.Prelude.{
  ℕ, zero, suc, ◌+◌, ◌-◌, ◌/◌, ◌%◌, true, false, List, [], ◌∷◌, ◌==◌, ltb, if◌then◌else◌, Outcome,
  ok, ◌>>=◌,
}
use proto_kernel.Strings.Moves.{Bytes, store}

-- `while (num > 0 && i < 31)`, with `31 - i` rounds left
unfoldable pub convert : (left num : ℕ) → List ℕ → List ℕ
convert zero num temp = temp
convert (suc left) num temp =
    if ltb 0 num then convert left (num / 10) ((48 + num % 10) ∷ temp) else temp

-- `while (i > 0 && j < size - 1)`, and the terminator
unfoldable pub copy_digits : List ℕ → (at size j : ℕ) → Bytes → Outcome (ℕ × Bytes)
copy_digits [] at size j buf = do buf ← store buf (at + j) 0; ok (j, buf)
copy_digits (digit ∷ temp) at size j buf = elim (ltb j (size - 1)) [
  | true ↦ do buf ← store buf (at + j) digit; copy_digits temp at size (j + 1) buf
  | false ↦ do buf ← store buf (at + j) 0; ok (j, buf)
]

unfoldable pub num_to_str : (at size num : ℕ) → Bytes → Outcome (ℕ × Bytes)
num_to_str at size num buf =
    if size == 0
    then ok (0, buf)
    else if num == 0
    then if ltb 1 size
      then (do buf ← store buf at 48; buf ← store buf (at + 1) 0; ok (1, buf))
      else ok (0, buf)
    else copy_digits (convert 31 num []) at size 0 buf
