-- ===== src/Strings/Tests.antt =====
-- Runs of string.c, and each theorem at arguments that meet its hypotheses.
use proto_kernel.Prelude.{
  ℕ, ◌+◌, ◌-◌, ◌≡◌, refl, arith, inl, some, none, List, [], ◌∷◌, replicate, ok,
}
use proto_kernel.Strings.Moves.{
  Bytes, store, copy_forward, copy_backward, fill, memcpy, memset, memmove,
}
use proto_kernel.Strings.Copies.{byte, Replaced, memmove_lem}
use proto_kernel.Strings.Compare.{negsuc, length_from, strlen, strcmp, strncmp}
use proto_kernel.Strings.Order.{Text, terminated}
use proto_kernel.Strings.Find.{find_from, strstr, char_from, strchr}
use proto_kernel.Strings.Write.{strcpy_from, strcpy, pad, strncpy_from, strncpy}
use proto_kernel.Strings.Number.{convert, copy_digits, num_to_str}
use proto_kernel.Strings.Decimal.{Printed, num_to_str_lem}

all_code : Unit {0}
unfolding store copy_forward copy_backward fill memcpy memset memmove length_from strlen strcmp
    strncmp find_from strstr char_from strchr strcpy_from strcpy pad strncpy_from strncpy convert
    copy_digits num_to_str
all_code = tt

abbrev digits_0_to_5 : Bytes
digits_0_to_5 = 48 ∷ 49 ∷ 50 ∷ 51 ∷ 52 ∷ 53 ∷ []

move_up : memmove 2 1 3 digits_0_to_5 ≡ ok (2, 48 ∷ 49 ∷ 49 ∷ 50 ∷ 51 ∷ 53 ∷ [])
unfolding all_code
move_up = refl

move_down : memmove 1 2 3 digits_0_to_5 ≡ ok (1, 48 ∷ 50 ∷ 51 ∷ 52 ∷ 52 ∷ 53 ∷ [])
unfolding all_code
move_down = refl

-- the bytes of an overlap are copied twice
copy_up : memcpy 2 1 3 digits_0_to_5 ≡ ok (2, 48 ∷ 49 ∷ 49 ∷ 49 ∷ 49 ∷ 53 ∷ [])
unfolding all_code
copy_up = refl

abbrev abab : List ℕ
abab = 97 ∷ 98 ∷ 97 ∷ 98 ∷ []

abbrev ba : List ℕ
ba = 98 ∷ 97 ∷ []

abbrev junk : List ℕ
junk = 200 ∷ []

less_by_one : strcmp (terminated abab junk) (terminated ba []) ≡ ok (negsuc 0)
unfolding all_code
less_by_one = refl

found_at_one : strstr (terminated abab junk) (terminated ba junk) ≡ ok (some 1)
unfolding all_code
found_at_one = refl

terminator_at_four : strchr (some (terminated abab junk)) 0 ≡ ok (some 4)
unfolding all_code
terminator_at_four = refl

-- `(char)256` is the terminator, `256` is not 0
no_terminator : strchr (some (terminated abab junk)) 256 ≡ ok none
unfolding all_code
no_terminator = refl

cut_number : num_to_str 0 3 1024 (replicate 3 7) ≡ ok (2, 49 ∷ 48 ∷ 0 ∷ [])
unfolding all_code
cut_number = refl

-- zero in a buffer of one byte: no terminator is written
no_room : num_to_str 0 1 0 (7 ∷ []) ≡ ok (0, 7 ∷ [])
unfolding all_code
no_room = refl

abab-Text : Text abab
abab-Text = (omega arith, (omega arith, (omega arith, (omega arith, tt))))

ba-Text : Text ba
ba-Text = (omega arith, (omega arith, tt))

memmove_lem_example :
    (m' : Bytes) × (memmove 2 1 3 digits_0_to_5 ≡ ok (2, m'))
    × Replaced 2 3 (λ a. byte digits_0_to_5 (1 + (a - 2))) digits_0_to_5 m'
memmove_lem_example = memmove_lem 2 1 3 digits_0_to_5 (omega arith) (omega arith)

num_to_str_lem_example : Printed 1 4 1024 digits_0_to_5
num_to_str_lem_example =
    num_to_str_lem 1 4 1024 digits_0_to_5 (omega arith) (omega arith) (omega arith)
      (inl (omega arith))
