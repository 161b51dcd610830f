-- ===== src/Strings/Find.antt =====
-- `strstr` and `strchr`. A pointer into the text that is searched is its offset; `none` is NULL.
use proto_kernel.Prelude.{
  ℕ, ◌+◌, ◌%◌, Option, none, some, [], ◌∷◌, ◌==◌, Bool, false, if◌then◌else◌, Outcome, ok, fault,
  ◌>>=◌,
}
use proto_kernel.Strings.Compare.{Chars, ℤ, pos, negsuc, strlen, strncmp}

abbrev pub is_zero : ℤ → Bool
is_zero (pos n) = n == 0
is_zero (negsuc k) = false

-- `while (*haystack)`
unfoldable pub find_from : Chars → Chars → (needle_len at : ℕ) → Outcome (Option ℕ)
find_from [] needle needle_len at = fault
find_from (c ∷ haystack) needle needle_len at = if c == 0 then ok none else do
  order ← strncmp (c ∷ haystack) needle needle_len
  if is_zero order then ok (some at) else find_from haystack needle needle_len (at + 1)

unfoldable pub strstr : Chars → Chars → Outcome (Option ℕ)
strstr haystack needle = do
  needle_len ← strlen needle
  if needle_len == 0 then ok (some 0) else find_from haystack needle needle_len 0

-- `while (*s)` and the test for the terminator
unfoldable pub char_from : Chars → (c at : ℕ) → Outcome (Option ℕ)
char_from [] c at = fault
char_from (b ∷ s) c at =
    if b == 0
    then (if c == 0 then ok (some at) else ok none)
    else if b == c % 256
    then ok (some at)
    else char_from s c (at + 1)

-- `c` is an `int`, as its 32 bits
unfoldable pub strchr : Option Chars → (c : ℕ) → Outcome (Option ℕ)
strchr none c = ok none
strchr (some s) c = char_from s c 0
