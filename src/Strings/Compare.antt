-- ===== src/Strings/Compare.antt =====
-- `strlen`, `strcmp` and `strncmp`.
use proto_kernel.Prelude.{
  ℕ, zero, suc, ◌+◌, ◌-◌, List, [], ◌∷◌, Bool, not, ◌&&◌, ◌==◌, leb, if◌then◌else◌, Outcome, ok,
  fault,
}

abbrev pub Chars : Type 0
Chars = List ℕ

-- an `int` result; `negsuc k` is `-(k + 1)`
pub data ℤ : Type 0 where
  pos : ℕ → ℤ
  negsuc : ℕ → ℤ

-- `*(unsigned char*)s1 - *(unsigned char*)s2`
abbrev pub difference : ℕ → ℕ → ℤ
difference a b = if leb b a then pos (a - b) else negsuc (b - a - 1)

-- `while (*s++) len++;`
unfoldable pub length_from : Chars → ℕ → Outcome ℕ
length_from [] len = fault
length_from (c ∷ s) len = if c == 0 then ok len else length_from s (len + 1)

unfoldable pub strlen : Chars → Outcome ℕ
strlen s = length_from s 0

-- `*s1 && *s2 && *s1 == *s2`
abbrev pub both : ℕ → ℕ → Bool
both a b = not (a == 0) && (not (b == 0) && a == b)

unfoldable pub strcmp : Chars → Chars → Outcome ℤ
strcmp [] s2 = fault
strcmp (a ∷ s1) [] = fault
strcmp (a ∷ s1) (b ∷ s2) = if both a b then strcmp s1 s2 else ok (difference a b)

unfoldable pub strncmp : Chars → Chars → ℕ → Outcome ℤ
strncmp s1 s2 zero = ok (pos 0)
strncmp [] s2 (suc n) = fault
strncmp (a ∷ s1) [] (suc n) = fault
strncmp (a ∷ s1) (b ∷ s2) (suc n) = if both a b then strncmp s1 s2 n else ok (difference a b)
