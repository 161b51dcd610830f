-- ===== src/Strings/Moves.antt =====
-- `memcpy`, `memset` and `memmove`. Both pointers are addresses in one memory, so they may overlap;
-- address 0 is NULL. Each returns its first argument and the memory.
use proto_kernel.Prelude.{
  ℕ, zero, suc, ◌+◌, ◌-◌, ◌%◌, List, ◌==◌, ◌||◌, ltb, if◌then◌else◌, length, get_elem?, set,
  Outcome, ok, fault, ◌>>=◌, in_bounds,
}

abbrev pub Bytes : Type 0
Bytes = List ℕ

unfoldable pub store : Bytes → ℕ → ℕ → Outcome Bytes
store m a v = if ltb a (length m) then ok (set m a v) else fault

-- `while (n--) *d++ = *s++;`
unfoldable pub copy_forward : (n d s : ℕ) → Bytes → Outcome Bytes
copy_forward zero d s m = ok m
copy_forward (suc n) d s m = do
  byte ← in_bounds (get_elem? m s)
  m ← store m d byte
  copy_forward n (d + 1) (s + 1) m

-- `while (n--) *--d = *--s;`
unfoldable pub copy_backward : (n d s : ℕ) → Bytes → Outcome Bytes
copy_backward zero d s m = ok m
copy_backward (suc n) d s m = do
  byte ← in_bounds (get_elem? m (s - 1))
  m ← store m (d - 1) byte
  copy_backward n (d - 1) (s - 1) m

-- `while (n--) *p++ = (unsigned char)c;`
unfoldable pub fill : (n p c : ℕ) → Bytes → Outcome Bytes
fill zero p c m = ok m
fill (suc n) p c m = do m ← store m p (c % 256); fill n (p + 1) c m

unfoldable pub memcpy : (dest src n : ℕ) → Bytes → Outcome (ℕ × Bytes)
memcpy dest src n m =
    if dest == 0 || src == 0 then ok (dest, m) else do m ← copy_forward n dest src m; ok (dest, m)

unfoldable pub memset : (s c n : ℕ) → Bytes → Outcome (ℕ × Bytes)
memset s c n m = do m ← fill n s c m; ok (s, m)

unfoldable pub memmove : (dest src n : ℕ) → Bytes → Outcome (ℕ × Bytes)
memmove dest src n m =
    if ltb dest src
    then (do m ← copy_forward n dest src m; ok (dest, m))
    else if ltb src dest
    then (do m ← copy_backward n (dest + n) (src + n) m; ok (dest, m))
    else ok (dest, m)
