-- ===== src/Strings/Write.antt =====
-- `strcpy` and `strncpy`. The two arrays are different objects, as the C standard asks; each function
-- returns its first argument, which is left out.
use proto_kernel.Prelude.{
  ℕ, zero, suc, ◌+◌, ◌-◌, ◌≤◌, ◌<◌, ◌≡◌, refl, ◌∙◌, arith, false, List, [], ◌∷◌, ◌==◌,
  if◌then◌else◌, length, ◌++◌, Bool-cases, inl, inr, take, replicate, set, length-set, get_or-set,
  Outcome, ok, fault, ◌>>=◌,
}
use proto_kernel.Strings.Moves.{Bytes, store}
use proto_kernel.Strings.Copies.{byte, Replaced, store-ok}
use proto_kernel.Strings.Compare.{Chars}
use proto_kernel.Strings.Order.{Text, terminated}

-- `while ((*d++ = *src++) != 0);`
unfoldable pub strcpy_from : Chars → ℕ → Bytes → Outcome Bytes
strcpy_from [] d m = fault
strcpy_from (c ∷ src) d m = do m ← store m d c; if c == 0 then ok m else strcpy_from src (d + 1) m

unfoldable pub strcpy : Bytes → Chars → Outcome Bytes
strcpy dest src = strcpy_from src 0 dest

-- "Pad with zeros if necessary"
unfoldable pub pad : (left i : ℕ) → Bytes → Outcome Bytes
pad zero i m = ok m
pad (suc left) i m = do m ← store m i 0; pad left (i + 1) m

unfoldable pub strncpy_from : (left : ℕ) → Chars → ℕ → Bytes → Outcome Bytes
strncpy_from zero src i m = ok m
strncpy_from (suc left) [] i m = fault
strncpy_from (suc left) (c ∷ src) i m =
    if c == 0 then pad (suc left) i m else do m ← store m i c; strncpy_from left src (i + 1) m

unfoldable pub strncpy : Bytes → Chars → ℕ → Outcome Bytes
strncpy dest src n = strncpy_from n src 0 dest

-- `m'` is `m` with the bytes `ds` from `d` on.
abbrev pub Holds : ℕ → List ℕ → Bytes → Bytes → Type 0
Holds d ds m m' = Replaced d (length ds) (λ a. byte ds (a - d)) m m'

byte-cons :
    (v : ℕ) (ds : List ℕ) (d a : ℕ)
    → d ≤ a
    → byte (v ∷ ds) (a - d) ≡ (if d == a then v else byte ds (a - (d + 1)))
byte-cons v ds d a le = elim (Bool-cases (d == a)) [
  | inl same ↦ let start : a - d ≡ 0 = ground arith in rw (same, start) refl
  | inr later ↦ let next : a - d ≡ suc (a - (d + 1)) = ground arith in rw (later, next) refl
]

pub Holds-nil : (d : ℕ) (m : Bytes) → Holds d [] m m
Holds-nil d m = record { size = refl; bytes = λ a. ground arith }

-- One byte stored before the others.
pub Holds-cons :
    (d v : ℕ) (ds : List ℕ) (m m' : Bytes)
    → d < length m
    → Holds (d + 1) ds (set m d v) m'
    → Holds d (v ∷ ds) m m'
Holds-cons d v ds m m' h r = record {
  size = r.size ∙ length-set m d v;
  bytes = λ a. ground (arith, r.bytes a, get_or-set m d a v 0 h, byte-cons v ds d a);
}

pub strcpy_from-Holds :
    (cs rest : List ℕ) (d : ℕ) (m : Bytes)
    → Text cs
    → d + length cs < length m
    → (m' : Bytes) × (strcpy_from (terminated cs rest) d m ≡ ok m')
      × Holds d (terminated cs []) m m'
unfolding strcpy_from
strcpy_from-Holds [] rest d m text h = (
  set m d 0,
  rw (store-ok m d 0 (omega arith)) refl,
  Holds-cons d 0 [] m (set m d 0) (omega arith) (Holds-nil (d + 1) (set m d 0)),
)
strcpy_from-Holds (c ∷ cs) rest d m text h =
    let char : (c == 0) ≡ false = ground (arith, text.0) in
    let (m', run, r) =
      strcpy_from-Holds cs rest (d + 1) (set m d c) text.1 (omega (arith, length-set m d c)) in
    (
      m',
      rw (store-ok m d c (omega arith), char) run,
      Holds-cons d c (terminated cs []) m m' (omega arith) r,
    )

-- For a terminated text and a destination with room for it, strcpy writes the text and its
-- terminator and nothing else.
pub strcpy_lem :
    (cs rest : List ℕ) (dest : Bytes)
    → Text cs
    → length cs < length dest
    → (m' : Bytes) × (strcpy dest (terminated cs rest) ≡ ok m') × Holds 0 (terminated cs []) dest m'
unfolding strcpy
strcpy_lem cs rest dest text h = strcpy_from-Holds cs rest 0 dest text (omega arith)

pad-Holds :
    (left more i : ℕ) (m : Bytes)
    → left ≤ more
    → i + left ≤ length m
    → (m' : Bytes) × (pad left i m ≡ ok m') × Holds i (take left (replicate more 0)) m m'
unfolding pad
pad-Holds zero more i m le h = (m, refl, Holds-nil i m)
pad-Holds (suc left) zero i m le h = absurd (omega arith)
pad-Holds (suc left) (suc more) i m le h =
    let (m', run, r) =
      pad-Holds left more (i + 1) (set m i 0) (omega arith) (omega (arith, length-set m i 0)) in
    (
      m',
      rw (store-ok m i 0 (omega arith)) run,
      Holds-cons i 0 (take left (replicate more 0)) m m' (omega arith) r,
    )

strncpy_from-Holds :
    (left more : ℕ) (cs rest : List ℕ) (i : ℕ) (m : Bytes)
    → left ≤ more
    → Text cs
    → i + left ≤ length m
    → (m' : Bytes) × (strncpy_from left (terminated cs rest) i m ≡ ok m')
      × Holds i (take left (cs ++ replicate more 0)) m m'
unfolding strncpy_from
strncpy_from-Holds zero more cs rest i m le text h = (m, refl, Holds-nil i m)
strncpy_from-Holds (suc left) more [] rest i m le text h = pad-Holds (suc left) more i m le h
strncpy_from-Holds (suc left) more (c ∷ cs) rest i m le text h =
    let char : (c == 0) ≡ false = ground (arith, text.0) in
    let (m', run, r) =
      strncpy_from-Holds left more cs rest (i + 1) (set m i c) (omega arith) text.1
        (omega (arith, length-set m i c)) in
    (
      m',
      rw (char, store-ok m i c (omega arith)) run,
      Holds-cons i c (take left (cs ++ replicate more 0)) m m' (omega arith) r,
    )

-- For a terminated text and a count that fits in the destination, strncpy writes the text
-- followed by zeros, cut to the count, and nothing else.
pub strncpy_lem :
    (cs rest : List ℕ) (dest : Bytes) (n : ℕ)
    → Text cs
    → n ≤ length dest
    → (m' : Bytes) × (strncpy dest (terminated cs rest) n ≡ ok m')
      × Holds 0 (take n (cs ++ replicate n 0)) dest m'
unfolding strncpy
strncpy_lem cs rest dest n text h =
    strncpy_from-Holds n n cs rest 0 dest (omega arith) text (omega arith)
