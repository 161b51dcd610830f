-- ===== src/Strings/Copies.antt =====
-- What the copies of string.c leave in memory, overlaps included.
use proto_kernel.Prelude.{
  ℕ, zero, suc, ◌+◌, ◌-◌, ◌%◌, ◌≤◌, ◌<◌, ◌≡◌, ◌⊎◌, inl, inr, refl, ◌∙◌, ap, arith, Bool, true,
  false, ◌&&◌, ◌||◌, ◌==◌, ltb, leb, if◌then◌else◌, length, get_or, set, length-set, get_or-set,
  get_elem?-eq-get_or, ok, Bool-cases,
}
use proto_kernel.Strings.Moves.{
  Bytes, store, copy_forward, copy_backward, fill, memcpy, memset, memmove,
}

abbrev pub byte : Bytes → ℕ → ℕ
byte m a = get_or m a 0

-- `a` is one of the `n` addresses from `p` on
abbrev pub in_block : ℕ → ℕ → ℕ → Bool
in_block p n a = leb p a && ltb a (p + n)

-- `m'` is `m` with the `n` bytes from `dest` on replaced by `value`.
pub record Replaced (dest n : ℕ) (value : ℕ → ℕ) (m m' : Bytes) : Type 0 where
  pub size : length m' ≡ length m
  pub bytes : (a : ℕ) → byte m' a ≡ (if in_block dest n a then value a else byte m a)

pub store-ok : (m : Bytes) (a v : ℕ) → a < length m → store m a v ≡ ok (set m a v)
unfolding store
store-ok m a v h = let inside : ltb a (length m) ≡ true = ground arith in rw inside

module _ (m : Bytes) (n d s : ℕ) (hd : d < length m) where
  -- the byte copied first
  abbrev head : Bytes
  head = set m d (byte m s)

  forward-bytes :
      (m' : Bytes) (a : ℕ)
      → (d ≤ s) ⊎ (s + suc n ≤ d)
      → Replaced (d + 1) n (λ a. byte head (s + 1 + (a - (d + 1)))) head m'
      → byte m' a ≡ (if in_block d (suc n) a then byte m (s + (a - d)) else byte m a)
  forward-bytes m' a apart r = ground (
    arith,
    r.bytes a,
    get_or-set m d (s + 1 + (a - (d + 1))) (byte m s) 0 hd,
    get_or-set m d a (byte m s) 0 hd,
    later,
    at_d,
  )
    where
      later : d < a → byte m (s + 1 + (a - (d + 1))) ≡ byte m (s + (a - d))
      later h = ap (byte m) (omega arith)

      at_d : d ≡ a → byte m s ≡ byte m (s + (a - d))
      at_d h = ap (byte m) (omega arith)

copy_forward-Replaced :
    (n d s : ℕ) (m : Bytes)
    → d + n ≤ length m
    → s + n ≤ length m
    → (d ≤ s) ⊎ (s + n ≤ d)
    → (m' : Bytes) × (copy_forward n d s m ≡ ok m') × Replaced d n (λ a. byte m (s + (a - d))) m m'
unfolding copy_forward
copy_forward-Replaced zero d s m hd hs apart =
    (m, refl, record { size = refl; bytes = λ a. ground arith })
copy_forward-Replaced (suc n) d s m hd hs apart =
    let m1 = set m d (byte m s) in
    let len : length m1 ≡ length m = length-set m d (byte m s) in
    let (m', run, r) =
      copy_forward-Replaced n (d + 1) (s + 1) m1 (omega (arith, len)) (omega (arith, len))
        (omega (arith, apart)) in
    (
      m',
      rw (get_elem?-eq-get_or m s 0 (omega arith), store-ok m d (byte m s) (omega arith)) run,
      record { size = r.size ∙ len; bytes = λ a. forward-bytes m n d s (omega arith) m' a apart r },
    )

module _ (m : Bytes) (n d s : ℕ) (hd : d + n < length m) where
  -- the byte copied first, which is the last
  abbrev final : Bytes
  final = set m (d + n) (byte m (s + n))

  backward-bytes :
      (m' : Bytes) (a : ℕ)
      → s ≤ d
      → Replaced d n (λ a. byte final (s + (a - d))) final m'
      → byte m' a ≡ (if in_block d (suc n) a then byte m (s + (a - d)) else byte m a)
  backward-bytes m' a le r = ground (
    arith,
    r.bytes a,
    get_or-set m (d + n) (s + (a - d)) (byte m (s + n)) 0 hd,
    get_or-set m (d + n) a (byte m (s + n)) 0 hd,
    at_end,
  )
    where
      at_end : d + n ≡ a → byte m (s + n) ≡ byte m (s + (a - d))
      at_end h = ap (byte m) (omega arith)

copy_backward-Replaced :
    (n d s : ℕ) (m : Bytes)
    → d + n ≤ length m
    → s ≤ d
    → (m' : Bytes) × (copy_backward n (d + n) (s + n) m ≡ ok m')
      × Replaced d n (λ a. byte m (s + (a - d))) m m'
unfolding copy_backward
copy_backward-Replaced zero d s m hd le =
    (m, refl, record { size = refl; bytes = λ a. ground arith })
copy_backward-Replaced (suc n) d s m hd le =
    let m1 = set m (d + n) (byte m (s + n)) in
    let len : length m1 ≡ length m = length-set m (d + n) (byte m (s + n)) in
    let (m', run, r) = copy_backward-Replaced n d s m1 (omega (arith, len)) le in
    let sn : s + suc n - 1 ≡ s + n = omega arith in
    let dn : d + suc n - 1 ≡ d + n = omega arith in
    (
      m',
      rw
          (
            sn,
            dn,
            get_elem?-eq-get_or m (s + n) 0 (omega arith),
            store-ok m (d + n) (byte m (s + n)) (omega arith),
          )
          run,
      record { size = r.size ∙ len; bytes = λ a. backward-bytes m n d s (omega arith) m' a le r },
    )

fill-Replaced :
    (n p c : ℕ) (m : Bytes)
    → p + n ≤ length m
    → (m' : Bytes) × (fill n p c m ≡ ok m') × Replaced p n (λ a. c % 256) m m'
unfolding fill
fill-Replaced zero p c m h = (m, refl, record { size = refl; bytes = λ a. ground arith })
fill-Replaced (suc n) p c m h =
    let m1 = set m p (c % 256) in
    let len : length m1 ≡ length m = length-set m p (c % 256) in
    let (m', run, r) = fill-Replaced n (p + 1) c m1 (omega (arith, len)) in
    (
      m',
      rw (store-ok m p (c % 256) (omega arith)) run,
      record {
        size = r.size ∙ len;
        bytes = λ a. ground (arith, r.bytes a, get_or-set m p a (c % 256) 0 (omega arith));
      },
    )

-- For a block inside the memory memset leaves the low byte of its argument in every byte of the
-- block, and all other bytes as they were.
pub memset_lem :
    (s c n : ℕ) (m : Bytes)
    → s + n ≤ length m
    → (m' : Bytes) × (memset s c n m ≡ ok (s, m')) × Replaced s n (λ a. c % 256) m m'
unfolding memset
memset_lem s c n m h = let (m', run, r) = fill-Replaced n s c m h in (m', rw run refl, r)

-- For blocks inside the memory at addresses other than NULL, where the destination begins no
-- later than the source or behind its end, memcpy leaves the bytes of the source block in the
-- destination block, and all other bytes as they were.
pub memcpy_lem :
    (dest src n : ℕ) (m : Bytes)
    → 0 < dest
    → 0 < src
    → dest + n ≤ length m
    → src + n ≤ length m
    → (dest ≤ src) ⊎ (src + n ≤ dest)
    → (m' : Bytes) × (memcpy dest src n m ≡ ok (dest, m'))
      × Replaced dest n (λ a. byte m (src + (a - dest))) m m'
unfolding memcpy
memcpy_lem dest src n m pd ps hd hs apart =
    let (m', run, r) = copy_forward-Replaced n dest src m hd hs apart in
    let no_null : (dest == 0 || src == 0) ≡ false = ground arith in (m', rw (no_null, run) refl, r)

-- For blocks inside the memory, overlapping or not, memmove leaves every byte of the destination
-- block equal to the byte that the source block held before the call, and all other bytes as they
-- were.
pub memmove_lem :
    (dest src n : ℕ) (m : Bytes)
    → dest + n ≤ length m
    → src + n ≤ length m
    → (m' : Bytes) × (memmove dest src n m ≡ ok (dest, m'))
      × Replaced dest n (λ a. byte m (src + (a - dest))) m m'
unfolding memmove
memmove_lem dest src n m hd hs = elim (Bool-cases (ltb dest src)) [
  | inl before ↦
      let (m', run, r) = copy_forward-Replaced n dest src m hd hs (inl (ground arith)) in
      (m', rw (before, run) refl, r)
  | inr not_before ↦ elim (Bool-cases (ltb src dest)) [
    | inl after ↦
        let (m', run, r) = copy_backward-Replaced n dest src m hd (ground arith) in
        (m', rw (not_before, after, run) refl, r)
    | inr not_after ↦
        let same : (a : ℕ) → in_block dest n a ≡ true → byte m a ≡ byte m (src + (a - dest)) =
          λ a h. ap (byte m) (ground arith) in
        (
          m,
          rw (not_before, not_after) refl,
          record { size = refl; bytes = λ a. ground (arith, same a) },
        )
  ]
]
