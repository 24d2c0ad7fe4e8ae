-- ===== src/Base/Bytes.antt =====
-- Raw memory behind a `uint8_t*`, and `memcpy` of little-endian integers to and from it.
use Prim.Native.Nat.{ℕ, zero, suc, ◌+◌, ◌-◌, ◌*◌, ◌/◌, ◌%◌, ◌^◌, ◌≤◌, ◌<◌}
use mathlib.Core.Path.{◌≡◌, refl, ap, ap₂, ◌∙◌}
use mathlib.Core.Logic.{◌⊎◌}
use mathlib.Core.List.{List, [], ◌∷◌}
use native.Mathlib.Nat.{pow-suc}
use native.Mathlib.Omega.{arith}
use mccl.Base.Tests.{leb, if◌then◌else◌}
use mccl.Base.Lists.{length, get_or}

abbrev pub Memory : Type 0
Memory = ℕ → ℕ

-- The `n` bytes of `x`, lowest first.
unfoldable pub le_bytes : ℕ → ℕ → List ℕ
le_bytes zero x = []
le_bytes (suc n) x = (x % 256) ∷ le_bytes n (x / 256)

unfoldable pub le_value : List ℕ → ℕ
le_value [] = 0
le_value (b ∷ bs) = b + 256 * le_value bs

-- `memcpy(buf + off, bytes, length(bytes))`
unfoldable pub write_bytes : Memory → ℕ → List ℕ → Memory
write_bytes buf off bs i = if leb off i then get_or bs (i - off) (buf i) else buf i

unfoldable pub read_bytes : Memory → ℕ → ℕ → List ℕ
read_bytes buf off zero = []
read_bytes buf off (suc n) = buf off ∷ read_bytes buf (off + 1) n

-- `memcpy(buf + off, &x, n)` and `memcpy(&x, buf + off, n)`
unfoldable pub write_value : Memory → ℕ → ℕ → ℕ → Memory
unfolding write_bytes le_bytes
write_value buf off n x = write_bytes buf off (le_bytes n x)

unfoldable pub read_value : Memory → ℕ → ℕ → ℕ
unfolding read_bytes le_value
read_value buf off n = le_value (read_bytes buf off n)

pub length-le_bytes : (n x : ℕ) → length (le_bytes n x) ≡ n
unfolding le_bytes
length-le_bytes zero x = refl
length-le_bytes (suc n) x = ap suc (length-le_bytes n (x / 256))

pub le_value-le_bytes : (n x : ℕ) → x < 256 ^ n → le_value (le_bytes n x) ≡ x
unfolding le_value le_bytes
le_value-le_bytes zero x h = omega arith
le_value-le_bytes (suc n) x h =
    omega (arith, le_value-le_bytes n (x / 256) (omega (arith, pow-suc 256 n)))

read_bytes-eq :
    (buf : Memory) (off : ℕ) (bs : List ℕ)
    → ((i : ℕ) → i < length bs → buf (off + i) ≡ get_or bs i 0)
    → read_bytes buf off (length bs) ≡ bs
unfolding read_bytes
read_bytes-eq buf off [] h = refl
read_bytes-eq buf off (b ∷ bs) h =
    ap₂ ◌∷◌ (ap buf (omega arith) ∙ h 0 (omega arith))
      (read_bytes-eq buf (off + 1) bs (λ i p. ap buf (omega arith) ∙ h (suc i) (omega arith)))

get_or_default : (bs : List ℕ) (i d e : ℕ) → i < length bs → get_or bs i d ≡ get_or bs i e
get_or_default [] i d e h = absurd (omega arith)
get_or_default (b ∷ bs) zero d e h = refl
get_or_default (b ∷ bs) (suc i) d e h = get_or_default bs i d e (omega arith)

get_or_beyond : (bs : List ℕ) (i d : ℕ) → length bs ≤ i → get_or bs i d ≡ d
get_or_beyond [] i d h = refl
get_or_beyond (b ∷ bs) zero d h = absurd (omega arith)
get_or_beyond (b ∷ bs) (suc i) d h = get_or_beyond bs i d (omega arith)

pub read_bytes-write_self :
    (buf : Memory) (off : ℕ) (bs : List ℕ)
    → read_bytes (write_bytes buf off bs) off (length bs) ≡ bs
unfolding write_bytes
read_bytes-write_self buf off bs = read_bytes-eq (write_bytes buf off bs) off bs λ i p.
    let e : off + i - off ≡ i = omega arith in
    ground (arith, e, get_or_default bs i (buf (off + i)) 0)

write_bytes_outside :
    (buf : Memory) (off : ℕ) (bs : List ℕ) (i : ℕ)
    → ((i < off) ⊎ (off + length bs ≤ i))
    → write_bytes buf off bs i ≡ buf i
unfolding write_bytes
write_bytes_outside buf off bs i h = ground (arith, get_or_beyond bs (i - off) (buf i))

pub read_bytes-write_apart :
    (buf : Memory) (off : ℕ) (bs : List ℕ) (o n : ℕ)
    → ((o + n ≤ off) ⊎ (off + length bs ≤ o))
    → read_bytes (write_bytes buf off bs) o n ≡ read_bytes buf o n
unfolding read_bytes
read_bytes-write_apart buf off bs o zero h = refl
read_bytes-write_apart buf off bs o (suc n) h =
    ap₂ ◌∷◌ (write_bytes_outside buf off bs o (omega arith))
      (read_bytes-write_apart buf off bs (o + 1) n (omega arith))

-- An integer that fits its width reads back as written.
pub read_value-write_self :
    (buf : Memory) (off n x : ℕ) → x < 256 ^ n → read_value (write_value buf off n x) off n ≡ x
unfolding read_value write_value
read_value-write_self buf off n x h =
    ap (λ k. le_value (read_bytes (write_bytes buf off (le_bytes n x)) off k)) (sym_length n x)
    ∙ ap le_value (read_bytes-write_self buf off (le_bytes n x))
    ∙ le_value-le_bytes n x h
  where
    sym_length : (n x : ℕ) → n ≡ length (le_bytes n x)
    sym_length n x = omega (arith, length-le_bytes n x)

-- A write elsewhere is not seen.
pub read_value-write_apart :
    (buf : Memory) (off m x o n : ℕ)
    → ((o + n ≤ off) ⊎ (off + m ≤ o))
    → read_value (write_value buf off m x) o n ≡ read_value buf o n
unfolding read_value write_value
read_value-write_apart buf off m x o n h =
    ap le_value
      (read_bytes-write_apart buf off (le_bytes m x) o n (omega (arith, length-le_bytes m x)))

-- Nor is a byte outside the integer changed.
pub write_value_outside :
    (buf : Memory) (off n x i : ℕ) → ((i < off) ⊎ (off + n ≤ i)) → write_value buf off n x i ≡ buf i
unfolding write_value
write_value_outside buf off n x i h =
    write_bytes_outside buf off (le_bytes n x) i (omega (arith, length-le_bytes n x))
