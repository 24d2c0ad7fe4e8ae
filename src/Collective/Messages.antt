-- ===== src/Collective/Messages.antt =====
-- `send` and `recv` of csrc/backend/ProcessGroupMCCL.cpp: tensors with a header of two 32-bit integers,
-- over a stream of bytes that keeps its order. A tag is the 32-bit pattern of the source's `int`.
use mccl.Base.{
  ℕ, zero, suc, ◌+◌, ◌%◌, ◌^◌, ◌≤◌, ◌<◌, ◌≡◌, refl, sym, ◌∙◌, ap, ap₂, Bool, true, ◌||◌, List, [],
  ◌∷◌, ◌++◌, map, arith, length, take, drop, length-append, All, leb, ◌==◌, if◌then◌else◌, le_bytes,
  le_value, length-le_bytes, le_value-le_bytes,
}
use native.Mathlib.Nat.{mod-lt, mod-eq_of_lt, mod-le}
use mathlib.Core.List.{append_assoc}

-- What a receiver gets: the tensor's bytes with the rest of the stream, a failed check, or it waits
-- for bytes that have not been sent.
pub data Received (A : Type 0) : Type 0 where
  received : A → List ℕ → Received A
  tag_mismatch : Received A
  size_mismatch : Received A
  waits : Received A

-- A receive goes on only with what it has received.
abbrev pub on_received : {A B : Type 0} → Received A → (A → List ℕ → Received B) → Received B
on_received (received a stream) f = f a stream
on_received tag_mismatch f = tag_mismatch
on_received size_mismatch f = size_mismatch
on_received waits f = waits

-- `mesh->recv` of `n` bytes.
unfoldable pub recv_bytes : ℕ → List ℕ → Received (List ℕ)
recv_bytes zero stream = received [] stream
recv_bytes (suc n) [] = waits
recv_bytes (suc n) (b ∷ stream) =
    on_received (recv_bytes n stream) (λ bs rest. received (b ∷ bs) rest)

-- `hdr`, where the number of bytes is cut to 32 bits.
unfoldable pub header : ℕ → ℕ → List ℕ
header tag nbytes = le_bytes 4 tag ++ le_bytes 4 (nbytes % 2 ^ 32)

-- The loop's body of `send`: the header, and as many bytes as it says.
unfoldable pub send_tensor : ℕ → List ℕ → List ℕ
unfolding header
send_tensor tag t = header tag (length t) ++ take (length t % 2 ^ 32) t

unfoldable pub send : ℕ → List (List ℕ) → List ℕ
unfolding send_tensor
send tag [] = []
send tag (t ∷ ts) = send_tensor tag t ++ send tag ts

-- A negative tag accepts every message.
abbrev pub accepts : ℕ → ℕ → Bool
accepts tag sent = leb (2 ^ 31) tag || sent == tag

-- The loop's body of `recv`, into a tensor of `nbytes` bytes.
unfoldable pub recv_tensor : ℕ → ℕ → List ℕ → Received (List ℕ)
unfolding recv_bytes
recv_tensor tag nbytes stream = on_received (recv_bytes 8 stream) (λ hdr rest.
    let body = recv_bytes (le_value (drop 4 hdr)) rest in
    if accepts tag (le_value (take 4 hdr))
    then (if le_value (drop 4 hdr) == nbytes then body else size_mismatch)
    else tag_mismatch)

unfoldable pub recv : ℕ → List ℕ → List ℕ → Received (List (List ℕ))
unfolding recv_tensor
recv tag [] stream = received [] stream
recv tag (n ∷ sizes) stream =
    on_received (recv_tensor tag n stream)
      (λ t rest. on_received (recv tag sizes rest) (λ ts rest. received (t ∷ ts) rest))

pub recv_bytes-append : (bs rest : List ℕ) → recv_bytes (length bs) (bs ++ rest) ≡ received bs rest
unfolding recv_bytes
recv_bytes-append [] rest = refl
recv_bytes-append (b ∷ bs) rest =
    ap (λ r. on_received r (λ bs rest. received (b ∷ bs) rest)) (recv_bytes-append bs rest)

pub take-append : (xs ys : List ℕ) → take (length xs) (xs ++ ys) ≡ xs
take-append [] ys = refl
take-append (x ∷ xs) ys = ap (λ l. x ∷ l) (take-append xs ys)

pub drop-append : (xs ys : List ℕ) → drop (length xs) (xs ++ ys) ≡ ys
drop-append [] ys = refl
drop-append (x ∷ xs) ys = drop-append xs ys

take_all : (xs : List ℕ) → take (length xs) xs ≡ xs
take_all [] = refl
take_all (x ∷ xs) = ap (λ l. x ∷ l) (take_all xs)

module _ (tag nbytes : ℕ) where
  header_length : length (header tag nbytes) ≡ 8
  unfolding header
  header_length =
      length-append (le_bytes 4 tag) (le_bytes 4 (nbytes % 2 ^ 32))
      ∙ ap₂ ◌+◌ (length-le_bytes 4 tag) (length-le_bytes 4 (nbytes % 2 ^ 32))

  header_tag : tag < 2 ^ 32 → le_value (take 4 (header tag nbytes)) ≡ tag
  unfolding header
  header_tag h =
      ap (λ n. le_value (take n (le_bytes 4 tag ++ le_bytes 4 (nbytes % 2 ^ 32))))
        (sym (length-le_bytes 4 tag))
      ∙ ap le_value (take-append (le_bytes 4 tag) (le_bytes 4 (nbytes % 2 ^ 32)))
      ∙ le_value-le_bytes 4 tag h

  header_size : le_value (drop 4 (header tag nbytes)) ≡ nbytes % 2 ^ 32
  unfolding header
  header_size =
      ap (λ n. le_value (drop n (le_bytes 4 tag ++ le_bytes 4 (nbytes % 2 ^ 32))))
        (sym (length-le_bytes 4 tag))
      ∙ ap le_value (drop-append (le_bytes 4 tag) (le_bytes 4 (nbytes % 2 ^ 32)))
      ∙ le_value-le_bytes 4 (nbytes % 2 ^ 32) (mod-lt nbytes (omega arith))

length-take : (n : ℕ) (xs : List ℕ) → n ≤ length xs → length (take n xs) ≡ n
length-take zero xs h = refl
length-take (suc n) [] h = absurd (omega arith)
length-take (suc n) (x ∷ xs) h = ap suc (length-take n xs (omega arith))

-- A receive of a message that has been sent, with any size: it fails exactly if its tag is neither
-- negative nor the sender's, or if the tensor's size differs from the size that was sent, cut to 32
-- bits; otherwise it takes the bytes and leaves the rest of the stream. The condition is that the
-- sender's tag is a 32-bit number.
pub recv_tensor-send_tensor :
    (tag sent nbytes : ℕ) (t rest : List ℕ)
    → sent < 2 ^ 32
    → recv_tensor tag nbytes (send_tensor sent t ++ rest) ≡ (
        if accepts tag sent
        then (if length t % 2 ^ 32 == nbytes
            then received (take (length t % 2 ^ 32) t) rest
            else size_mismatch)
        else tag_mismatch)
unfolding recv_tensor send_tensor
recv_tensor-send_tensor tag sent nbytes t rest h =
    let n : ℕ = length t % 2 ^ 32 in
    let hdr : List ℕ = header sent (length t) in
    let body : List ℕ = take n t in
    let whole : recv_bytes 8 ((hdr ++ body) ++ rest) ≡ received hdr (body ++ rest) =
      ap (recv_bytes 8) (append_assoc hdr body rest)
      ∙ ap (λ k. recv_bytes k (hdr ++ (body ++ rest))) (sym (header_length sent (length t)))
      ∙ recv_bytes-append hdr (body ++ rest) in
    let data_bytes : recv_bytes n (body ++ rest) ≡ received body rest =
      ap (λ k. recv_bytes k (body ++ rest)) (sym (length-take n t (mod-le (length t) (2 ^ 32))))
      ∙ recv_bytes-append body rest in
    rw whole (
      rw (header_tag sent (length t) h) (
        rw (header_size sent (length t)) (
          ap
            (λ r.
              if accepts tag sent then (if n == nbytes then r else size_mismatch) else tag_mismatch)
            data_bytes)))

-- Tensors below 4 GiB that are sent are received as they were, by a receiver with tensors of the same
-- sizes and with the same or a negative tag.
recv-send :
    (tag sent : ℕ) (ts : List (List ℕ)) (rest : List ℕ)
    → sent < 2 ^ 32
    → accepts tag sent ≡ true
    → All (λ t. length t < 2 ^ 32) ts
    → recv tag (map length ts) (send sent ts ++ rest) ≡ received ts rest
unfolding recv send
recv-send tag sent [] rest h tags small = refl
recv-send tag sent (t ∷ ts) rest h tags (here, small) =
    let uncut : length t % 2 ^ 32 ≡ length t = mod-eq_of_lt here in
    let same : (length t == length t) ≡ true = ground arith in
    let one : recv_tensor tag (length t) (send_tensor sent t ++ (send sent ts ++ rest))
        ≡ received t (send sent ts ++ rest) =
      recv_tensor-send_tensor tag sent (length t) t (send sent ts ++ rest) h
      ∙ rw tags (rw uncut (rw same (ap (λ l. received l (send sent ts ++ rest)) (take_all t)))) in
    rw (append_assoc (send_tensor sent t) (send sent ts) rest)
      (rw one (rw (recv-send tag sent ts rest h tags small) refl))
