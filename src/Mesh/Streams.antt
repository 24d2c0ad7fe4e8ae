-- ===== src/Mesh/Streams.antt =====
-- `write_all` and `read_all` of csrc/backend/PeerMesh.cpp. The socket's answers are parameters: a call
-- of `recv` gives at most as many bytes as asked for, of the segment that has arrived; an empty segment
-- or no further one is an answer that is not positive.
use mathlib.Core.List.{append_assoc}
use mccl.Base.{
  ℕ, zero, suc, ◌-◌, ◌≤◌, ◌<◌, ◌≡◌, refl, sym, ◌∙◌, ap, Bool-cases, inl, inr, Option, none, some,
  List, [], ◌∷◌, ◌++◌, arith, length, take, drop, All, All-append, leb, if◌then◌else◌,
}
use mccl.Collective.Messages.{
  Received, received, tag_mismatch, size_mismatch, waits, recv_bytes, recv_bytes-append,
  on_received,
}

abbrev pub prepend_bytes :
    List ℕ → Option (List ℕ × List (List ℕ)) → Option (List ℕ × List (List ℕ))
prepend_bytes bs none = none
prepend_bytes bs (some (more, segments)) = some (bs ++ more, segments)

-- `read_all`: the bytes with the segments that are left, or false.
unfoldable pub read_all : ℕ → List (List ℕ) → Option (List ℕ × List (List ℕ))
read_all zero segments = some ([], segments)
read_all (suc n) [] = none
read_all (suc n) ([] ∷ segments) = none
read_all (suc n) ((b ∷ bs) ∷ segments) =
    let more = read_all (n - length bs) segments in
    if leb (length bs) n
    then prepend_bytes (b ∷ bs) more
    else some (b ∷ take n bs, drop n bs ∷ segments)

abbrev pub prepend_segment : List ℕ → Option (List (List ℕ)) → Option (List (List ℕ))
prepend_segment bs none = none
prepend_segment bs (some segments) = some (bs ∷ segments)

-- `write_all`: `counts` are the answers of `send`, of which one larger than the bytes left is cut to
-- them; 0 stands for one that is not positive. The segments handed over, or false.
unfoldable pub write_all : List ℕ → List ℕ → Option (List (List ℕ))
write_all [] counts = some []
write_all (b ∷ bs) [] = none
write_all (b ∷ bs) (zero ∷ counts) = none
write_all (b ∷ bs) (suc k ∷ counts) = prepend_segment (b ∷ take k bs) (write_all (drop k bs) counts)

-- The bytes of the segments, one behind the other.
abbrev pub joined : List (List ℕ) → List ℕ
joined [] = []
joined (s ∷ segments) = s ++ joined segments

abbrev pub IsSegment : List ℕ → Type 0
IsSegment [] = ⊥
IsSegment (b ∷ bs) = Unit

-- What a read of segments comes to for a stream of bytes.
abbrev pub of_stream : Option (List ℕ × List (List ℕ)) → Received (List ℕ)
of_stream none = waits
of_stream (some (bs, segments)) = received bs (joined segments)

after_bytes : List ℕ → Received (List ℕ) → Received (List ℕ)
after_bytes xs r = on_received r (λ bs rest. received (xs ++ bs) rest)

of_stream-prepend_bytes :
    (bs : List ℕ) (o : Option (List ℕ × List (List ℕ)))
    → of_stream (prepend_bytes bs o) ≡ after_bytes bs (of_stream o)
unfolding after_bytes
of_stream-prepend_bytes bs none = refl
of_stream-prepend_bytes bs (some (more, segments)) = refl

after_bytes-cons :
    (x : ℕ) (xs : List ℕ) (r : Received (List ℕ))
    → on_received (after_bytes xs r) (λ bs rest. received (x ∷ bs) rest) ≡ after_bytes (x ∷ xs) r
unfolding after_bytes
after_bytes-cons x xs (received bs rest) = refl
after_bytes-cons x xs tag_mismatch = refl
after_bytes-cons x xs size_mismatch = refl
after_bytes-cons x xs waits = refl

after_bytes_nil : (r : Received (List ℕ)) → r ≡ after_bytes [] r
unfolding after_bytes
after_bytes_nil (received bs rest) = refl
after_bytes_nil tag_mismatch = refl
after_bytes_nil size_mismatch = refl
after_bytes_nil waits = refl

recv_bytes_past :
    (xs ys : List ℕ) (n : ℕ)
    → length xs ≤ n
    → recv_bytes n (xs ++ ys) ≡ after_bytes xs (recv_bytes (n - length xs) ys)
unfolding recv_bytes
recv_bytes_past [] ys n h =
    let count : n ≡ n - 0 = omega arith in
    after_bytes_nil (recv_bytes n ys) ∙ ap (λ m. after_bytes [] (recv_bytes m ys)) count
recv_bytes_past (x ∷ xs) ys zero h = absurd (omega arith)
recv_bytes_past (x ∷ xs) ys (suc n) h =
    let count : suc n - length (x ∷ xs) ≡ n - length xs = omega arith in
    rw count (
      ap (λ r. on_received r (λ bs rest. received (x ∷ bs) rest))
        (recv_bytes_past xs ys n (omega arith))
      ∙ after_bytes-cons x xs (recv_bytes (n - length xs) ys))

recv_bytes_within :
    (xs ys : List ℕ) (n : ℕ)
    → n ≤ length xs
    → recv_bytes n (xs ++ ys) ≡ received (take n xs) (drop n xs ++ ys)
unfolding recv_bytes
recv_bytes_within xs ys zero h = refl
recv_bytes_within [] ys (suc n) h = absurd (omega arith)
recv_bytes_within (x ∷ xs) ys (suc n) h =
    ap (λ r. on_received r (λ bs rest. received (x ∷ bs) rest))
      (recv_bytes_within xs ys n (omega arith))

-- However a stream is cut into segments that are not empty, `read_all` reads from it what it reads
-- from the bytes alone, and fails exactly if there are too few.
pub of_stream-read_all :
    (n : ℕ) (segments : List (List ℕ))
    → All IsSegment segments
    → of_stream (read_all n segments) ≡ recv_bytes n (joined segments)
unfolding read_all recv_bytes
of_stream-read_all zero segments h = refl
of_stream-read_all (suc n) [] h = refl
of_stream-read_all (suc n) ([] ∷ segments) h = absurd h.0
of_stream-read_all (suc n) ((b ∷ bs) ∷ segments) h = elim (Bool-cases (leb (length bs) n)) [
  | inl whole ↦ rw whole (
      of_stream-prepend_bytes (b ∷ bs) (read_all (n - length bs) segments)
      ∙ ap (after_bytes (b ∷ bs)) (of_stream-read_all (n - length bs) segments h.1)
      ∙ sym (after_bytes-cons b bs (recv_bytes (n - length bs) (joined segments)))
      ∙ ap (λ r. on_received r (λ bs rest. received (b ∷ bs) rest))
          (sym (recv_bytes_past bs (joined segments) n (ground arith))))
  | inr part ↦ rw part (
      ap (λ r. on_received r (λ bs rest. received (b ∷ bs) rest))
        (sym (recv_bytes_within bs (joined segments) n (ground arith))))
]

abbrev pub IsPositive : ℕ → Type 0
IsPositive n = 0 < n

take-drop : (n : ℕ) (xs : List ℕ) → take n xs ++ drop n xs ≡ xs
take-drop zero xs = refl
take-drop (suc n) [] = refl
take-drop (suc n) (x ∷ xs) = ap (λ l. x ∷ l) (take-drop n xs)

length-drop : (n : ℕ) (xs : List ℕ) → length (drop n xs) ≤ length xs
length-drop zero xs = omega arith
length-drop (suc n) [] = omega arith
length-drop (suc n) (x ∷ xs) = omega (arith, length-drop n xs)

-- What `write_all` hands over.
abbrev Hands : List ℕ → List ℕ → Type 0
Hands bs counts =
    (segments : List (List ℕ)) × (write_all bs counts ≡ some segments)
    × (joined segments ≡ bs)
    × All IsSegment segments

hand_over :
    (counts bs : List ℕ) → All IsPositive counts → length bs ≤ length counts → Hands bs counts
unfolding write_all
hand_over counts [] h enough = ([], refl, refl, tt)
hand_over [] (b ∷ bs) h enough = absurd (omega arith)
hand_over (zero ∷ counts) (b ∷ bs) h enough = absurd (omega (arith, h.0))
hand_over (suc k ∷ counts) (b ∷ bs) h enough =
    let (segments, e, all, cut) =
      hand_over counts (drop k bs) h.1 (omega (arith, length-drop k bs)) in
    rw e (
      (
        ((b ∷ take k bs) ∷ segments),
        refl,
        ap (λ l. b ∷ l) (ap (λ l. take k bs ++ l) all ∙ take-drop k bs),
        (tt, cut),
      ))

joined-append : (xs ys : List (List ℕ)) → joined (xs ++ ys) ≡ joined xs ++ joined ys
joined-append [] ys = refl
joined-append (x ∷ xs) ys =
    ap (λ l. x ++ l) (joined-append xs ys) ∙ sym (append_assoc x (joined xs) (joined ys))

-- A message that `write_all` hands over in any pieces, as long as each `send` takes at least a byte, is
-- what `read_all` of its length reads at the other end, whatever follows it.
pub read_all-write_all :
    (bs counts : List ℕ) (later : List (List ℕ))
    → All IsPositive counts
    → length bs ≤ length counts
    → All IsSegment later
    → (segments : List (List ℕ)) × (write_all bs counts ≡ some segments)
      × (of_stream (read_all (length bs) (segments ++ later)) ≡ received bs (joined later))
read_all-write_all bs counts later positive enough cut =
    let (segments, e, all, cut_too) = hand_over counts bs positive enough in
    (
      segments,
      e,
      of_stream-read_all (length bs) (segments ++ later)
            (All-append IsSegment segments later cut_too cut)
          ∙ ap (recv_bytes (length bs)) (joined-append segments later)
          ∙ ap (λ l. recv_bytes (length bs) (l ++ joined later)) all
          ∙ recv_bytes-append bs (joined later),
    )
