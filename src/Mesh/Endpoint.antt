-- ===== src/Mesh/Endpoint.antt =====
-- The endpoints of csrc/backend/PeerMesh.cpp, `ip,ip,…:port`, as they are published and as a peer reads
-- them. The text of a port is a parameter.
use mccl.Base.{
  ℕ, ◌≡◌, refl, ◌∙◌, ap, false, Option, none, some, List, [], ◌∷◌, ◌++◌, All, ◌==◌, if◌then◌else◌,
}

abbrev pub comma : ℕ
comma = 44

abbrev pub colon : ℕ
colon = 58

-- The loop that puts a comma before each address but the first.
unfoldable pub join : List (List ℕ) → List ℕ
join [] = []
join (ip ∷ []) = ip
join (ip ∷ (next ∷ ips)) = ip ++ (comma ∷ join (next ∷ ips))

unfoldable pub print_endpoint : List (List ℕ) → List ℕ → List ℕ
unfolding join
print_endpoint ips port = join ips ++ (colon ∷ port)

abbrev pub before_colon : ℕ → List ℕ → Option (List ℕ × List ℕ) → Option (List ℕ × List ℕ)
before_colon c s none = if c == colon then some ([], s) else none
before_colon c s (some (front, back)) = some (c ∷ front, back)

-- `s.rfind(':')`: what stands before the last colon and behind it.
unfoldable pub split_last : List ℕ → Option (List ℕ × List ℕ)
split_last [] = none
split_last (c ∷ s) = before_colon c s (split_last s)

abbrev pub prepend_char : ℕ → List (List ℕ) → List (List ℕ)
prepend_char c [] = (c ∷ []) ∷ []
prepend_char c (part ∷ parts) = (c ∷ part) ∷ parts

-- The loop that cuts at the commas; nothing follows a comma at the end.
unfoldable pub split_commas : List ℕ → List (List ℕ)
split_commas [] = []
split_commas (c ∷ s) =
    let rest = split_commas s in if c == comma then [] ∷ rest else prepend_char c rest

abbrev pub cut_addresses : Option (List ℕ × List ℕ) → Option (List (List ℕ) × List ℕ)
cut_addresses none = none
cut_addresses (some (front, port)) = some (split_commas front, port)

-- The addresses and the port of a peer; none is the failed check for a colon.
unfoldable pub parse_endpoint : List ℕ → Option (List (List ℕ) × List ℕ)
unfolding split_last split_commas
parse_endpoint s = cut_addresses (split_last s)

abbrev pub Lacks : ℕ → List ℕ → Type 0
Lacks c = All (λ x. (x == c) ≡ false)

-- An address is not empty and has no comma.
abbrev pub IsAddress : List ℕ → Type 0
IsAddress [] = ⊥
IsAddress (c ∷ s) = Lacks comma (c ∷ s)

split_last-none : (s : List ℕ) → Lacks colon s → split_last s ≡ none
unfolding split_last
split_last-none [] h = refl
split_last-none (c ∷ s) h = rw (split_last-none s h.1) (rw h.0 refl)

split_last_found :
    (front back : List ℕ)
    → Lacks colon back
    → split_last (front ++ (colon ∷ back)) ≡ some (front, back)
unfolding split_last
split_last_found [] back h = rw (split_last-none back h) refl
split_last_found (c ∷ front) back h = rw (split_last_found front back h) refl

split_commas_word : (s : List ℕ) → IsAddress s → split_commas s ≡ s ∷ []
unfolding split_commas
split_commas_word [] h = absurd h
split_commas_word (c ∷ []) h = rw h.0 refl
split_commas_word (c ∷ (d ∷ s)) h = rw h.0 (ap (prepend_char c) (split_commas_word (d ∷ s) h.1))

split_commas_next :
    (s rest : List ℕ) → IsAddress s → split_commas (s ++ (comma ∷ rest)) ≡ s ∷ split_commas rest
unfolding split_commas
split_commas_next [] rest h = absurd h
split_commas_next (c ∷ []) rest h = rw h.0 refl
split_commas_next (c ∷ (d ∷ s)) rest h =
    rw h.0 (ap (prepend_char c) (split_commas_next (d ∷ s) rest h.1))

split_commas-join : (ips : List (List ℕ)) → All IsAddress ips → split_commas (join ips) ≡ ips
unfolding join split_commas
split_commas-join [] h = refl
split_commas-join (ip ∷ []) h = split_commas_word ip h.0
split_commas-join (ip ∷ (next ∷ ips)) h =
    split_commas_next ip (join (next ∷ ips)) h.0
    ∙ ap (λ l. ip ∷ l) (split_commas-join (next ∷ ips) h.1)

-- A peer reads from an endpoint the addresses and the port that were printed, if the addresses are not
-- empty and have no comma and the port has no colon.
pub parse_endpoint-print_endpoint :
    (ips : List (List ℕ)) (port : List ℕ)
    → All IsAddress ips
    → Lacks colon port
    → parse_endpoint (print_endpoint ips port) ≡ some (ips, port)
unfolding parse_endpoint print_endpoint
parse_endpoint-print_endpoint ips port h digits =
    ap cut_addresses (split_last_found (join ips) port digits)
    ∙ ap (λ l. some (l, port)) (split_commas-join ips h)
