-- ===== src/Mesh/Interfaces.antt =====
-- The choice of addresses in csrc/backend/PeerMesh.cpp: `MCCL_IFACE_PRIORITY` and the subnets. The value
-- of the variable is a parameter.
use mccl.Base.{
  ℕ, suc, ◌+◌, ◌≡◌, refl, Bool, true, false, ◌&&◌, ◌||◌, List, [], ◌∷◌, arith, length, keep_if, ltb,
  ◌==◌, if◌then◌else◌,
}
use mccl.Mesh.Endpoint.{split_commas}

abbrev pub dot : ℕ
dot = 46

abbrev pub is_nonempty : List ℕ → Bool
is_nonempty [] = false
is_nonempty (c ∷ s) = true

-- The prefixes, from the text of the variable; the empty parts are left out.
unfoldable pub prefix_priority : List ℕ → List (List ℕ)
unfolding split_commas
prefix_priority text = keep_if is_nonempty (split_commas text)

-- `ip.rfind(prefix, 0) == 0`
unfoldable pub starts_with : List ℕ → List ℕ → Bool
starts_with [] ip = true
starts_with (c ∷ prefix) [] = false
starts_with (c ∷ prefix) (d ∷ ip) = let rest = starts_with prefix ip in d == c && rest

unfoldable pub score : List (List ℕ) → List ℕ → ℕ
unfolding starts_with
score [] ip = 0
score (p ∷ pri) ip = let rest = score pri ip in if starts_with p ip then 0 else suc rest

-- What stands before the third dot, of which `dots` have been passed.
unfoldable pub subnet_from : ℕ → List ℕ → List ℕ
subnet_from dots [] = []
subnet_from dots (c ∷ s) =
    let same = subnet_from dots s in
    let next = subnet_from (dots + 1) s in
    if c == dot then (if dots + 1 == 3 then [] else c ∷ next) else c ∷ same

abbrev pub subnet24 : List ℕ → List ℕ
subnet24 ip = subnet_from 0 ip

unfoldable pub in_priority : List (List ℕ) → List ℕ → Bool
unfolding starts_with
in_priority [] ip = false
in_priority (p ∷ pri) ip = let rest = in_priority pri ip in starts_with p ip || rest

-- Whether a list of prefixes lets an address pass; an empty one lets all pass.
abbrev pub is_allowed : List (List ℕ) → List ℕ → Bool
is_allowed [] ip = true
is_allowed (p ∷ pri) ip = in_priority (p ∷ pri) ip

-- The addresses that a rank publishes.
unfoldable pub advertised : List (List ℕ) → List (List ℕ) → List (List ℕ)
unfolding in_priority
advertised pri ips = keep_if (is_allowed pri) ips

unfoldable pub same_text : List ℕ → List ℕ → Bool
same_text [] [] = true
same_text [] (d ∷ t) = false
same_text (c ∷ s) [] = false
same_text (c ∷ s) (d ∷ t) = let rest = same_text s t in c == d && rest

unfoldable pub shares_subnet : List (List ℕ) → List ℕ → Bool
unfolding same_text subnet_from
shares_subnet [] ip = false
shares_subnet (mine ∷ subnets) ip =
    let rest = shares_subnet subnets ip in same_text (subnet24 ip) mine || rest

-- The addresses of a peer that a rank connects to; `mine` are its own subnets.
unfoldable pub reachable : List (List ℕ) → List (List ℕ) → List (List ℕ) → List (List ℕ)
unfolding shares_subnet in_priority
reachable pri mine cands = keep_if (λ ip. shares_subnet mine ip && is_allowed pri ip) cands

-- An address passes the filter exactly if its score is that of one of the prefixes, that is, less than
-- their number.
pub in_priority-score :
    (pri : List (List ℕ)) (ip : List ℕ) → in_priority pri ip ≡ ltb (score pri ip) (length pri)
unfolding in_priority score
in_priority-score [] ip = refl
in_priority-score (p ∷ pri) ip = ground (arith, in_priority-score pri ip)

keep_twice :
    (p q : List ℕ → Bool) (ips : List (List ℕ))
    → keep_if (λ ip. p ip && q ip) (keep_if q ips) ≡ keep_if p (keep_if q ips)
keep_twice p q [] = refl
keep_twice p q (ip ∷ ips) = ground (arith, keep_twice p q ips)

-- Between ranks with the same list of prefixes the second filter drops nothing: a rank can connect to
-- exactly the published addresses of a peer that lie in one of its own subnets.
pub reachable-advertised :
    (pri mine ips : List (List ℕ))
    → reachable pri mine (advertised pri ips) ≡ keep_if (shares_subnet mine) (advertised pri ips)
unfolding reachable advertised
reachable-advertised pri mine ips = keep_twice (shares_subnet mine) (is_allowed pri) ips
