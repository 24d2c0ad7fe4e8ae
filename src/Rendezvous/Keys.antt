-- ===== src/Rendezvous/Keys.antt =====
-- The keys that the ranks set in the store: the endpoints of csrc/runtime/Rendezvous.cpp and of
-- csrc/backend/PeerMesh.cpp, and the barriers with the tags of csrc/backend/ProcessGroupMCCL.cpp.
use mccl.Base.{ℕ, zero, suc, ◌≡◌, ◌≢◌, refl, sym, ap, [], ◌∷◌, ◌++◌, arith, All}
use mccl.Rendezvous.{Text}
use mccl.Rendezvous.Safety.{AreApart}

abbrev pub slash : ℕ
slash = b'/'

-- `std::to_string` of different numbers gives different texts, without a slash.
pub record Printer : Type 0 where
  pub to_string : ℕ → Text
  pub to_string_inj : (a b : ℕ) → to_string a ≡ to_string b → a ≡ b
  pub no_slash : (a : ℕ) → All (λ c. c ≢ slash) (to_string a)

abbrev pub mccl_prefix : Text → Text
mccl_prefix s = b'm' ∷ (b'c' ∷ (b'c' ∷ (b'l' ∷ (slash ∷ s))))

abbrev pub endpoint_prefix : Text → Text
endpoint_prefix s =
    mccl_prefix (b'e' ∷ (b'n' ∷ (b'd' ∷ (b'p' ∷ (b'o' ∷ (b'i' ∷ (b'n' ∷ (b't' ∷ (slash ∷ s)))))))))

abbrev pub peer_prefix : Text → Text
peer_prefix s = mccl_prefix (b'p' ∷ (b'e' ∷ (b'e' ∷ (b'r' ∷ (slash ∷ s)))))

abbrev pub barrier_prefix : Text → Text
barrier_prefix s =
    mccl_prefix (b'b' ∷ (b'a' ∷ (b'r' ∷ (b'r' ∷ (b'i' ∷ (b'e' ∷ (b'r' ∷ (slash ∷ s))))))))

abbrev pub pg_barrier_prefix : Text → Text
pg_barrier_prefix s =
    b'p'
    ∷ (b'g' ∷ (b'_' ∷ (b'b' ∷ (b'a' ∷ (b'r' ∷ (b'r' ∷ (b'i' ∷ (b'e' ∷ (b'r' ∷ (b'_' ∷ s))))))))))

module _ (pr : Printer) where
  open pr use {to_string, to_string_inj, no_slash}

  unfoldable pub endpoint_key : ℕ → Text
  endpoint_key r = endpoint_prefix (to_string r)

  unfoldable pub peer_key : ℕ → Text
  peer_key r = peer_prefix (to_string r)

  unfoldable pub barrier_key : Text → ℕ → Text
  barrier_key tag r = barrier_prefix (tag ++ (slash ∷ to_string r))

  unfoldable pub barrier_tag : ℕ → Text
  barrier_tag seq = pg_barrier_prefix (to_string seq)

  -- The calls of a rank in a process group: the exchange of its mesh, then its barriers, whose sequence
  -- numbers count from 0.
  unfoldable pub group_key : ℕ → ℕ → Text
  unfolding peer_key barrier_key barrier_tag
  group_key zero r = peer_key r
  group_key (suc seq) r = barrier_key (barrier_tag seq) r

-- What the ranks set: their endpoints, and 1 in a barrier.
unfoldable pub group_value : (ℕ → Text) → ℕ → ℕ → Text
group_value endpoint zero r = endpoint r
group_value endpoint (suc seq) r = 1 ∷ []

-- What stands before the first slash determines a text and its rest.
split_first :
    (xs ys xs' ys' : Text)
    → All (λ c. c ≢ slash) xs
    → All (λ c. c ≢ slash) ys
    → xs ++ (slash ∷ xs') ≡ ys ++ (slash ∷ ys')
    → (xs ≡ ys) × (xs' ≡ ys')
split_first [] [] xs' ys' hx hy e = (refl, cc)
split_first [] (y ∷ ys) xs' ys' hx hy e = let first : slash ≡ y = cc in absurd (hy.0 (sym first))
split_first (x ∷ xs) [] xs' ys' hx hy e = let first : x ≡ slash = cc in absurd (hx.0 first)
split_first (x ∷ xs) (y ∷ ys) xs' ys' hx hy e =
    let first : x ≡ y = cc in
    let rest : xs ++ (slash ∷ xs') ≡ ys ++ (slash ∷ ys') = cc in
    let (same, same') = split_first xs ys xs' ys' hx.1 hy.1 rest in (cc, same')

module _ (pr : Printer) where
  open pr use {to_string, to_string_inj, no_slash}

  -- The keys of a process group differ between its ranks and between its calls.
  pub group_key-AreApart : AreApart (group_key pr)
  unfolding group_key
  group_key-AreApart zero r zero r' e = (refl, to_string_inj r r' (cc))
  group_key-AreApart zero r (suc b) r' e =
      let letter : ◌≡◌ {A = ℕ} b'p' b'b' = cc in absurd (omega arith)
  group_key-AreApart (suc a) r zero r' e =
      let letter : ◌≡◌ {A = ℕ} b'b' b'p' = cc in absurd (omega arith)
  group_key-AreApart (suc a) r (suc b) r' e =
      let behind : to_string a ++ (slash ∷ to_string r) ≡ to_string b ++ (slash ∷ to_string r') =
        cc in
      let (calls, ranks) =
        split_first (to_string a) (to_string b) _ _ (no_slash a) (no_slash b) behind in
      (ap suc (to_string_inj a b calls), to_string_inj r r' ranks)
