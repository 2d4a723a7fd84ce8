-- ===== src/Miner/Warmup/Laws.antt =====
-- miner/warmup.go: the sector of a warm-up is the first active one.
-- All the partitions before have no sector.
use sophon_miner.Miner.{TipSet}
use sophon_miner.Miner.Manage.{start}
use sophon_miner.Miner.Warmup.{
  FirstBit, WarmupApi, WarmupError, bit, bit_failed, deadlines_failed, find_sector, first_in,
  max_uint64, no_bits_set, no_chain_head, no_network_version, no_proof, or_later, partitions_of,
  prove_sector, sector_failed, win_post_warmup_for_miner, with_info,
}
use sophon_miner.Miner.Winner.{MineError}
use sophon_miner.Prelude.{
  >>=-eq-ok, All, Bool-cases, List, Option, Result, [], ap, arith, err, inl, inr, nat_eq, none, ok,
  refl, some, suc, sym, wrap_err, wrapped_ok, zero, ℕ, ◌++◌, ◌==◌, ◌∷◌, ◌≡◌, ◌⊎◌,
}
use sophon_miner.Types.{Address, Bytes}

abbrev pub AreEmpty : List FirstBit → Type 0
AreEmpty partitions = All (λ p. p ≡ no_bits_set) partitions

-- A partition whose first sector is `b`, with empty ones before it.
abbrev pub StartsAt : ℕ → List FirstBit → Type 0
StartsAt b partitions =
    (before : List FirstBit) × (after : List FirstBit) × (partitions ≡ before ++ bit b ∷ after)
    × AreEmpty before

first_in-StartsAt : (ps : List FirstBit) (b : ℕ) → first_in ps ≡ ok (some b) → StartsAt b ps
unfolding first_in
first_in-StartsAt [] b h = cc
first_in-StartsAt (no_bits_set ∷ ps) b h =
    let (before, after, split, empty) = first_in-StartsAt ps b h in
    (no_bits_set ∷ before, after, ap (λ l. no_bits_set ∷ l) split, (refl, empty))
first_in-StartsAt (bit c ∷ ps) b h =
    let same : c ≡ b = ground arith in ([], ps, ap (λ x. bit x ∷ ps) same, tt)
first_in-StartsAt (bit_failed e ∷ ps) b h = cc

first_in-none : (ps : List FirstBit) → first_in ps ≡ ok none → AreEmpty ps
unfolding first_in
first_in-none [] h = tt
first_in-none (no_bits_set ∷ ps) h = (refl, first_in-none ps h)
first_in-none (bit c ∷ ps) h = cc
first_in-none (bit_failed e ∷ ps) h = cc

module _ (api : WarmupApi) (addr : Address) where
  -- The partitions of a deadline, as the node gives them.
  abbrev Given : ℕ → List FirstBit → Type 0
  Given idx partitions = api.state_miner_partitions addr idx ≡ ok partitions

  -- Of `n` deadlines from an index on, the first one with a sector starts at `b`.
  abbrev pub IsFirst : ℕ → ℕ → ℕ → Type 0
  IsFirst b start zero = ⊥
  IsFirst b start (suc n) =
      (partitions : List FirstBit) × Given start partitions
      × (StartsAt b partitions ⊎ (AreEmpty partitions × IsFirst b (suc start) n))

  -- None of `n` deadlines from an index on has a sector.
  abbrev pub AllEmpty : ℕ → ℕ → Type 0
  AllEmpty start zero = Unit {0}
  AllEmpty start (suc n) =
      (partitions : List FirstBit) × Given start partitions
      × AreEmpty partitions
      × AllEmpty (suc start) n

  or_later-cases :
      (ps : List FirstBit) (later : Result WarmupError (Option ℕ)) (o : Option ℕ)
      → or_later (first_in ps) later ≡ ok o
      → ((b : ℕ) × (o ≡ some b) × (first_in ps ≡ ok (some b)))
        ⊎ ((first_in ps ≡ ok none) × (later ≡ ok o))
  unfolding or_later
  or_later-cases ps later o h = by_first (first_in ps) h
    where
      by_first :
          (r : Result WarmupError (Option ℕ))
          → or_later r later ≡ ok o
          → ((b : ℕ) × (o ≡ some b) × (r ≡ ok (some b))) ⊎ ((r ≡ ok none) × (later ≡ ok o))
      by_first (err e) h = cc
      by_first (ok none) h = inr (refl, h)
      by_first (ok (some b)) h = let same : some b ≡ o = ground arith in inl (b, sym same, refl)

  given_first :
      (idx : ℕ) (r : Result MineError (List FirstBit)) (later : Result WarmupError (Option ℕ))
      (o : Option ℕ)
      → or_later (partitions_of idx r) later ≡ ok o
      → (ps : List FirstBit) × (r ≡ ok ps)
        × (((b : ℕ) × (o ≡ some b) × (first_in ps ≡ ok (some b)))
            ⊎ ((first_in ps ≡ ok none) × (later ≡ ok o)))
  unfolding or_later partitions_of
  given_first idx (err e) later o h = cc
  given_first idx (ok ps) later o h = (ps, refl, or_later-cases ps later o h)

  find_sector-IsFirst :
      (n start b : ℕ) → find_sector api addr n start ≡ ok (some b) → IsFirst b start n
  unfolding find_sector
  find_sector-IsFirst zero start b h = cc
  find_sector-IsFirst (suc n) start b h =
      let (ps, given, how) =
        given_first start (api.state_miner_partitions addr start)
          (find_sector api addr n (suc start)) (some b) h in
      elim how [
        | inl (c, same, at) ↦
            let is_b : c ≡ b = ground arith in
            (ps, given, inl (first_in-StartsAt ps b (rw is_b at at)))
        | inr (empty, later) ↦
            (ps, given, inr (first_in-none ps empty, find_sector-IsFirst n (suc start) b later))
      ]

  find_sector-AllEmpty : (n start : ℕ) → find_sector api addr n start ≡ ok none → AllEmpty start n
  unfolding find_sector
  find_sector-AllEmpty zero start h = tt
  find_sector-AllEmpty (suc n) start h =
      let (ps, given, how) =
        given_first start (api.state_miner_partitions addr start)
          (find_sector api addr n (suc start)) none h in
      elim how [
        | inl (c, same, at) ↦ cc
        | inr (empty, later) ↦
            (ps, given, first_in-none ps empty, find_sector-AllEmpty n (suc start) later)
      ]

  -- The prover has computed a proof over the sector.
  abbrev pub HasProof : ℕ → Type 0
  HasProof b =
      (info : Bytes) × (ts : TipSet) × (nv : ℕ) × (proof : List Bytes) × (api.state_sector_get_info
          addr b
        ≡ ok (some info))
      × (api.chain_head ≡ ok ts)
      × (api.compute_proof b info ts.height nv ≡ ok proof)

  with_info-HasProof :
      (b : ℕ) (q : Option Bytes) (o : Option ℕ)
      → api.state_sector_get_info addr b ≡ ok q
      → with_info api addr b q ≡ ok o
      → (o ≡ some b) × HasProof b
  unfolding with_info
  with_info-HasProof b none o got h = cc
  with_info-HasProof b (some info) o got h =
      let (ts, head, h1) = >>=-eq-ok (wrap_err (λ e. no_chain_head) api.chain_head) _ h in
      let (nv, _, h2) =
        >>=-eq-ok (wrap_err (λ e. no_network_version) (api.state_network_version ts.key)) _ h1 in
      let (proof, made, h3) =
        >>=-eq-ok (wrap_err no_proof (api.compute_proof b info ts.height nv)) _ h2 in
      let same : some b ≡ o = ground arith in
      (
        sym same,
        (
          info,
          ts,
          nv,
          proof,
          got,
          wrapped_ok (λ e. no_chain_head) _ head,
          wrapped_ok no_proof _ made,
        ),
      )

  prove_sector-HasProof :
      (b : ℕ) (o : Option ℕ)
      → prove_sector api addr (some b) ≡ ok o
      → ((o ≡ some b) × HasProof b) ⊎ (b ≡ max_uint64)
  unfolding prove_sector
  prove_sector-HasProof b o h = elim (Bool-cases (b == max_uint64)) [
    | inl sentinel ↦ inr ((nat_eq.beq_iff b max_uint64).0 sentinel)
    | inr real ↦
        let (q, asked, got) =
          >>=-eq-ok (wrap_err sector_failed (api.state_sector_get_info addr b)) _ (rw real at h) in
        inl (with_info-HasProof b q o (wrapped_ok sector_failed _ asked) got)
  ]

  -- A warm-up that succeeds has computed a proof over the first active sector of the miner, in the order
  -- of the deadlines and of their partitions; or there is no active sector in any of them, or the first
  -- is the number that stands for none.
  pub win_post_warmup_for_miner-IsFirst :
      (o : Option ℕ)
      → win_post_warmup_for_miner api addr ≡ ok o
      → (n : ℕ) × (api.state_miner_deadlines addr ≡ ok n)
        × (AllEmpty 0 n
            ⊎ ((b : ℕ) × IsFirst b 0 n × (((o ≡ some b) × HasProof b) ⊎ (b ≡ max_uint64))))
  unfolding win_post_warmup_for_miner
  win_post_warmup_for_miner-IsFirst o h =
      let (n, counted, h1) =
        >>=-eq-ok (wrap_err deadlines_failed (api.state_miner_deadlines addr)) _ h in
      let (s, searched, h2) = >>=-eq-ok (find_sector api addr n 0) _ h1 in
      (n, wrapped_ok deadlines_failed _ counted, by_sector n s searched h2)
    where
      by_sector :
          (n : ℕ) (s : Option ℕ)
          → find_sector api addr n 0 ≡ ok s
          → prove_sector api addr s ≡ ok o
          → AllEmpty 0 n
            ⊎ ((b : ℕ) × IsFirst b 0 n × (((o ≡ some b) × HasProof b) ⊎ (b ≡ max_uint64)))
      by_sector n none searched h = inl (find_sector-AllEmpty n 0 searched)
      by_sector n (some b) searched h =
          inr (b, find_sector-IsFirst n 0 b searched, prove_sector-HasProof b o h)
