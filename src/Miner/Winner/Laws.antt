-- ===== src/Miner/Winner/Laws.antt =====
-- miner/util.go, `IsRoundWinner`: when a miner is a winner.
use sophon_miner.Miner.Winner.{
  BeaconEntry, ElectionProof, MiningBaseInfo, Wallet, bls, bls_content, compute_vrf,
  draw_random_param, election, election_proof_production, is_round_winner,
}
use sophon_miner.Prelude.{>>=-eq-ok, String, [], ap, arith, ok, some, ◌∙◌, ◌∷◌, ◌≡◌}
use sophon_miner.Prelude.Int.{pos, ◌≤ℤ◌}
use sophon_miner.Types.{Address, Bytes, ChainEpoch}

module _ (w : Wallet) where
  -- A VRF output is the content of a BLS signature by the worker.
  compute_vrf-ok :
      (account : String) (worker : Address) (input v : Bytes)
      → compute_vrf w account worker input ≡ ok v
      → w.sign worker (account ∷ []) input draw_random_param
        ≡ ok (record { sig_type = bls; content = v })
  unfolding compute_vrf
  compute_vrf-ok account worker input v h =
      let (sig, signed, q) =
        >>=-eq-ok (w.sign worker (account ∷ []) input draw_random_param) (bls_content w) h in
      signed ∙ ap ok (ground arith)

  election-some :
      (mbi : MiningBaseInfo) (vrf : Bytes) (ep : ElectionProof)
      → election w mbi vrf ≡ some ep
      → (pos 1 ≤ℤ ep.win_count)
        × (ep.win_count ≡ w.compute_win_count vrf mbi.miner_power mbi.network_power)
        × (ep.vrf_proof ≡ vrf)
  unfolding election
  election-some mbi vrf ep h = ground arith

  -- A miner that wins the round has a win count of at least one, that of its VRF output, which is a
  -- BLS signature by its worker.
  pub is_round_winner-some :
      (round : ChainEpoch) (account : String) (miner : Address) (brand : BeaconEntry)
      (mbi : MiningBaseInfo) (ep : ElectionProof)
      → is_round_winner w round account miner brand mbi ≡ ok (some ep)
      → (pos 1 ≤ℤ ep.win_count)
        × (ep.win_count ≡ w.compute_win_count ep.vrf_proof mbi.miner_power mbi.network_power)
        × ((input : Bytes) × (w.sign mbi.worker_key (account ∷ []) input draw_random_param
              ≡ ok (record { sig_type = bls; content = ep.vrf_proof })))
  unfolding is_round_winner
  is_round_winner-some round account miner brand mbi ep h =
      let (entropy, _, h1) = >>=-eq-ok (w.marshal_address miner) _ h in
      let (input, _, h2) =
        >>=-eq-ok
          (w.marshal_params (record {
            rbase = brand.content;
            pers = election_proof_production;
            round = round;
            entropy = entropy;
          }))
          _ h1 in
      let (vrf, out, h3) = >>=-eq-ok (compute_vrf w account mbi.worker_key input) _ h2 in
      let elected : election w mbi vrf ≡ some ep = ground arith in
      let (positive, counted, proof) = election-some mbi vrf ep elected in
      (
        positive,
        rw proof counted,
        (input, rw proof (compute_vrf-ok account mbi.worker_key input vrf out)),
      )
