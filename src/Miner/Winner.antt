-- ===== src/Miner/Winner.antt =====
-- miner/util.go, `ComputeVRF` and `IsRoundWinner`, and miner/multiminer.go, `computeTicket`.
-- The calls of the wallet, of the encoders and of the chain library are a record of functions.
pub mod Laws
use sophon_miner.Prelude.{
  Bool, List, Option, Result, String, [], err, false, if◌then◌else◌, none, ok, some, true, ℕ, ◌++◌,
  ◌>>=◌, ◌>>◌, ◌∷◌,
}
use sophon_miner.Prelude.Int.{int64, ltb_ℤ, pos, ℤ, ◌-ℤ◌}
use sophon_miner.Types.{Address, Bytes, ChainEpoch, Ticket}

pub data SigType : Type 0 where
  bls secp256k1 delegated : SigType

pub record Signature : Type 0 where
  pub sig_type : SigType
  pub content : Bytes

-- The purpose of a signature, types.MsgMeta, and the domain of randomness.
pub data MsgType : Type 0 where
  draw_random_param block_header : MsgType

pub data Domain : Type 0 where
  ticket_production election_proof_production winning_post_challenge_seed : Domain

pub data MineError : Type 0 where
  marshal_failed : MineError
  sign_failed : ℕ → MineError
  not_bls : MineError
  miner_not_exist : Address → MineError
  api_failed : ℕ → MineError
  randomness_failed : MineError
  proof_failed : ℕ → MineError

pub record BeaconEntry : Type 0 where
  pub round : ℕ
  pub content : Bytes

pub record MiningBaseInfo : Type 0 where
  pub miner_power : ℕ
  pub network_power : ℕ
  pub worker_key : Address
  pub prev_beacon_entry : BeaconEntry
  pub beacon_entries : List BeaconEntry
  pub eligible_for_mining : Bool

pub record ElectionProof : Type 0 where
  pub win_count : ℤ
  pub vrf_proof : Bytes

-- wallet.DrawRandomParams
pub record DrawRandomParams : Type 0 where
  pub rbase : Bytes
  pub pers : Domain
  pub round : ChainEpoch
  pub entropy : Bytes

pub record Wallet : Type 0 where
  pub sign : Address → List String → Bytes → MsgType → Result MineError Signature
  pub marshal_address : Address → Result MineError Bytes
  pub marshal_params : DrawRandomParams → Result MineError Bytes
  -- ElectionProof.ComputeWinCount, of the VRF proof and the two powers.
  pub compute_win_count : Bytes → ℕ → ℕ → ℤ

abbrev is_bls : SigType → Bool
is_bls bls = true
is_bls _ = false

module _ (w : Wallet) where
  bls_content : Signature → Result MineError Bytes
  bls_content sig = if is_bls sig.sig_type then ok sig.content else err not_bls

  unfoldable pub compute_vrf : String → Address → Bytes → Result MineError Bytes
  unfolding bls_content
  compute_vrf account worker input = do
    sig ← w.sign worker (account ∷ []) input draw_random_param
    bls_content sig

  -- The election proof of a VRF output: none where it wins nothing.
  election : MiningBaseInfo → Bytes → Option ElectionProof
  election mbi vrf =
      let j = w.compute_win_count vrf mbi.miner_power mbi.network_power in
      if ltb_ℤ j (pos 1) then none else some (record { win_count = j; vrf_proof = vrf })

  unfoldable pub is_round_winner :
      ChainEpoch
      → String
      → Address
      → BeaconEntry
      → MiningBaseInfo
      → Result MineError (Option ElectionProof)
  unfolding election
  is_round_winner round account miner brand mbi = do
    entropy ← w.marshal_address miner
    election_rand ← w.marshal_params (record {
      rbase = brand.content;
      pers = election_proof_production;
      round = round;
      entropy = entropy;
    })
    vrf ← compute_vrf account mbi.worker_key election_rand
    ok (election mbi vrf)

  -- `account` is that of the miner in the set of miners, if it is there; above the Smoke upgrade the
  -- entropy has the ticket of the chain.
  ticket_account : Address → Option String → Result MineError String
  ticket_account addr none = err (miner_not_exist addr)
  ticket_account addr (some account) = ok account

  -- TicketRandomnessLookback is 1.
  unfoldable pub compute_ticket :
      ChainEpoch
      → Option String
      → BeaconEntry
      → ChainEpoch
      → Bytes
      → MiningBaseInfo
      → Address
      → Result MineError Ticket
  unfolding ticket_account
  compute_ticket smoke account brand round chain_rand mbi addr = do
    buf ← w.marshal_address addr
    input ← w.marshal_params (record {
      rbase = brand.content;
      pers = ticket_production;
      round = int64 (round -ℤ pos 1);
      entropy = (if ltb_ℤ smoke round then buf ++ chain_rand else buf);
    })
    acc ← ticket_account addr account
    vrf ← compute_vrf acc mbi.worker_key input
    ok (record { vrf_proof = vrf })
