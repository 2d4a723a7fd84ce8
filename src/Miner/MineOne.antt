-- ===== src/Miner/MineOne.antt =====
-- miner/multiminer.go, `mineOne`: one miner's attempt at a round. The result is built up in the
-- order of the code; the first error, a missing base info, an ineligible miner or a lost election
-- ends it. The calls of the node are a record of functions; logs, metrics and times are left out.
pub mod Laws
use sophon_miner.Miner.{MiningBase, next_height, parent_height}
use sophon_miner.Miner.Randomness.{Blake2b, draw_randomness}
use sophon_miner.Miner.Winner.{
  BeaconEntry, ElectionProof, MineError, MiningBaseInfo, Wallet, compute_ticket, is_round_winner,
  miner_not_exist, winning_post_challenge_seed,
}
use sophon_miner.Prelude.{
  List, Option, Result, String, [], err, if◌then◌else◌, none, ok, some, ℕ, ◌>>=◌, ◌>>◌, ◌∷◌,
}
use sophon_miner.SlashFilter.{SlashFilterApi}
use sophon_miner.Types.{Address, BlockHeader, Bytes, ChainEpoch, Cid, Ticket, Time, mining}

pub record NodeApi : Type 0 where
  pub miner_get_base_info :
      Address → ChainEpoch → List Cid → Result MineError (Option MiningBaseInfo)
  pub state_network_version : List Cid → Result MineError ℕ
  pub blake2b : Blake2b
  -- WinningPoStProver.ComputeProof for the sectors of the base info.
  pub compute_proof :
      Address → MiningBaseInfo → Bytes → ChainEpoch → ℕ → Result MineError (List Bytes)
  -- ForkUpgradeParams.UpgradeSmokeHeight
  pub upgrade_smoke_height : ChainEpoch

pub record WinPoStRes : Type 0 where
  pub addr : Address
  pub waddr : Option Address
  pub ticket : Option Ticket
  pub winner : Option ElectionProof
  pub bvals : List BeaconEntry
  pub post_proof : Option (List Bytes)
  pub failed : Option MineError

abbrev pub empty_result : Address → WinPoStRes
empty_result addr = record {
  addr = addr;
  waddr = none;
  ticket = none;
  winner = none;
  bvals = [];
  post_proof = none;
  failed = none;
}

-- The last of the beacon entries, or the previous one where there is none.
last_or : BeaconEntry → List BeaconEntry → BeaconEntry
last_or e [] = e
last_or e (x ∷ xs) = last_or x xs

abbrev pub rbase_of : MiningBaseInfo → BeaconEntry
unfolding last_or
rbase_of mbi = last_or mbi.prev_beacon_entry mbi.beacon_entries

-- The header under which a winner is recorded before its proof is computed.
abbrev winner_header : MiningBase → Address → BlockHeader
winner_header base addr = record {
  miner = addr;
  height = next_height base;
  parents = base.tipset.key;
  ticket = none;
}

module _ {S : Type 0} (sf : SlashFilterApi S) (w : Wallet) (api : NodeApi) (now : Time) where
  -- The seed and the proof.
  prove : MiningBase → Address → MiningBaseInfo → Result MineError (List Bytes)
  prove base addr mbi = do
    buf ← w.marshal_address addr
    rand ←
        draw_randomness api.blake2b (rbase_of mbi).content winning_post_challenge_seed
          (next_height base) buf
    nv ← api.state_network_version base.tipset.key
    api.compute_proof addr mbi rand (next_height base) nv

  finish : WinPoStRes → Result MineError (List Bytes) → WinPoStRes
  finish res (ok proof) = record res { post_proof = some proof }
  finish res (err e) = record res { failed = some e }

  -- After the election: a winner is recorded as mining, and then proves.
  with_winner :
      MiningBase
      → Address
      → MiningBaseInfo
      → WinPoStRes
      → S
      → Result MineError (Option ElectionProof)
      → WinPoStRes × S
  unfolding prove finish
  with_winner base addr mbi res s (err e) = (record res { failed = some e }, s)
  with_winner base addr mbi res s (ok none) = (res, s)
  with_winner base addr mbi res s (ok (some winner)) = (
    finish (record res { winner = some winner }) (prove base addr mbi),
    (sf.put_block s (winner_header base addr) (parent_height base) now mining).1,
  )

  run_election :
      MiningBase → Option String → Address → MiningBaseInfo → WinPoStRes → S → WinPoStRes × S
  unfolding with_winner
  run_election base none addr mbi res s = (record res { failed = some (miner_not_exist addr) }, s)
  run_election base (some account) addr mbi res s =
      with_winner base addr mbi res s
        (is_round_winner w (next_height base) account addr (rbase_of mbi) mbi)

  with_ticket :
      MiningBase
      → Option String
      → Address
      → MiningBaseInfo
      → WinPoStRes
      → S
      → Result MineError Ticket
      → WinPoStRes × S
  unfolding run_election
  with_ticket base account addr mbi res s (err e) = (record res { failed = some e }, s)
  with_ticket base account addr mbi res s (ok ticket) =
      run_election base account addr mbi (record res { ticket = some ticket }) s

  with_base_info :
      MiningBase
      → Option String
      → Address
      → WinPoStRes
      → S
      → Result MineError (Option MiningBaseInfo)
      → WinPoStRes × S
  unfolding with_ticket
  with_base_info base account addr res s (err e) = (record res { failed = some e }, s)
  with_base_info base account addr res s (ok none) = (res, s)
  with_base_info base account addr res s (ok (some mbi)) =
      let res' = record res { waddr = some mbi.worker_key } in
      if mbi.eligible_for_mining
      then with_ticket base account addr mbi (record res' { bvals = mbi.beacon_entries }) s
          (compute_ticket w api.upgrade_smoke_height account (rbase_of mbi) (next_height base)
            base.tipset.min_ticket mbi addr)
      else (res', s)

  -- `account` is that of the miner in the set of miners, `none` once it was removed.
  unfoldable pub mine_one : MiningBase → Option String → Address → S → WinPoStRes × S
  unfolding with_base_info with_ticket run_election with_winner prove finish
  mine_one base account addr s =
      with_base_info base account addr (empty_result addr) s
        (api.miner_get_base_info addr (next_height base) base.tipset.key)
