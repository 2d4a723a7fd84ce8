-- ===== src/Tests/Attempts.antt =====
-- One round with a winner: the attempt, its election and what is done with its result.
use sophon_miner.Datastore.Memory.{memory}
use sophon_miner.Journal.Alerting.{alert_type_eq}
use sophon_miner.Journal.Rolling.{journal_file_eq}
use sophon_miner.Miner.{MiningBase}
use sophon_miner.Miner.Attempts.{
  Attempt, Attempts, collect, collect_all, errors_of, sent, timed_out,
}
use sophon_miner.Miner.MineOne.{NodeApi, WinPoStRes, mine_one}
use sophon_miner.Miner.MineOne.Laws.{mine_one_complete}
use sophon_miner.Miner.Randomness.{Blake2b, draw_randomness}
use sophon_miner.Miner.Winner.{
  BeaconEntry, Domain, ElectionProof, MineError, MiningBaseInfo, Wallet, bls, compute_ticket,
  compute_vrf, election_proof_production, is_round_winner, ticket_production,
  winning_post_challenge_seed,
}
use sophon_miner.Prelude.{
  List, String, [], arith, is_some, length, none, ok, refl, some, true, ◌∷◌, ◌≡◌, ◌≤◌,
}
use sophon_miner.Prelude.Int.{FitsInt64, pos, ℤ, ◌≤ℤ◌}
use sophon_miner.Prelude.Maps.{insert, lookup}
use sophon_miner.SlashFilter.{SlashFilterApi}
use sophon_miner.SlashFilter.Local.{Key, key_eq, local}
use sophon_miner.Tests.SlashFilter.{codec}
use sophon_miner.Types.{Address, Bytes}

abbrev pub MemStore : Type 0
MemStore = List (Key × Bytes)

abbrev pub filter : SlashFilterApi MemStore
filter = local codec memory

abbrev pub wallet : Wallet
wallet = record {
  sign = λ signer accounts msg kind. ok (record { sig_type = bls; content = 9 ∷ [] });
  marshal_address = λ a. ok (a ∷ []);
  marshal_params = λ ps. ok ps.entropy;
  compute_win_count = λ vrf power network. pos 2;
}

abbrev pub entry : BeaconEntry
entry = record { round = 4; content = 3 ∷ [] }

abbrev pub info : MiningBaseInfo
info = record {
  miner_power = 1;
  network_power = 2;
  worker_key = 1100;
  prev_beacon_entry = entry;
  beacon_entries = [];
  eligible_for_mining = true;
}

-- 32 zeros in place of a hash, and the numbers of the domains.
abbrev zeros : Bytes
zeros =
    0 ∷ 0 ∷ 0 ∷ 0 ∷ 0 ∷ 0 ∷ 0 ∷ 0 ∷ 0 ∷ 0 ∷ 0 ∷ 0 ∷ 0 ∷ 0 ∷ 0 ∷ 0 ∷ 0 ∷ 0 ∷ 0 ∷ 0 ∷ 0 ∷ 0 ∷ 0 ∷ 0
    ∷ 0 ∷ 0 ∷ 0 ∷ 0 ∷ 0 ∷ 0 ∷ 0 ∷ 0 ∷ []

abbrev tag_of : Domain → ℤ
tag_of ticket_production = pos 1
tag_of election_proof_production = pos 2
tag_of winning_post_challenge_seed = pos 3

pub tag_of-Fits : (d : Domain) → FitsInt64 (tag_of d)
tag_of-Fits ticket_production = omega arith
tag_of-Fits election_proof_production = omega arith
tag_of-Fits winning_post_challenge_seed = omega arith

pub tag_of-injective : (d e : Domain) → tag_of d ≡ tag_of e → d ≡ e
tag_of-injective d e h = ground arith

abbrev pub no_hash : Blake2b
no_hash = record {
  sum256 = λ b. zeros;
  tag = tag_of;
  length-sum256 = λ b. refl;
  tag-Fits = tag_of-Fits;
  tag-injective = tag_of-injective;
}

abbrev pub node : NodeApi
node = record {
  miner_get_base_info = λ a h key. ok (some info);
  state_network_version = λ key. ok 20;
  blake2b = no_hash;
  compute_proof = λ a mbi rand h nv. ok ((1 ∷ []) ∷ []);
  upgrade_smoke_height = pos 0;
}

abbrev pub base_4 : MiningBase
base_4 = record {
  tipset = record { key = 7 ∷ []; height = pos 4; min_timestamp = 120; min_ticket = [] };
  null_rounds = pos 0;
}

abbrev pub proof : ElectionProof
proof = record { win_count = pos 2; vrf_proof = 9 ∷ [] }

wins : is_round_winner wallet (pos 5) "account" 1000 entry info ≡ ok (some proof)
unfolding is_round_winner compute_vrf
wins = refl

abbrev attempt : WinPoStRes × MemStore
attempt = mine_one filter wallet node none base_4 (some "account") 1000 []

no_failure : attempt.0.failed ≡ none
unfolding mine_one draw_randomness is_round_winner compute_vrf compute_ticket
no_failure = refl

is_won : attempt.0.winner ≡ some proof
unfolding mine_one draw_randomness is_round_winner compute_vrf compute_ticket
is_won = refl

mine_one_complete_example :
    (is_some attempt.0.waddr ≡ true)
    × (is_some attempt.0.ticket ≡ true)
    × (is_some attempt.0.post_proof ≡ true)
    × (pos 1 ≤ℤ pos 2)
mine_one_complete_example =
    mine_one_complete filter wallet node none base_4 (some "account") 1000 [] proof no_failure
      is_won

abbrev pub print : MineError → String
print e = "failed"

abbrev attempts : List (Address × Attempt)
attempts = (1000, sent attempt.0) ∷ (1001, timed_out) ∷ []

abbrev at_first : Attempts MemStore
at_first = record { winners = []; filter = [] }

no_logs : (m : Address) → length (errors_of m []) ≤ 21
unfolding lookup
no_logs m = ground arith

-- The result that won is among the winners of the round.
keeps_winner : length (collect_all filter base_4 print attempts at_first []).0.winners ≡ 1
unfolding collect_all collect mine_one draw_randomness is_round_winner compute_vrf compute_ticket
    lookup insert
keeps_winner = refl
