-- ===== src/Tests/Api.antt =====
-- Two miners behind the API; the caller is permitted for the first.
use sophon_miner.Api.Mining
use sophon_miner.Miner.Manage
use sophon_miner.Miner.Winners
use sophon_miner.Api.{
  count_winners, filter, list_address, list_blocks, start, states_for_mining, stop,
}
use sophon_miner.Api.Laws.{
  IsPermitted, answers_unfiltered, count_winners-IsPermitted, count_winners_unfiltered,
  list_address-IsPermitted, start_stop-Untouched, states_for_mining-IsPermitted,
}
use sophon_miner.Api.Mining.{Service, Wiring, filter_failed, miner}
use sophon_miner.Datastore.Memory.{memory}
use sophon_miner.Journal.Alerting.{alert_type_eq}
use sophon_miner.Journal.Rolling.{journal_file_eq}
use sophon_miner.Miner.Manage.{Manager, MinerWpp, state_of}
use sophon_miner.Miner.Manage.Laws.{Consistent}
use sophon_miner.Miner.Manage.Others.{Untouched}
use sophon_miner.Miner.Winners.Asked.{AllMiners}
use sophon_miner.MinerManager.{open_mining}
use sophon_miner.Node.Options.{module_key_eq}
use sophon_miner.Prelude.{
  All, Result, [], arith, err, false, if◌then◌else◌, inl, list_eq, map, nat_beq_iff, nat_eq, none,
  ok, refl, string_eq, true, wrap_err, ℕ, ◌==◌, ◌∷◌, ◌≡◌,
}
use sophon_miner.Prelude.Int.{int_eq, pos, ◌+ℤ◌, ◌-ℤ◌}
use sophon_miner.Prelude.Maps.{insert, lookup}
use sophon_miner.Recorder.{default_limits}
use sophon_miner.SlashFilter.Local.{key_eq, local}
use sophon_miner.Tests.Attempts.{wallet}
use sophon_miner.Tests.Lifecycle.{one_sector}
use sophon_miner.Tests.Participants.{auth, info}
use sophon_miner.Tests.Printer.{printer}
use sophon_miner.Tests.Records.{MemRecords, record_key_eq, records}
use sophon_miner.Tests.SlashFilter.{MemStore, codec, empty}
use sophon_miner.Tests.Winners.{chain, print}
use sophon_miner.Types.{Address, CountWinners, MinerInfo, MinerState, state_eq}

abbrev other_info : MinerInfo
other_info = record { addr = 1001; id = "v"; name = "b"; open_mining = true }

abbrev two_miners : Manager
two_miners = record { miners = (1000, info) ∷ (1001, other_info) ∷ []; wpps = [] }

two_miners-Consistent : Consistent two_miners
unfolding lookup
two_miners-Consistent = record {
  keyed = λ a i h. ground (arith, nat_beq_iff 1000 a, nat_beq_iff 1001 a);
  mines_open = λ a h. ground arith;
}

abbrev service : Service MemStore MemRecords
service = record { manager = two_miners; filter = empty; recorder = none }

abbrev wiring : Wiring MemStore MemRecords
wiring = record {
  auth = auth;
  new_prover = λ a. true;
  chain = chain;
  wallet = wallet;
  print = print;
  order = λ a epochs. epochs;
  warmup = one_sector;
  slash_filter = local codec memory;
  store = records;
  printer = printer;
  limits = default_limits;
}

abbrev for_first : Address → Result ℕ (Unit {0})
for_first a = if a == 1000 then ok tt else err 403

start_stop-Untouched_example :
    Untouched 1001 two_miners (start (miner wiring) for_first service (1000 ∷ 1001 ∷ [])).1.manager
    × Untouched 1001 two_miners (stop (miner wiring) for_first service (1000 ∷ 1001 ∷ [])).1.manager
start_stop-Untouched_example =
    start_stop-Untouched wiring for_first service (1000 ∷ 1001 ∷ []) 1001 two_miners-Consistent refl

started_first :
    (start (miner wiring) for_first service (1000 ∷ 1001 ∷ [])).1.manager.wpps
    ≡ (1000, record { account = "a"; errors = [] }) ∷ []
unfolding start Mining.manual_start Manage.manual_start filter lookup insert open_mining
started_first = refl

abbrev first_state : MinerState
first_state = record { addr = 1000; is_mining = false; err = [] }

abbrev miner_absent : CountWinners
miner_absent = record {
  miner = 1000;
  total_win_count = pos 0;
  msg = "miner not exist";
  win_epoch_list = [];
}

listed_first : list_address (miner wiring) for_first service ≡ ok (info ∷ [])
unfolding list_address filter Manage.list_address
listed_first = refl

first_told :
    states_for_mining (miner wiring) for_first service (1000 ∷ 1001 ∷ []) ≡ ok (first_state ∷ [])
unfolding states_for_mining filter Manage.states_for_mining state_of lookup
first_told = refl

first_counted :
    count_winners (miner wiring) for_first service (1000 ∷ 1001 ∷ []) (pos 3) (pos 4)
    ≡ ok (miner_absent ∷ [])
unfolding count_winners filter Mining.count_winners Winners.count_winners lookup
first_counted = refl

list_address-IsPermitted_example :
    All (λ (i : MinerInfo). IsPermitted wiring for_first i.addr) (info ∷ [])
list_address-IsPermitted_example =
    list_address-IsPermitted wiring for_first service (info ∷ []) listed_first

states_for_mining-IsPermitted_example :
    All (λ (r : MinerState). IsPermitted wiring for_first r.addr) (first_state ∷ [])
states_for_mining-IsPermitted_example =
    states_for_mining-IsPermitted wiring for_first service (1000 ∷ 1001 ∷ []) (first_state ∷ [])
      (inl refl) first_told

count_winners-IsPermitted_example : AllMiners (IsPermitted wiring for_first) (miner_absent ∷ [])
count_winners-IsPermitted_example =
    count_winners-IsPermitted wiring for_first service (1000 ∷ 1001 ∷ []) (pos 3) (pos 4)
      (miner_absent ∷ []) (inl refl) first_counted

answers_unfiltered_example :
    (states_for_mining (miner wiring) for_first service (1001 ∷ [])
      ≡ ok (map (λ (e : Address × MinerInfo). state_of two_miners e.1.addr) two_miners.miners))
    × (list_blocks
          (miner wiring)
          for_first
          service
          (record { miners = 1001 ∷ []; limit = pos 10; offset = pos 0 })
        ≡ wrap_err filter_failed (
            wiring.slash_filter.list_block empty
              (record { miners = []; limit = pos 10; offset = pos 0 })))
answers_unfiltered_example =
    answers_unfiltered wiring for_first service (1001 ∷ []) (pos 10) (pos 0) (refl, tt)

abbrev mining_first : Service MemStore MemRecords
mining_first = record service {
  manager = record two_miners { wpps = (1000, record { account = "a"; errors = [] }) ∷ [] };
}

-- The epochs from 4 to 3 are none, so that nothing is asked of the chain.
abbrev first_none : CountWinners
first_none = record { miner = 1000; total_win_count = pos 0; msg = ""; win_epoch_list = [] }

all_counted :
    count_winners (miner wiring) for_first mining_first (1001 ∷ []) (pos 4) (pos 3)
    ≡ ok (first_none ∷ [])
unfolding count_winners filter Mining.count_winners Winners.count_winners Winners.count_miner
    Winners.epochs_of ◌+ℤ◌ ◌-ℤ◌
all_counted = refl

count_winners_unfiltered_example :
    map (λ (c : CountWinners). c.miner) (first_none ∷ [])
    ≡ map (λ (e : Address × MinerWpp). e.0) mining_first.manager.wpps
count_winners_unfiltered_example =
    count_winners_unfiltered wiring for_first mining_first (1001 ∷ []) (pos 4) (pos 3)
      (first_none ∷ []) (refl, tt) all_counted
