-- ===== src/Api/Mining.antt =====
-- miner/api.go: the miner behind the interface MiningAPI, over the set of miners, the slash filter
-- and the recorder.
use sophon_miner.Miner.Manage
use sophon_miner.Miner.Warmup
use sophon_miner.Miner.Winners
use sophon_miner.Api.{MiningApi}
use sophon_miner.Miner.Manage.{Manager}
use sophon_miner.Miner.Warmup.{WarmupApi, WarmupError}
use sophon_miner.Miner.Winner.{Wallet}
use sophon_miner.Miner.Winners.{ChainApi, CountError, WinnersError}
use sophon_miner.MinerManager.{AuthClient, ManagerError}
use sophon_miner.Prelude.{Bool, List, Option, Result, String, ok, wrap_err, ◌>>=◌}
use sophon_miner.Prelude.Int.{ℤ}
use sophon_miner.Recorder.{Limits, Printer, Recorder, RecorderError, Records, inner_query}
use sophon_miner.Recorder.Store.{RecordStore}
use sophon_miner.SlashFilter.{FilterError, SlashFilterApi}
use sophon_miner.Types.{
  Address, BlocksQueryParams, ChainEpoch, CountWinners, MinedBlock, MinerInfo, QueryRecordParams,
}

pub data MiningError : Type 0 where
  manager_failed : ManagerError → MiningError
  winners_failed : WinnersError → MiningError
  filter_failed : FilterError → MiningError
  warmup_failed : WarmupError → MiningError
  recorder_failed : RecorderError → MiningError

-- The parts of `Miner` that the interface reaches.
pub record Service (S R : Type 0) : Type 0 where
  pub manager : Manager
  pub filter : S
  pub recorder : Option (Recorder R)

-- What the node of the miner is connected to.
pub record Wiring (S R : Type 0) : Type 0 where
  pub auth : AuthClient
  pub new_prover : Address → Bool
  pub chain : ChainApi
  pub wallet : Wallet
  pub print : CountError → String
  -- The order in which the goroutines of the epochs of a miner end.
  pub order : Address → List ChainEpoch → List ChainEpoch
  pub warmup : WarmupApi
  pub slash_filter : SlashFilterApi S
  pub store : RecordStore R
  pub printer : Printer
  pub limits : Limits

module _ {S R : Type 0} (w : Wiring S R) where
  abbrev manage : Service S R → (Manager → Manager) → Result MiningError (Unit {0}) × Service S R
  manage s f = (ok tt, record s { manager = f s.manager })

  -- The logged errors of one miner do not fail the call.
  unfoldable pub manual_start :
      Service S R → List Address → Result MiningError (Unit {0}) × Service S R
  manual_start s addrs = manage s (Manage.manual_start w.auth w.new_prover addrs)

  unfoldable pub manual_stop :
      Service S R → List Address → Result MiningError (Unit {0}) × Service S R
  manual_stop s addrs = manage s (Manage.manual_stop w.auth w.new_prover addrs)

  pub update_address : Service S R → ℤ → ℤ → Result MiningError (List MinerInfo) × Service S R
  update_address s skip limit =
      let (r, m) = Manage.update_address w.auth w.new_prover skip limit s.manager in
      (wrap_err manager_failed r, record s { manager = m })

  -- multiminer.go, `QueryRecord`
  unfoldable pub query_record : Service S R → QueryRecordParams → Result MiningError (List Records)
  query_record s params =
      wrap_err recorder_failed
        (inner_query w.printer w.store w.limits s.recorder params.miner params.epoch params.limit)

  -- miningmgr.go, `ListBlocks`
  unfoldable pub list_blocks :
      Service S R → BlocksQueryParams → Result MiningError (List MinedBlock)
  list_blocks s params = wrap_err filter_failed (w.slash_filter.list_block s.filter params)

  unfoldable pub count_winners :
      Service S R → List Address → ChainEpoch → ChainEpoch → Result MiningError (List CountWinners)
  count_winners s addrs from to =
      wrap_err winners_failed
        (Winners.count_winners w.wallet w.chain w.print w.order s.manager.wpps addrs from to)

  pub warmup_for_miner : Service S R → Address → Result MiningError (Unit {0})
  warmup_for_miner s a =
      wrap_err warmup_failed (Warmup.warmup_for_miner w.warmup s.manager a >>= λ _. ok tt)

  abbrev pub miner : MiningApi (Service S R) MiningError
  miner = record {
    manual_start = manual_start;
    manual_stop = manual_stop;
    update_address = update_address;
    list_address = λ s. ok (Manage.list_address s.manager);
    states_for_mining = λ s addrs. ok (Manage.states_for_mining s.manager addrs);
    count_winners = count_winners;
    list_blocks = list_blocks;
    warmup_for_miner = warmup_for_miner;
    query_record = query_record;
  }
