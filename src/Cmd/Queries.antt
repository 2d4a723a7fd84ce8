-- ===== src/Cmd/Queries.antt =====
-- cmd/record.go, cmd/winner.go and the rest of cmd/address.go: the commands that ask the API, without
-- what is printed. `none` is a command that shows its help.
use sophon_miner.Api.{
  ApiError, MiningApi, count_winners, list_address, query_record, update_address, warmup_for_miner,
}
use sophon_miner.Cmd.Addresses.{AddressError, call_failed, parse_addrs}
use sophon_miner.Prelude.{List, Option, Result, String, [], none, ok, some, wrap_err, ℕ, ◌>>=◌, ◌∷◌}
use sophon_miner.Prelude.Int.{int64, pos, ℤ}
use sophon_miner.Recorder.{Records}
use sophon_miner.Types.{Address, ChainEpoch, CountWinners, MinerInfo}

pub data QueryError (E : Type 0) : Type 0 where
  bad_address : ℕ → QueryError E
  bad_epoch : ℕ → QueryError E
  query_failed : E → QueryError E

module _ {M E : Type 0} (api : MiningApi M E) (check_permission : Address → Result ℕ (Unit {0}))
    (new_from_string : String → Result ℕ Address) (parse_uint : String → Result ℕ ℕ) where
  -- The 64-bit number that is parsed becomes a ChainEpoch.
  unfoldable pub query_cmd :
      List String → ℕ → M → Result (QueryError (ApiError E)) (Option (List Records))
  query_cmd (a ∷ e ∷ []) limit m = do
    addr ← wrap_err bad_address (new_from_string a)
    epoch ← wrap_err bad_epoch (parse_uint e)
    records ← wrap_err query_failed (
        query_record api check_permission m
          (record { miner = addr; epoch = int64 (pos epoch); limit = limit }))
    ok (some records)
  query_cmd _ limit m = ok none

  unfoldable pub count_cmd :
      List String → ChainEpoch → ChainEpoch → M → Result (AddressError E) (List CountWinners)
  count_cmd args epoch_start epoch_end m = do
    addrs ← parse_addrs new_from_string args
    wrap_err call_failed (count_winners api check_permission m addrs epoch_start epoch_end)

  unfoldable pub update_cmd : ℤ → ℤ → M → Result E (List MinerInfo) × M
  update_cmd skip limit m = update_address api check_permission m skip limit

  unfoldable pub list_cmd : M → Result E (List MinerInfo)
  list_cmd m = list_address api check_permission m

  -- An error of the warm-up is printed, and the command succeeds.
  unfoldable pub warmup_cmd :
      List String → M → Result (QueryError E) (Option (Result (ApiError E) (Unit {0})))
  warmup_cmd [] m = ok none
  warmup_cmd (a ∷ rest) m = do
    addr ← wrap_err bad_address (new_from_string a)
    ok (some (warmup_for_miner api check_permission m addr))
