-- ===== src/Api.antt =====
-- node/impl/miner.go: the API of the node, which asks sophon-auth whether the caller may see or
-- change a miner and passes the call on to the miner. Mining is that miner, put together from the
-- modules of its parts.
-- `jwtclient.CheckPermissionByMiner` is a parameter: the answers of one request.
pub mod Mining
pub mod Laws
use sophon_miner.Prelude.{
  Bool, List, Result, [], err, false, if◌then◌else◌, ok, true, wrap_err, ℕ, ◌>>=◌, ◌>>◌, ◌∷◌,
}
use sophon_miner.Prelude.Int.{ℤ}
use sophon_miner.Recorder.{Records}
use sophon_miner.Types.{
  Address, BlocksQueryParams, ChainEpoch, CountWinners, MinedBlock, MinerInfo, MinerState,
  QueryRecordParams, mining,
}

-- miner.MiningAPI
pub record MiningApi (M E : Type 0) : Type 0 where
  pub manual_start : M → List Address → Result E (Unit {0}) × M
  pub manual_stop : M → List Address → Result E (Unit {0}) × M
  pub update_address : M → ℤ → ℤ → Result E (List MinerInfo) × M
  pub list_address : M → Result E (List MinerInfo)
  pub states_for_mining : M → List Address → Result E (List MinerState)
  pub count_winners : M → List Address → ChainEpoch → ChainEpoch → Result E (List CountWinners)
  pub list_blocks : M → BlocksQueryParams → Result E (List MinedBlock)
  pub warmup_for_miner : M → Address → Result E (Unit {0})
  pub query_record : M → QueryRecordParams → Result E (List Records)

pub data ApiError (E : Type 0) : Type 0 where
  denied : ℕ → ApiError E
  mining_failed : E → ApiError E

abbrev is_ok : {E A : Type 0} → Result E A → Bool
is_ok (ok _) = true
is_ok (err _) = false

-- The elements that pass, appended one after another.
unfoldable pub filter : {A : Type 0} → (A → Bool) → List A → List A
filter pass [] = []
filter pass (x ∷ xs) = if pass x then x ∷ filter pass xs else filter pass xs

module _ {M E : Type 0} (mining : MiningApi M E)
    (check_permission : Address → Result ℕ (Unit {0})) where
  -- jwtclient.CheckPermissionByMiner(ctx, m.AuthClient, addr) == nil
  abbrev pub is_permitted : Address → Bool
  is_permitted a = is_ok (check_permission a)

  pub update_address : M → ℤ → ℤ → Result E (List MinerInfo) × M
  update_address m skip limit = mining.update_address m skip limit

  unfoldable pub list_address : M → Result E (List MinerInfo)
  list_address m = do
    infos ← mining.list_address m
    ok (filter (λ info. is_permitted info.addr) infos)

  unfoldable pub states_for_mining : M → List Address → Result E (List MinerState)
  states_for_mining m addrs = mining.states_for_mining m (filter is_permitted addrs)

  unfoldable pub count_winners :
      M → List Address → ChainEpoch → ChainEpoch → Result E (List CountWinners)
  count_winners m addrs from to = mining.count_winners m (filter is_permitted addrs) from to

  unfoldable pub list_blocks : M → BlocksQueryParams → Result E (List MinedBlock)
  list_blocks m params =
      mining.list_blocks m (record params { miners = filter is_permitted params.miners })

  unfoldable pub warmup_for_miner : M → Address → Result (ApiError E) (Unit {0})
  warmup_for_miner m a = do
    _ ← wrap_err denied (check_permission a)
    wrap_err mining_failed (mining.warmup_for_miner m a)

  unfoldable pub start : M → List Address → Result E (Unit {0}) × M
  start m addrs = mining.manual_start m (filter is_permitted addrs)

  unfoldable pub stop : M → List Address → Result E (Unit {0}) × M
  stop m addrs = mining.manual_stop m (filter is_permitted addrs)

  unfoldable pub query_record : M → QueryRecordParams → Result (ApiError E) (List Records)
  query_record m params = do
    _ ← wrap_err denied (check_permission params.miner)
    wrap_err mining_failed (mining.query_record m params)
