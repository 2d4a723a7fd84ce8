-- ===== src/Miner/Manage.antt =====
-- miner/miningmgr.go: the set of miners that mine, `minerWPPMap`, and the operations that change it.
-- `new_prover` tells whether NewWinningPoStProver succeeds for an address.
pub mod Asked
pub mod Laws
pub mod Others
use sophon_miner.MinerManager.{
  AuthClient, ManagerError, Miners, close_mining, is_open_mining, open_mining, update,
}
use sophon_miner.Prelude.{
  Bool, List, Option, Result, String, [], err, false, if◌then◌else◌, map, nat_eq, none, ok, some,
  true, ◌&&◌, ◌∷◌,
}
use sophon_miner.Prelude.Int.{ℤ}
use sophon_miner.Prelude.Maps.{delete, insert, lookup}
use sophon_miner.Types.{Address, MinerInfo, MinerState}

pub record MinerWpp : Type 0 where
  pub account : String
  pub errors : List String

pub record Manager : Type 0 where
  pub miners : Miners
  pub wpps : List (Address × MinerWpp)

abbrev new_wpp : MinerInfo → MinerWpp
new_wpp info = record { account = info.name; errors = [] }

pub stop_closed :
    Address → List (Address × MinerWpp) → Result ManagerError (Unit {0}) × Miners → Manager
stop_closed addr wpps (err e, miners) = record { miners = miners; wpps = wpps }
stop_closed addr wpps (ok _, miners) = record { miners = miners; wpps = delete addr wpps }

module _ (new_prover : Address → Bool) where
  -- One turn of `ManualStart`; an error is logged, and the loop goes on.
  pub start_opened : List (Address × MinerWpp) → Result ManagerError MinerInfo × Miners → Manager
  start_opened wpps (err e, miners) = record { miners = miners; wpps = wpps }
  start_opened wpps (ok info, miners) = record {
    miners = miners;
    wpps = (if new_prover info.addr then insert info.addr (new_wpp info) wpps else wpps);
  }

  -- The loop of `UpdateAddress` and of `Start` over the entries of the manager's map, in an order
  -- that Go does not specify.
  add_provers :
      Miners → List (Address × MinerInfo) → List (Address × MinerWpp) → List (Address × MinerWpp)
  add_provers miners [] wpps = wpps
  add_provers miners ((a, info) ∷ rest) wpps = add_provers miners rest (
      if is_open_mining miners info.addr && new_prover info.addr
      then insert info.addr (new_wpp info) wpps
      else wpps)

  -- The entries that were put in the new set, in the same order.
  started_infos : Miners → List (Address × MinerInfo) → List MinerInfo
  started_infos miners [] = []
  started_infos miners ((a, info) ∷ rest) =
      if is_open_mining miners info.addr && new_prover info.addr
      then info ∷ started_infos miners rest
      else started_infos miners rest

  replace_wpps :
      Manager → Result ManagerError Miners × Miners → Result ManagerError (List MinerInfo) × Manager
  unfolding add_provers
  replace_wpps m (err e, miners) = (err e, record m { miners = miners })
  replace_wpps m (ok listed_miners, miners) = (
    ok (started_infos miners listed_miners),
    record { miners = miners; wpps = add_provers miners listed_miners [] },
  )

module _ (auth : AuthClient) (new_prover : Address → Bool) where
  unfoldable pub manual_start : List Address → Manager → Manager
  unfolding start_opened
  manual_start [] m = m
  manual_start (addr ∷ addrs) m =
      manual_start addrs (start_opened new_prover m.wpps (open_mining auth m.miners addr))

  unfoldable pub manual_stop : List Address → Manager → Manager
  unfolding stop_closed
  manual_stop [] m = m
  manual_stop (addr ∷ addrs) m =
      manual_stop addrs (stop_closed addr m.wpps (close_mining auth m.miners addr))

  unfoldable pub update_address : ℤ → ℤ → Manager → Result ManagerError (List MinerInfo) × Manager
  unfolding replace_wpps started_infos
  update_address skip limit m = replace_wpps new_prover m (update auth m.miners skip limit)

-- `Start` before its goroutines: it fails, `none`, when the miner is started already, and adds the open
-- miners of the manager to the set.
unfoldable pub start : (Address → Bool) → Bool → Manager → Option Manager
unfolding add_provers
start new_prover is_started m =
    if is_started
    then none
    else some (record m { wpps = add_provers new_prover m.miners m.miners m.wpps })

-- `ListAddress`
unfoldable pub list_address : Manager → List MinerInfo
list_address m = map (λ (e : Address × MinerInfo). e.1) m.miners

-- `StatesForMining` of one address.
unfoldable pub state_of : Manager → Address → MinerState
state_of m addr = elim (lookup addr m.wpps) [
  | none ↦ record { addr = addr; is_mining = false; err = [] }
  | some wpp ↦ record { addr = addr; is_mining = true; err = wpp.errors }
]

-- With no address given: the states of all the miners of the manager.
unfoldable pub states_for_mining : Manager → List Address → List MinerState
states_for_mining m [] = map (λ (e : Address × MinerInfo). state_of m e.1.addr) m.miners
states_for_mining m (a ∷ addrs) = map (state_of m) (a ∷ addrs)
