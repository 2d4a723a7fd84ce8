-- ===== src/F3/Multi.antt =====
-- f3participant/multiparticipation.go: one participant for each open miner.
-- A participant is its address and whether it is running. `Start` of a participant that is not there
-- dereferences a nil pointer, which ends the program: `panicked`. Go ranges over a map in any order: the
-- order is that of the list.
pub mod Laws
pub mod Ticks
use sophon_miner.Config.{ApiInfo}
use sophon_miner.MinerManager.{ManagerError, Miners, is_open_mining}
use sophon_miner.Prelude.{
  Bool, List, Option, Result, [], err, if◌then◌else◌, is_some, list_eq, map, nat_eq, none, ok, some,
  string_eq, ℕ, ◌==◌, ◌>>=◌, ◌||◌, ◌∷◌,
}
use sophon_miner.Prelude.Int.{int_eq}
use sophon_miner.Prelude.Maps.{delete, insert, lookup}
use sophon_miner.Recorder.Queried.{answer}
use sophon_miner.Types.{Address, MinerInfo, state_eq}

pub data Running : Type 0 where
  created started : Running

abbrev pub Participants : Type 0
Participants = List (Address × Running)

pub data Added : Type 0 where
  returned : Participants → Added
  panicked : Participants → Added

-- `NewMultiParticipant`: a participant for each open miner of the manager's list.
unfoldable pub new_multi_participant : Miners → List (Address × MinerInfo) → Participants
new_multi_participant miners [] = []
new_multi_participant miners ((a, info) ∷ rest) =
    let others = new_multi_participant miners rest in
    if is_open_mining miners info.addr then insert info.addr created others else others

-- The manager's list may fail.
pub new_from_list :
    Miners → Result ManagerError (List (Address × MinerInfo)) → Result ManagerError Participants
new_from_list miners (err e) = err e
new_from_list miners (ok listed) = ok (new_multi_participant miners listed)

-- node/modules/miner.go, `NewMultiParticipant`: none where there is no node for F3 or it is disabled.
pub provided_multi_participant :
    Option ApiInfo
    → Bool
    → Result ManagerError (Unit {0})
    → Miners
    → Result ManagerError (List (Address × MinerInfo))
    → Result ManagerError (Option Participants)
provided_multi_participant none disabled dialled miners answer = ok none
provided_multi_participant (some node) disabled dialled miners answer =
    if node.addr == "" || disabled
    then ok none
    else (dialled >>= λ u. new_from_list miners answer >>= λ ps. ok (some ps))

-- `Start` of each participant; a participant's own `Start` returns no error.
unfoldable pub start_all : Participants → Participants
start_all ps = map (λ (e : Address × Running). (e.0, started)) ps

-- `p.Start(ctx)` at the value that the map gave, nil where the key is missing.
start_found : Option Running → Participants → Added
start_found none ps = panicked ps
start_found (some _) ps = returned ps

-- `addParticipant`: the new participant is put in the map, and the one that was looked up before is
-- started.
add_absent : Address → Option Running → Participants → Added
unfolding start_found
add_absent a (some p) ps = returned ps
add_absent a none ps = start_found none (insert a created ps)

unfoldable pub add_participant : Address → Participants → Added
unfolding add_absent
add_participant a ps = add_absent a (lookup a ps) ps

-- `removeParticipant`: its `Stop` cancels it and waits, outside the map.
unfoldable pub remove_participant : Address → Participants → Participants
remove_participant a ps = elim (lookup a ps) [ none ↦ ps | some _ ↦ delete a ps ]

-- What one miner of the list gets in a tick of `MonitorMiner`.
unfoldable pub monitor_one : Miners → Address → Participants → Added
unfolding add_participant remove_participant
monitor_one miners a ps =
    if is_open_mining miners a
    then (if is_some (lookup a ps) then returned ps else add_participant a ps)
    else returned (remove_participant a ps)

-- One tick over the entries of the manager's list; a panic ends it.
unfoldable pub monitor : Miners → List (Address × MinerInfo) → Participants → Added
unfolding monitor_one
monitor miners [] ps = returned ps
monitor miners ((a, info) ∷ rest) ps = elim (monitor_one miners info.addr ps) [
  | returned ps' ↦ monitor miners rest ps'
  | panicked ps' ↦ panicked ps'
]

-- `Stop`: the participants whose own `Stop` was called, which cancels and waits, up to an error.
unfoldable pub stop_all :
    (Address → Result ℕ (Unit {0})) → List Address → Result (Address × ℕ) (Unit {0}) × List Address
stop_all stop [] = (ok tt, [])
stop_all stop (a ∷ rest) =
    let (r, called) = stop_all stop rest in
    elim (stop a) [ ok u ↦ (r, a ∷ called) | err e ↦ (err (a, e), a ∷ []) ]

-- `MonitorMiner`: what the manager answers at each tick, or the end of the context.
pub data Tick : Type 0 where
  context_ended : Tick
  ticked : Miners → Result ManagerError (List (Address × MinerInfo)) → Tick

unfoldable pub monitor_miner : List Tick → Participants → Added
monitor_miner [] ps = returned ps
monitor_miner (context_ended ∷ ticks) ps = returned ps
monitor_miner (ticked miners (err e) ∷ ticks) ps = monitor_miner ticks ps
monitor_miner (ticked miners (ok listed) ∷ ticks) ps = elim (monitor miners listed ps) [
  | returned ps' ↦ monitor_miner ticks ps'
  | panicked ps' ↦ panicked ps'
]
