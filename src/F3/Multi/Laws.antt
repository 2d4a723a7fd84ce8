-- ===== src/F3/Multi/Laws.antt =====
-- f3participant/multiparticipation.go: what a tick of the monitor does to the participants.
use sophon_miner.F3.Multi.{Participants, add_participant, created, monitor, panicked}
use sophon_miner.MinerManager.{Miners, is_open_mining}
use sophon_miner.Prelude.{List, arith, nat_eq, none, true, ◌∷◌, ◌≡◌}
use sophon_miner.Prelude.Maps.{insert, lookup}
use sophon_miner.Types.{Address, MinerInfo}

-- Adding a participant that is not there never returns: `addParticipant` starts the pointer that it
-- looked up before it made the participant, and that pointer is nil. The new participant is left in
-- the map, created and not started.
pub add_participant-panics :
    (a : Address) (ps : Participants)
    → lookup a ps ≡ none
    → add_participant a ps ≡ panicked (insert a created ps)
unfolding add_participant
add_participant-panics a ps absent = ground arith

-- A tick that comes to a miner that is open and has no participant ends in a panic there, whatever
-- the rest of the list.
pub monitor-panics :
    (miners : Miners) (a : Address) (info : MinerInfo) (rest : List (Address × MinerInfo))
    (ps : Participants)
    → is_open_mining miners info.addr ≡ true
    → lookup info.addr ps ≡ none
    → monitor miners ((a, info) ∷ rest) ps ≡ panicked (insert info.addr created ps)
unfolding monitor
monitor-panics miners a info rest ps on absent = ground arith
