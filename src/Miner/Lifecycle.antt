-- ===== src/Miner/Lifecycle.antt =====
-- miner/multiminer.go: `Start`, `Stop` and the test for the stop at the head of the loop of `mine`, on
-- the two channels of the miner. A channel is nil, open or closed; closing one that is not open ends the
-- program, and a receive from a nil channel is never ready.
pub mod Laws
use sophon_miner.Prelude.{ℕ, ◌+◌, ◌-◌, ◌≡◌, ◌≤◌}

pub data Channel : Type 0 where
  nil_channel open_channel closed_channel : Channel

-- `m.stop` and `m.stopping`, and how many loops of `mine` run.
pub record Life : Type 0 where
  pub stop : Channel
  pub stopping : Channel
  pub loops : ℕ

pub data Called : Type 0 where
  done : Life → Called
  already_started : Called
  panics : Called

-- The miner that NewMiner makes.
abbrev pub new_life : Life
new_life = record { stop = nil_channel; stopping = nil_channel; loops = 0 }

-- `Start`, where the manager lists the miners.
start_on : Channel → Life → Called
start_on nil_channel l = done (record l { stop = open_channel; loops = l.loops + 1 })
start_on _ l = already_started

unfoldable pub start_mining : Life → Called
unfolding start_on
start_mining l = start_on l.stop l

-- `Stop` up to the wait for `m.stopping`.
stop_on : Channel → Life → Called
stop_on open_channel l = done (record l { stop = closed_channel; stopping = open_channel })
stop_on _ l = panics

unfoldable pub stop_mining : Life → Called
unfolding stop_on
stop_mining l = stop_on l.stop l

-- The head of the loop: with `m.stop` closed the loop clears both channels, closes `m.stopping` and
-- returns; else it goes on with its round.
close_stopping : Channel → Life → Called
close_stopping open_channel l =
    done (record { stop = nil_channel; stopping = nil_channel; loops = l.loops - 1 })
close_stopping _ l = panics

loop_on : Channel → Life → Called
unfolding close_stopping
loop_on closed_channel l = close_stopping l.stopping l
loop_on _ l = done l

unfoldable pub loop_head : Life → Called
unfolding loop_on
loop_head l = loop_on l.stop l

-- What can happen to the miner: a call, or a turn of one of its loops.
pub data Happens : Life → Life → Type 0 where
  starts : (l l' : Life) → start_mining l ≡ done l' → Happens l l'
  stops : (l l' : Life) → stop_mining l ≡ done l' → Happens l l'
  turns : (l l' : Life) → 1 ≤ l.loops → loop_head l ≡ done l' → Happens l l'

-- The states that a new miner can come to.
pub data Reached : Life → Type 0 where
  at_first : Reached new_life
  then_happens : {l l' : Life} → Reached l → Happens l l' → Reached l'
