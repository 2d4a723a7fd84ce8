-- ===== src/Miner/Sync.antt =====
-- miner/multiminer.go, `SyncStatus`: one tick, which asks the node until it has a sync at work.
pub mod Laws
use sophon_miner.Miner.{TipSet}
use sophon_miner.Miner.Winner.{MineError}
use sophon_miner.Prelude.{
  Bool, List, Option, Result, [], err, false, get_elem?, if◌then◌else◌, length, none, ok, some, suc,
  true, ℕ, ◌-◌, ◌∷◌,
}
use sophon_miner.Prelude.Int.{int64, ltb_ℤ, negsuc, pos, ℤ, ◌-ℤ◌}
use sophon_miner.Types.{ChainEpoch}

pub data Stage : Type 0 where
  stage_idle stage_sync_complete : Stage
  stage_at_work : ℕ → Stage

-- A sync, with the height of its target if it has one.
pub record ActiveSync : Type 0 where
  pub stage : Stage
  pub target : Option ChainEpoch

pub record SyncStatus : Type 0 where
  pub height_diff : ℤ
  pub failed : Option MineError

-- What the node and the clock answer in one turn of the inner loop; the time is in seconds.
pub record SyncTurn : Type 0 where
  pub state : Result MineError (List ActiveSync)
  pub head : Result MineError TipSet
  pub unix : ℤ

pub data Checked : Type 0 where
  status : SyncStatus → Checked
  -- The answers are over while the node has no sync.
  asking : Checked
  -- An index out of range ends the program.
  out_of_range : Checked

is_at_work : Stage → Bool
is_at_work (stage_at_work n) = true
is_at_work _ = false

-- The last sync that is neither idle nor complete, from an index on: -1 in the source is `none`.
unfoldable pub last_working : ℕ → List ActiveSync → Option ℕ → Option ℕ
unfolding is_at_work
last_working i [] found = found
last_working i (ss ∷ syncs) found =
    last_working (suc i) syncs (if is_at_work ss.stage then some i else found)

or_last : Option ℕ → List ActiveSync → ℕ
or_last none syncs = length syncs - 1
or_last (some i) syncs = i

unfoldable pub working : List ActiveSync → ℕ
unfolding or_last
working syncs = or_last (last_working 0 syncs none) syncs

diff_to : Option ChainEpoch → ChainEpoch → ℤ
diff_to none height = negsuc 0
diff_to (some target) height = int64 (target -ℤ height)

module _ (block_delay : ℕ) where
  height_diff_of : ActiveSync → TipSet → ℤ → ℤ
  unfolding diff_to
  height_diff_of ss head unix =
      if ltb_ℤ (int64 (unix -ℤ int64 (pos head.min_timestamp))) (int64 (pos block_delay))
      then pos 0
      else diff_to ss.target head.height

  status_at : Option ActiveSync → TipSet → ℤ → Checked
  unfolding height_diff_of
  status_at none head unix = out_of_range
  status_at (some ss) head unix =
      status (record { height_diff = height_diff_of ss head unix; failed = none })

  with_head : List ActiveSync → Result MineError TipSet → ℤ → Checked
  unfolding status_at
  with_head syncs (err e) unix = status (record { height_diff = negsuc 0; failed = some e })
  with_head syncs (ok head) unix = status_at (get_elem? syncs (working syncs)) head unix

  answered : Result MineError (List ActiveSync) → Result MineError TipSet → ℤ → Checked → Checked
  unfolding with_head
  answered (err e) head unix later = status (record { height_diff = negsuc 0; failed = some e })
  answered (ok []) head unix later = later
  answered (ok (ss ∷ syncs)) head unix later = with_head (ss ∷ syncs) head unix

  -- One tick: a node without a sync is asked again after a second.
  unfoldable pub check_sync : List SyncTurn → Checked
  unfolding answered
  check_sync [] = asking
  check_sync (t ∷ turns) = let later = check_sync turns in answered t.state t.head t.unix later
