-- ===== src/Miner/Candidate.antt =====
-- miner/multiminer.go, `GetBestMiningCandidate` and `getLatestBase`: the choice of the base.
-- `m.lastWork` is the shared cell: the base that is returned is that cell, so what the mining loop
-- does to the base is done to the cell.
pub mod Laws
use sophon_miner.Miner.{MiningBase, TipSet}
use sophon_miner.Prelude.{
  Bool, List, Option, [], false, if◌then◌else◌, none, some, ℕ, ◌&&◌, ◌==◌, ◌∷◌,
}
use sophon_miner.Prelude.Int.{int_eq, pos}

pub data BaseError : Type 0 where
  chain_head_failed : BaseError
  beacon_failed : BaseError

-- The answers of one turn of the loop: the head of the chain, whether the wait succeeded, and
-- whether the beacon entry was there.
pub record Turn : Type 0 where
  pub head : Option TipSet
  pub waited : Bool
  pub beacon : Bool

-- What a loop that is given these turns does: it returns a base, it fails (and is to be tried again
-- after some seconds), or it is still waiting when the turns are over.
pub data Latest : Type 0 where
  chosen : MiningBase → Latest
  failed : ℕ → BaseError → Latest
  waiting : Latest

-- The base is unchanged since the turn before.
unfoldable pub is_stable : Option MiningBase → MiningBase → Bool
is_stable none prebase = false
is_stable (some base) prebase =
    base.tipset.height == prebase.tipset.height && base.null_rounds == prebase.null_rounds

-- A turn, up to the next: it ends the loop, or goes on with the base.
pub data Next : Type 0 where
  stop : Latest → Next
  go_on : Option MiningBase → Next

-- After the wait: a wait that failed leaves the base as it was.
wait_turn : Turn → Option MiningBase → MiningBase → Next
wait_turn turn base prebase =
    if turn.waited
    then (if turn.beacon then go_on (some prebase) else stop (failed 1 beacon_failed))
    else go_on base

-- tipset.Equals of the chain library is the argument `same`.
module _ (same : TipSet → TipSet → Bool) where
  -- The cell after the head of the chain was read.
  unfoldable pub candidate : Option MiningBase → TipSet → MiningBase
  candidate none head = record { tipset = head; null_rounds = pos 0 }
  candidate (some last_work) head =
      if same last_work.tipset head
      then last_work
      else record { tipset = head; null_rounds = pos 0 }

  read_head :
      Turn → Option MiningBase → Option MiningBase → Option TipSet → Next × Option MiningBase
  unfolding wait_turn
  read_head turn last_work base none = (stop (failed 5 chain_head_failed), last_work)
  read_head turn last_work base (some head) =
      let prebase = candidate last_work head in
      (
        if is_stable base prebase then stop (chosen prebase) else wait_turn turn base prebase,
        some prebase,
      )

  -- The loop: `base` is the candidate of the last turn that waited to its end. `overlapCount` only
  -- decides what is logged, and the wait of `NewMiner` injects no null rounds.
  unfoldable pub latest_base :
      List Turn → Option MiningBase → Option MiningBase → Latest × Option MiningBase
  unfolding read_head
  latest_base [] last_work base = (waiting, last_work)
  latest_base (turn ∷ turns) last_work base =
      let (next, last_work') = read_head turn last_work base turn.head in
      elim next [ stop l ↦ (l, last_work') | go_on base' ↦ latest_base turns last_work' base' ]
