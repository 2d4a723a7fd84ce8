-- ===== src/Miner/Broadcast.antt =====
-- miner/multiminer.go, `broadCastBlock`: a block passes the slash filter, is submitted, and is
-- recorded. The answers of the submissions are arguments: true for a call that returned no error.
pub mod Safety
pub mod Interleaved
pub mod Schedules
pub mod Agreement
pub mod Pools
use sophon_miner.Miner.{MiningBase, parent_height}
use sophon_miner.Prelude.{
  Bool, List, Result, [], err, false, if◌then◌else◌, none, ok, true, ◌||◌, ◌∷◌,
}
use sophon_miner.SlashFilter.{FilterError, SlashFilterApi}
use sophon_miner.Types.{BlockHeader, error, success}

pub record SubmitAnswers : Type 0 where
  pub own_node : Bool
  pub submit_nodes : List Bool

-- The loop over the submit nodes, which breaks at the first success.
unfoldable pub submit_any : List Bool → Bool
submit_any [] = false
submit_any (is_done ∷ rest) = if is_done then true else submit_any rest

pub data Outcome : Type 0 where
  filter_failed : FilterError → Outcome
  already_mined : Outcome
  refused : FilterError → Outcome
  not_submitted : Outcome
  submitted : Outcome

abbrev pub is_submitted : Outcome → Bool
is_submitted submitted = true
is_submitted _ = false

module _ {S : Type 0} (sf : SlashFilterApi S) where
  -- The block is out: it is recorded, and a failure to record it is logged.
  unfoldable pub record_submitted : MiningBase → BlockHeader → S → Outcome × S
  record_submitted base bh s = (submitted, (sf.put_block s bh (parent_height base) none success).1)

  unfoldable pub submit : MiningBase → BlockHeader → SubmitAnswers → S → Outcome × S
  unfolding record_submitted
  submit base bh answers s =
      if answers.own_node || submit_any answers.submit_nodes
      then record_submitted base bh s
      else (not_submitted, (sf.put_block s bh (parent_height base) none error).1)

  unfoldable pub check_mined :
      MiningBase → BlockHeader → SubmitAnswers → S → Result FilterError (Unit {0}) → Outcome × S
  unfolding submit
  check_mined base bh answers s (err e) =
      (refused e, (sf.put_block s bh base.tipset.height none error).1)
  check_mined base bh answers s (ok _) = submit base bh answers s

  unfoldable pub check_exists :
      MiningBase → BlockHeader → SubmitAnswers → S → Result FilterError Bool → Outcome × S
  unfolding check_mined
  check_exists base bh answers s (err e) = (filter_failed e, s)
  check_exists base bh answers s (ok true) = (already_mined, s)
  check_exists base bh answers s (ok false) =
      check_mined base bh answers s (sf.mined_block s bh base.tipset.height)

  unfoldable pub broadcast : MiningBase → BlockHeader → SubmitAnswers → S → Outcome × S
  unfolding check_exists
  broadcast base bh answers s = check_exists base bh answers s (sf.has_block s bh)

  -- One block after another: the headers that were submitted, in order, and the state.
  unfoldable pub broadcast_all :
      List (MiningBase × BlockHeader × SubmitAnswers) → S → List BlockHeader × S
  broadcast_all [] s = ([], s)
  broadcast_all ((base, bh, answers) ∷ rest) s =
      let (outcome, s') = broadcast base bh answers s in
      let (out, s'') = broadcast_all rest s' in
      (if is_submitted outcome then bh ∷ out else out, s'')
