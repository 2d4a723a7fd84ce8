-- ===== src/Miner/Broadcast/Interleaved.antt =====
-- miner/multiminer.go, `broadCastBlock`: `mine` starts a goroutine for each block, so that their calls
-- interleave. A step of a task is one call, of the slash filter or of the nodes.
use sophon_miner.Miner.{MiningBase, parent_height}
use sophon_miner.Miner.Broadcast.{
  Outcome, SubmitAnswers, already_mined, filter_failed, is_submitted, not_submitted, refused,
  submit_any, submitted,
}
use sophon_miner.Prelude.{
  Bool, List, Result, [], err, false, if◌then◌else◌, none, ok, suc, true, zero, ℕ, ◌||◌, ◌∷◌,
}
use sophon_miner.SlashFilter.{FilterError, SlashFilterApi}
use sophon_miner.Types.{BlockHeader, error, success}

-- How far a broadcast is: before HasBlock, before MinedBlock, before the record of a refusal, before the
-- submission, before the last record, or at its end.
pub data Progress : Type 0 where
  waiting_turn no_block allowed : Progress
  refusing : FilterError → Progress
  answered_by : Bool → Progress
  ended_with : Outcome → Progress

pub record Task : Type 0 where
  pub base : MiningBase
  pub header : BlockHeader
  pub answers : SubmitAnswers
  pub progress : Progress

pub data PoolEvent : Type 0 where
  spawns : MiningBase → BlockHeader → SubmitAnswers → PoolEvent
  steps : ℕ → PoolEvent

-- The headers of the tasks that have submitted their blocks.
abbrev pub is_out : Progress → Bool
is_out (ended_with outcome) = is_submitted outcome
is_out _ = false

unfoldable pub submitted_headers : List Task → List BlockHeader
submitted_headers [] = []
submitted_headers (t ∷ tasks) =
    if is_out t.progress then t.header ∷ submitted_headers tasks else submitted_headers tasks

module _ {S : Type 0} (sf : SlashFilterApi S) where
  unfoldable pub asked : Result FilterError Bool → Progress
  asked (err e) = ended_with (filter_failed e)
  asked (ok true) = ended_with already_mined
  asked (ok false) = no_block

  unfoldable pub judged : Result FilterError (Unit {0}) → Progress
  judged (err e) = refusing e
  judged (ok _) = allowed

  -- The next call of a task: where it is then, and the state of the filter.
  unfoldable pub next_call : MiningBase → BlockHeader → SubmitAnswers → S → Progress → Progress × S
  unfolding asked judged
  next_call base bh answers s waiting_turn = (asked (sf.has_block s bh), s)
  next_call base bh answers s no_block = (judged (sf.mined_block s bh base.tipset.height), s)
  next_call base bh answers s (refusing e) =
      (ended_with (refused e), (sf.put_block s bh base.tipset.height none error).1)
  next_call base bh answers s allowed =
      (answered_by (answers.own_node || submit_any answers.submit_nodes), s)
  next_call base bh answers s (answered_by true) =
      (ended_with submitted, (sf.put_block s bh (parent_height base) none success).1)
  next_call base bh answers s (answered_by false) =
      (ended_with not_submitted, (sf.put_block s bh (parent_height base) none error).1)
  next_call base bh answers s (ended_with outcome) = (ended_with outcome, s)

  unfoldable pub step_task : Task → S → Task × S
  step_task t s =
      let (p, s') = next_call t.base t.header t.answers s t.progress in
      (record t { progress = p }, s')

  unfoldable pub run_at : ℕ → List Task → S → List Task × S
  unfolding step_task
  run_at i [] s = ([], s)
  run_at zero (t ∷ tasks) s = let (t', s') = step_task t s in (t' ∷ tasks, s')
  run_at (suc i) (t ∷ tasks) s = let (tasks', s') = run_at i tasks s in (t ∷ tasks', s')

  -- A schedule says which of the tasks takes each step.
  unfoldable pub run_schedule : List ℕ → List Task → S → List Task × S
  unfolding run_at
  run_schedule [] tasks s = (tasks, s)
  run_schedule (i ∷ rest) tasks s =
      let (tasks', s') = run_at i tasks s in run_schedule rest tasks' s'

  -- `go m.broadCastBlock(...)` of a round, whatever broadcasts of earlier rounds still run, or the
  -- next call of one of them.
  unfoldable pub step_pool : PoolEvent → List Task × S → List Task × S
  step_pool (spawns base bh answers) (tasks, s) =
      (record { base = base; header = bh; answers = answers; progress = waiting_turn } ∷ tasks, s)
  step_pool (steps i) (tasks, s) = run_at i tasks s

  unfoldable pub run_pool : List PoolEvent → List Task × S → List Task × S
  unfolding step_pool
  run_pool [] pool = pool
  run_pool (e ∷ events) pool = run_pool events (step_pool e pool)
