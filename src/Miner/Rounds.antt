-- ===== src/Miner/Rounds.antt =====
-- miner/multiminer.go, `mine`: whole rounds. The parts of a turn are put together: the choice of the
-- base, the attempts of the miners, the head after them, the blocks of the winners, the broadcasts.
-- The attempts of a round are taken in the order in which they end. Its broadcasts are goroutines, which
-- go on while later rounds run: their calls come before any attempt ends, and between the turns.
pub mod Safety
pub mod Steps
use sophon_miner.Api.{filter}
use sophon_miner.Miner.{MiningBase, TipSet}
use sophon_miner.Miner.Attempts.{Attempt, Attempts, collect, errors_of, sent, timed_out}
use sophon_miner.Miner.Broadcast.{SubmitAnswers}
use sophon_miner.Miner.Broadcast.Interleaved.{Task, run_at, run_schedule, waiting_turn}
use sophon_miner.Miner.Candidate.{Latest, Turn, chosen, failed, latest_base, waiting}
use sophon_miner.Miner.Create.{BlockApi, BlockMsg, create_blocks, selected}
use sophon_miner.Miner.MineOne.{NodeApi, WinPoStRes, mine_one}
use sophon_miner.Miner.Round.{Loop, Turned, is_last, mined, repeated, turn_loop}
use sophon_miner.Miner.Winner.{MineError, Wallet}
use sophon_miner.Prelude.{
  Bool, List, Option, Result, String, [], if◌then◌else◌, list_eq, map, nat_eq, none, some,
  string_eq, ℕ, ◌∷◌,
}
use sophon_miner.Prelude.Int.{int_eq}
use sophon_miner.Prelude.Maps.{insert}
use sophon_miner.SlashFilter.{SlashFilterApi}
use sophon_miner.Types.{Address, BlockHeader, Bytes, Time, state_eq}

-- A miner of the set, its account, whether its attempt ends before the timeout, and which broadcasts
-- make their next calls before it ends.
pub record Entrant : Type 0 where
  pub addr : Address
  pub account : Option String
  pub in_time : Bool
  pub meanwhile : List ℕ

-- What the world answers in one turn of the loop.
pub record RoundInput : Type 0 where
  pub turns : List Turn
  pub miners : List Entrant
  pub node : NodeApi
  pub now : Time
  pub head : Option TipSet
  pub messages : Result MineError (List (List Bytes))
  -- The accounts once the blocks are made.
  pub accounts : Address → Option String
  pub answers : BlockHeader → SubmitAnswers

abbrev pub Request : Type 0
Request = MiningBase × BlockHeader × SubmitAnswers

unfoldable pub task_of : Request → Task
task_of (base, bh, answers) = record {
  base = base;
  header = bh;
  answers = answers;
  progress = waiting_turn;
}

-- `go m.broadCastBlock(...)` for each request; the newest first.
unfoldable pub spawn_all : List Request → List Task → List Task
unfolding task_of
spawn_all [] tasks = tasks
spawn_all (r ∷ reqs) tasks = spawn_all reqs (task_of r ∷ tasks)

pub data MineEvent : Type 0 where
  mines : RoundInput → MineEvent
  calls : ℕ → MineEvent

module _ {S : Type 0} (sf : SlashFilterApi S) (same : TipSet → TipSet → Bool) (w : Wallet)
    (print : MineError → String) (api : BlockApi) (block_delay : ℕ)
    (disable_fork_signaling : Bool) where
  unfoldable pub attempt_of : Entrant → WinPoStRes → Attempt
  attempt_of e res = if e.in_time then sent res else timed_out

  -- One miner: its attempt, which writes to the filter also where it is too late, and what is done
  -- with the result.
  unfoldable pub mine_entrant :
      RoundInput
      → MiningBase
      → Entrant
      → List Task
      → Attempts S
      → List (Address × List String)
      → List Task × Attempts S × List (Address × List String)
  unfolding attempt_of
  mine_entrant i base e tasks a logs =
      let (tasks', s0) = run_schedule sf e.meanwhile tasks a.filter in
      let (res, s) = mine_one sf w i.node i.now base e.account e.addr s0 in
      let (a', errs) =
        collect sf base print e.addr (attempt_of e res) (record a { filter = s })
          (errors_of e.addr logs) in
      (tasks', a', insert e.addr errs logs)

  unfoldable pub mine_all :
      RoundInput
      → MiningBase
      → List Entrant
      → List Task
      → Attempts S
      → List (Address × List String)
      → List Task × Attempts S × List (Address × List String)
  unfolding mine_entrant
  mine_all i base [] tasks a logs = (tasks, a, logs)
  mine_all i base (e ∷ rest) tasks a logs =
      let (tasks', a', logs') = mine_entrant i base e tasks a logs in
      mine_all i base rest tasks' a' logs'

  -- The requests of a round to `broadCastBlock`.
  unfoldable pub requests_of : RoundInput → MiningBase → List BlockMsg → List Request
  requests_of i base [] = []
  requests_of i base (bm ∷ blks) = (base, bm.header, i.answers bm.header) ∷ requests_of i base blks

  -- The goroutines that a round starts: one for each block of a winner.
  unfoldable pub broadcast_round :
      RoundInput → List WinPoStRes → Turned × Loop S → List Request × Loop S
  unfolding requests_of
  broadcast_round i winners (repeated base, l) = ([], l)
  broadcast_round i winners (mined base, l) =
      let blks =
        create_blocks w api block_delay disable_fork_signaling base i.accounts winners
          (selected i.messages) in
      (requests_of i base blks, l)

  -- The turn on a base: where it is that of the turn before, nothing is mined.
  unfoldable pub mine_base :
      RoundInput → MiningBase → List Task → Loop S → List Request × List Task × Loop S
  unfolding mine_all broadcast_round
  mine_base i base tasks l =
      if is_last sf same l.last_base base
      then ([], tasks, record l { last_work = some base })
      else (let (tasks', a, logs) =
            mine_all i base i.miners tasks (record { winners = []; filter = l.filter }) [] in
          let (reqs, l') = broadcast_round i a.winners (
            turn_loop sf same base (map (λ (r : WinPoStRes). r.addr) a.winners) i.head
              (record l { filter = a.filter })) in
          (reqs, tasks', l'))

  unfoldable pub with_latest :
      RoundInput
      → Latest × Option MiningBase
      → List Task
      → Loop S
      → List Request × List Task × Loop S
  unfolding mine_base
  with_latest i (chosen base, cell) tasks l = mine_base i base tasks (record l { last_work = cell })
  with_latest i (failed secs e, cell) tasks l = ([], tasks, record l { last_work = cell })
  with_latest i (waiting, cell) tasks l = ([], tasks, record l { last_work = cell })

  -- Without a miner the loop only waits.
  unfoldable pub with_miners :
      List Entrant → RoundInput → List Task → Loop S → List Request × List Task × Loop S
  unfolding with_latest
  with_miners [] i tasks l = ([], tasks, l)
  with_miners (_ ∷ _) i tasks l = with_latest i (latest_base same i.turns l.last_work none) tasks l

  unfoldable pub mine_round : RoundInput → List Task → Loop S → List Request × List Task × Loop S
  unfolding with_miners
  mine_round i tasks l = with_miners i.miners i tasks l

  -- A turn of the loop, at whose end its broadcasts start, or the next call of a broadcast.
  unfoldable pub step_mine : MineEvent → List Task × Loop S → List Task × Loop S
  unfolding mine_round
  step_mine (mines i) (tasks, l) =
      let (reqs, tasks', l') = mine_round i tasks l in (spawn_all reqs tasks', l')
  step_mine (calls k) (tasks, l) =
      let (tasks', s) = run_at sf k tasks l.filter in (tasks', record l { filter = s })

  unfoldable pub mine_rounds : List MineEvent → List Task × Loop S → List Task × Loop S
  unfolding step_mine
  mine_rounds [] x = x
  mine_rounds (e ∷ events) x = mine_rounds events (step_mine e x)
