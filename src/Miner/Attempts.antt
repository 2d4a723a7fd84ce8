-- ===== src/Miner/Attempts.antt =====
-- miner/multiminer.go, `mineOneForAll`: what is done with the result of each miner's attempt, which
-- is a timeout or what `mine_one` sent. The attempts run side by side; what each does to the slash
-- filter, to its own error log and to the list of winners is taken in the order of completion.
pub mod Laws
use sophon_miner.Miner.{MiningBase, next_height, parent_height}
use sophon_miner.Miner.MineOne.{WinPoStRes}
use sophon_miner.Miner.Winner.{MineError}
use sophon_miner.Prelude.{
  List, Option, String, [], if◌then◌else◌, is_some, leb, length, ltb, nat_eq, none, some, take, ℕ,
  ◌++◌, ◌-◌, ◌∷◌,
}
use sophon_miner.Prelude.Maps.{insert, lookup}
use sophon_miner.SlashFilter.{SlashFilterApi}
use sophon_miner.Types.{Address, BlockHeader, error, timeout}

pub record Attempts (S : Type 0) : Type 0 where
  pub winners : List WinPoStRes
  pub filter : S

-- DefaultMaxErrCounts
abbrev pub default_max_err_counts : ℕ
default_max_err_counts = 20

-- The error log of a miner, at a timeout.
unfoldable pub log_timeout : String → List String → List String
log_timeout msg errs =
    (if leb default_max_err_counts (length errs)
      then take (default_max_err_counts - 2) errs
      else errs)
    ++ msg ∷ []

-- The error log of a miner, at an error.
unfoldable pub log_error : String → List String → List String
log_error msg errs =
    (if ltb default_max_err_counts (length errs)
      then take (default_max_err_counts - 2) errs
      else errs)
    ++ msg ∷ []

pub data Attempt : Type 0 where
  timed_out : Attempt
  sent : WinPoStRes → Attempt

-- The header under which a timeout or an error is recorded.
abbrev bare_header : MiningBase → Address → BlockHeader
bare_header base addr = record {
  miner = addr;
  height = next_height base;
  parents = [];
  ticket = none;
}

abbrev pub errors_of : Address → List (Address × List String) → List String
errors_of addr logs = elim (lookup addr logs) [ none ↦ [] | some l ↦ l ]

-- `print` renders an error with the time at which it is logged.
module _ {S : Type 0} (sf : SlashFilterApi S) (base : MiningBase) (print : MineError → String) where
  unfoldable pub collect_error :
      Address → WinPoStRes → MineError → Attempts S → List String → Attempts S × List String
  collect_error addr res e a errs = (
    record a {
      filter =
          (if is_some res.winner
            then (sf.put_block a.filter (bare_header base addr) (parent_height base) none error).1
            else a.filter);
    },
    log_error (print e) errs,
  )

  unfoldable pub collect_sent :
      Address → WinPoStRes → Option MineError → Attempts S → List String → Attempts S × List String
  unfolding collect_error
  collect_sent addr res (some e) a errs = collect_error addr res e a errs
  collect_sent addr res none a errs =
      (if is_some res.winner then record a { winners = a.winners ++ res ∷ [] } else a, errs)

  unfoldable pub collect : Address → Attempt → Attempts S → List String → Attempts S × List String
  unfolding collect_sent
  collect addr timed_out a errs = (
    record a {
      filter = (sf.put_block a.filter (bare_header base addr) (parent_height base) none timeout).1;
    },
    log_timeout "mining timeout!" errs,
  )
  collect addr (sent res) a errs = collect_sent addr res res.failed a errs

  -- All the attempts of a round, in the order in which they end; the error logs go with the miners.
  unfoldable pub collect_all :
      List (Address × Attempt)
      → Attempts S
      → List (Address × List String)
      → Attempts S × List (Address × List String)
  collect_all [] a logs = (a, logs)
  collect_all ((addr, attempt) ∷ rest) a logs =
      let errs = errors_of addr logs in
      let (a', errs') = collect addr attempt a errs in collect_all rest a' (insert addr errs' logs)
