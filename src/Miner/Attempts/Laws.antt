-- ===== src/Miner/Attempts/Laws.antt =====
-- miner/multiminer.go, `mineOneForAll`: the error logs and the winners.
-- The log of a timeout holds at most 20 errors, the log of an error at most 21, as the two tests
-- differ; a log within 21 stays within 21 either way.
use sophon_miner.Miner.{MiningBase}
use sophon_miner.Miner.Attempts.{
  Attempt, Attempts, collect, collect_all, collect_sent, errors_of, log_error, log_timeout, sent,
  timed_out,
}
use sophon_miner.Miner.MineOne.{WinPoStRes}
use sophon_miner.Miner.Winner.{MineError}
use sophon_miner.Prelude.{
  All, All-append, Bool-cases, List, Option, String, [], arith, inl, inr, is_some, length,
  length-append, length-take, nat_eq, none, refl, some, take, true, ◌∷◌, ◌≡◌, ◌≤◌,
}
use sophon_miner.Prelude.Maps.{insert, lookup-insert}
use sophon_miner.SlashFilter.{SlashFilterApi}
use sophon_miner.Types.{Address}

log_timeout-le :
    (msg : String) (errs : List String) → length errs ≤ 21 → length (log_timeout msg errs) ≤ 20
unfolding log_timeout
log_timeout-le msg errs h = ground (
  arith,
  length-append (take 18 errs) (msg ∷ []),
  length-append errs (msg ∷ []),
  length-take 18 errs,
)

log_error-le :
    (msg : String) (errs : List String) → length errs ≤ 21 → length (log_error msg errs) ≤ 21
unfolding log_error
log_error-le msg errs h = ground (
  arith,
  length-append (take 18 errs) (msg ∷ []),
  length-append errs (msg ∷ []),
  length-take 18 errs,
)

module _ {S : Type 0} (sf : SlashFilterApi S) (base : MiningBase) (print : MineError → String) where
  length-collect_sent :
      (addr : Address) (res : WinPoStRes) (q : Option MineError) (a : Attempts S)
      (errs : List String)
      → length errs ≤ 21
      → length (collect_sent sf base print addr res q a errs).1 ≤ 21
  unfolding collect_sent
  length-collect_sent addr res none a errs h = h
  length-collect_sent addr res (some e) a errs h = log_error-le (print e) errs h

  length-collect_errors :
      (addr : Address) (x : Attempt) (a : Attempts S) (errs : List String)
      → length errs ≤ 21
      → length (collect sf base print addr x a errs).1 ≤ 21
  unfolding collect
  length-collect_errors addr timed_out a errs h =
      omega (arith, log_timeout-le "mining timeout!" errs h)
  length-collect_errors addr (sent res) a errs h = length-collect_sent addr res res.failed a errs h

  -- A round keeps every error log within 21 entries, where all were within 21 before it.
  pub errors_bounded :
      (attempts : List (Address × Attempt)) (a : Attempts S) (logs : List (Address × List String))
      → ((m : Address) → length (errors_of m logs) ≤ 21)
      → (m : Address) → length (errors_of m (collect_all sf base print attempts a logs).1) ≤ 21
  unfolding collect_all
  errors_bounded [] a logs h m = h m
  errors_bounded ((addr, x) ∷ rest) a logs h m =
      let (a', errs') = collect sf base print addr x a (errors_of addr logs) in
      errors_bounded rest a' (insert addr errs' logs)
        (λ n. ground (
          arith,
          lookup-insert addr n errs' logs,
          h n,
          length-collect_errors addr x a (errors_of addr logs) (h addr),
        ))
        m

  abbrev pub IsWinner : WinPoStRes → Type 0
  IsWinner res = (res.failed ≡ none) × (is_some res.winner ≡ true)

  collect_sent-winners :
      (addr : Address) (res : WinPoStRes) (q : Option MineError) (a : Attempts S)
      (errs : List String)
      → res.failed ≡ q
      → All IsWinner a.winners
      → All IsWinner (collect_sent sf base print addr res q a errs).0.winners
  unfolding collect_sent
  collect_sent-winners addr res (some e) a errs q h = h
  collect_sent-winners addr res none a errs q h = elim (Bool-cases (is_some res.winner)) [
    | inl won ↦ simp won (All-append IsWinner a.winners (res ∷ []) h ((q, won), tt))
    | inr lost ↦ simp lost h
  ]

  collect-winners :
      (addr : Address) (x : Attempt) (a : Attempts S) (errs : List String)
      → All IsWinner a.winners
      → All IsWinner (collect sf base print addr x a errs).0.winners
  unfolding collect
  collect-winners addr timed_out a errs h = h
  collect-winners addr (sent res) a errs h = collect_sent-winners addr res res.failed a errs refl h

  -- The winners of a round are results without an error that won, where those it began with are.
  pub winners-IsWinner :
      (attempts : List (Address × Attempt)) (a : Attempts S) (logs : List (Address × List String))
      → All IsWinner a.winners
      → All IsWinner (collect_all sf base print attempts a logs).0.winners
  unfolding collect_all
  winners-IsWinner [] a logs h = h
  winners-IsWinner ((addr, x) ∷ rest) a logs h =
      let (a', errs') = collect sf base print addr x a (errors_of addr logs) in
      winners-IsWinner rest a' (insert addr errs' logs)
        (collect-winners addr x a (errors_of addr logs) h)
