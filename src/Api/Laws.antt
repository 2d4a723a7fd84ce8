-- ===== src/Api/Laws.antt =====
-- node/impl/miner.go: what a caller reaches, by the miners that the caller is permitted for.
use sophon_miner.Api.Mining
use sophon_miner.Miner.Manage
use sophon_miner.Api.{
  count_winners, filter, is_permitted, list_address, list_blocks, start, states_for_mining, stop,
}
use sophon_miner.Api.Mining.{
  MiningError, Service, Wiring, filter_failed, manual_start, manual_stop, miner, winners_failed,
}
use sophon_miner.Miner.Manage.{MinerWpp, state_of}
use sophon_miner.Miner.Manage.Asked.{states_for_mining-All}
use sophon_miner.Miner.Manage.Laws.{Consistent}
use sophon_miner.Miner.Manage.Others.{
  AreOthers, Untouched, manual_start-Untouched, manual_stop-Untouched,
}
use sophon_miner.Miner.Winners.Asked.{AllMiners, count_winners-AllMiners, count_winners-miners}
use sophon_miner.Prelude.{
  All, All-weaken, Any, Bool, Bool-cases, List, Result, [], ap, arith, false, inl, inr, list_eq,
  map, nat_beq_iff, nat_eq, ok, refl, string_eq, true, wrap_err, wrapped_ok, ℕ, ◌==◌, ◌∷◌, ◌≡◌,
}
use sophon_miner.Prelude.Int.{int_eq, ℤ}
use sophon_miner.Types.{Address, ChainEpoch, CountWinners, MinerInfo, MinerState, state_eq}

abbrev Passes : {A : Type 0} → (A → Bool) → A → Type 0
Passes pass x = pass x ≡ true

filter-All : {A : Type 0} (pass : A → Bool) (xs : List A) → All (Passes pass) (filter pass xs)
unfolding filter
filter-All pass [] = tt
filter-All pass (x ∷ xs) = elim (Bool-cases (pass x)) [
  | inl passed ↦ rw passed (passed, filter-All pass xs)
  | inr left_out ↦ rw left_out (filter-All pass xs)
]

filter_none :
    {A : Type 0} (pass : A → Bool) (xs : List A)
    → All (λ x. pass x ≡ false) xs
    → filter pass xs ≡ []
unfolding filter
filter_none pass [] h = refl
filter_none pass (x ∷ xs) h = rw h.0 (filter_none pass xs h.1)

filter_some :
    {A : Type 0} (pass : A → Bool) (xs : List A)
    → Any (Passes pass) xs
    → (y : A) × (ys : List A) × (filter pass xs ≡ y ∷ ys)
unfolding filter
filter_some pass [] h = absurd h
filter_some pass (x ∷ xs) (inl h) = (x, filter pass xs, rw h)
filter_some pass (x ∷ xs) (inr h) = elim (Bool-cases (pass x)) [
  | inl passed ↦ (x, filter pass xs, rw passed)
  | inr left_out ↦ let (y, ys, e) = filter_some pass xs h in (y, ys, rw left_out e)
]

filter-AreOthers :
    (pass : Address → Bool) (a : Address) (addrs : List Address)
    → pass a ≡ false
    → AreOthers a (filter pass addrs)
filter-AreOthers pass a addrs h =
    All-weaken (Passes pass) (λ b. (b == a) ≡ false)
      (λ b p. ground (arith, nat_beq_iff b a, ap pass {x = b} {y = a})) (filter pass addrs)
      (filter-All pass addrs)

module _ {S R : Type 0} (w : Wiring S R) (check_permission : Address → Result ℕ (Unit {0})) where
  -- `Start` and `Stop` of the API, on a consistent set of miners, change nothing about a miner that
  -- the caller is not permitted for, whichever miners are named: its entry in the manager and its
  -- place in the set stay.
  pub start_stop-Untouched :
      (s : Service S R) (addrs : List Address) (a : Address)
      → Consistent s.manager
      → is_permitted (miner w) check_permission a ≡ false
      → Untouched a s.manager (start (miner w) check_permission s addrs).1.manager
        × Untouched a s.manager (stop (miner w) check_permission s addrs).1.manager
  unfolding start stop manual_start manual_stop
  start_stop-Untouched s addrs a c denied_a =
      let others = filter-AreOthers (is_permitted (miner w) check_permission) a addrs denied_a in
      (
        manual_start-Untouched w.auth w.new_prover a _ s.manager c others,
        manual_stop-Untouched w.auth w.new_prover a _ s.manager others,
      )

  abbrev pub IsPermitted : Address → Type 0
  IsPermitted a = is_permitted (miner w) check_permission a ≡ true

  listed-IsPermitted :
      (all infos : List MinerInfo)
      → ◌≡◌ {A = Result MiningError (List MinerInfo)}
          (ok (filter (λ info. is_permitted (miner w) check_permission info.addr) all))
          (ok infos)
      → All (λ (info : MinerInfo). IsPermitted info.addr) infos
  listed-IsPermitted all infos q =
      let pass = λ (info : MinerInfo). is_permitted (miner w) check_permission info.addr in
      let same : filter pass all ≡ infos = cc in rw (← same) (filter-All pass all)

  asked_states :
      (s : Service S R) (a : Address) (addrs : List Address) (states : List MinerState)
      → All IsPermitted (a ∷ addrs)
      → (miner w).states_for_mining s (a ∷ addrs) ≡ ok states
      → All (λ (r : MinerState). IsPermitted r.addr) states
  asked_states s a addrs states may q =
      let same : Manage.states_for_mining s.manager (a ∷ addrs) ≡ states = cc in
      rw (← same) (states_for_mining-All s.manager IsPermitted a addrs may)

  asked_winners :
      (s : Service S R) (a : Address) (addrs : List Address) (from to : ChainEpoch)
      (winners : List CountWinners)
      → All IsPermitted (a ∷ addrs)
      → (miner w).count_winners s (a ∷ addrs) from to ≡ ok winners
      → AllMiners IsPermitted winners
  unfolding Mining.count_winners
  asked_winners s a addrs from to winners may q =
      count_winners-AllMiners w.wallet w.chain IsPermitted w.print w.order s.manager.wpps a addrs
        from to winners may (wrapped_ok winners_failed _ q)

  may_all :
      (addrs : List Address)
      → Any IsPermitted addrs
      → (a : Address) × (rest : List Address) × (filter
            (is_permitted (miner w) check_permission)
            addrs
          ≡ a ∷ rest)
        × All IsPermitted (a ∷ rest)
  may_all addrs some_permitted =
      let pass = is_permitted (miner w) check_permission in
      let (a, rest, e) = filter_some pass addrs some_permitted in
      (a, rest, e, rw e at (filter-All pass addrs))

  -- `ListAddress` answers about miners that the caller is permitted for only, also where there are
  -- none.
  pub list_address-IsPermitted :
      (s : Service S R) (infos : List MinerInfo)
      → list_address (miner w) check_permission s ≡ ok infos
      → All (λ (info : MinerInfo). IsPermitted info.addr) infos
  unfolding list_address
  list_address-IsPermitted s infos q = listed-IsPermitted (Manage.list_address s.manager) infos q

  -- Where the caller is permitted for at least one of the miners that it asks for, `StatesForMining`
  -- answers about permitted miners only.
  pub states_for_mining-IsPermitted :
      (s : Service S R) (addrs : List Address) (states : List MinerState)
      → Any IsPermitted addrs
      → states_for_mining (miner w) check_permission s addrs ≡ ok states
      → All (λ (r : MinerState). IsPermitted r.addr) states
  unfolding states_for_mining
  states_for_mining-IsPermitted s addrs states some_permitted q =
      let (a, rest, e, may) = may_all addrs some_permitted in
      asked_states s a rest states may (rw e at q)

  -- Where the caller is permitted for at least one of the miners that it asks for, `CountWinners`
  -- counts for permitted miners only.
  pub count_winners-IsPermitted :
      (s : Service S R) (addrs : List Address) (from to : ChainEpoch) (winners : List CountWinners)
      → Any IsPermitted addrs
      → count_winners (miner w) check_permission s addrs from to ≡ ok winners
      → AllMiners IsPermitted winners
  unfolding count_winners
  count_winners-IsPermitted s addrs from to winners some_permitted q =
      let (a, rest, e, may) = may_all addrs some_permitted in
      asked_winners s a rest from to winners may (rw e at q)

  -- A caller that is permitted for none of the miners that it asks for is answered about all of
  -- them: `StatesForMining` gives the states of all the manager's miners, and `ListBlocks` asks the
  -- filter for the blocks of every miner.
  pub answers_unfiltered :
      (s : Service S R) (addrs : List Address) (limit offset : ℤ)
      → All (λ a. is_permitted (miner w) check_permission a ≡ false) addrs
      → (states_for_mining (miner w) check_permission s addrs
          ≡ ok (map (λ (e : Address × MinerInfo). state_of s.manager e.1.addr) s.manager.miners))
        × (list_blocks
              (miner w)
              check_permission
              s
              (record { miners = addrs; limit = limit; offset = offset })
            ≡ wrap_err filter_failed (
                w.slash_filter.list_block s.filter
                  (record { miners = []; limit = limit; offset = offset })))
  unfolding states_for_mining list_blocks Manage.states_for_mining Mining.list_blocks
  answers_unfiltered s addrs limit offset h =
      let none_left = filter_none (is_permitted (miner w) check_permission) addrs h in
      (rw none_left, rw none_left)

  -- A caller that is permitted for none of the miners that it asks for, and for which `CountWinners`
  -- does not fail, gets a count for every miner of the set, once each.
  pub count_winners_unfiltered :
      (s : Service S R) (addrs : List Address) (from to : ChainEpoch) (winners : List CountWinners)
      → All (λ a. is_permitted (miner w) check_permission a ≡ false) addrs
      → count_winners (miner w) check_permission s addrs from to ≡ ok winners
      → map (λ (c : CountWinners). c.miner) winners
        ≡ map (λ (e : Address × MinerWpp). e.0) s.manager.wpps
  unfolding count_winners Mining.count_winners
  count_winners_unfiltered s addrs from to winners h q =
      let none_left = filter_none (is_permitted (miner w) check_permission) addrs h in
      count_winners-miners w.wallet w.chain w.print w.order s.manager.wpps from to winners
        (wrapped_ok winners_failed _ (rw none_left at q))
