-- ===== src/Miner/Rounds/Safety.antt =====
-- miner/multiminer.go, `mine`: the blocks that the loop's broadcasts submit, over all of its rounds.
use sophon_miner.Miner.{MiningBase, TipSet}
use sophon_miner.Miner.Attempts.{Attempts, collect, errors_of, sent}
use sophon_miner.Miner.Broadcast.Agreement.{IsSafe, IsSafe-Grows, run_at-IsSafe}
use sophon_miner.Miner.Broadcast.Interleaved.{Task, run_at, run_schedule, submitted_headers}
use sophon_miner.Miner.Broadcast.Pools.{IsSafe-PairwiseApart, MeetsNone, spawned-Agrees}
use sophon_miner.Miner.Broadcast.Safety.{PairwiseApart, Ticketed}
use sophon_miner.Miner.Candidate.{Latest, chosen, failed, waiting}
use sophon_miner.Miner.Create.{
  BlockApi, BlockMsg, create_block, create_blocks, keep_block, selected, template_of,
}
use sophon_miner.Miner.MineOne.{WinPoStRes, mine_one}
use sophon_miner.Miner.Round.{Loop, Turned, is_last, mined, repeated, turn_loop}
use sophon_miner.Miner.Rounds.{
  Entrant, MineEvent, Request, RoundInput, attempt_of, broadcast_round, calls, mine_all, mine_base,
  mine_entrant, mine_round, mine_rounds, mines, requests_of, spawn_all, step_mine, task_of,
  with_latest, with_miners,
}
use sophon_miner.Miner.Rounds.Steps.{
  HasTicket, collect-Keeps, collect_tickets, create_block_header, mine_one-Keeps, mine_one_ticket,
  turn_loop-Keeps,
}
use sophon_miner.Miner.Winner.{MineError, Wallet}
use sophon_miner.Prelude.{
  All, Bool, Bool-cases, List, Option, Result, String, [], ap, arith, err, inl, inr, is_some,
  list_eq, map, nat_eq, none, ok, refl, string_eq, true, ℕ, ◌∷◌, ◌≡◌, ◌≢◌,
}
use sophon_miner.Prelude.Int.{int_eq}
use sophon_miner.Prelude.Maps.{insert}
use sophon_miner.SlashFilter.{Guards, SlashFilterApi}
use sophon_miner.Types.{Address, BlockHeader, Bytes, ChainEpoch, Time, state_eq, success}

module _ {S : Type 0} (sf : SlashFilterApi S) (g : Guards sf)
    (records : (s : S) (bh : BlockHeader) (parent_epoch : ChainEpoch) (t : Time)
      → (sf.put_block s bh parent_epoch t success).0 ≡ ok tt)
    (same : TipSet → TipSet → Bool) (w : Wallet) (print : MineError → String) (api : BlockApi)
    (block_delay : ℕ) (disable_fork_signaling : Bool) where
  abbrev the_requests : RoundInput → MiningBase → List BlockMsg → List Request
  the_requests i base blks =
      requests_of sf same w print api block_delay disable_fork_signaling i base blks

  attempt_ticket :
      (e : Entrant) (res : WinPoStRes)
      → (res.failed ≡ none → is_some res.winner ≡ true → HasTicket res)
      → (out : WinPoStRes)
      → attempt_of sf same w print api block_delay disable_fork_signaling e res ≡ sent out
      → out.failed ≡ none
      → is_some out.winner ≡ true
      → HasTicket out
  unfolding attempt_of
  attempt_ticket e res own out q fine won = ground arith

  abbrev Safe : List Task → S → Type 0
  Safe tasks s = IsSafe sf g records tasks s

  run_schedule-Safe :
      (schedule : List ℕ) (tasks : List Task) (s : S)
      → Safe tasks s
      → Safe (run_schedule sf schedule tasks s).0 (run_schedule sf schedule tasks s).1
  unfolding run_schedule
  run_schedule-Safe [] tasks s h = h
  run_schedule-Safe (k ∷ rest) tasks s h =
      run_schedule-Safe rest (run_at sf k tasks s).0 (run_at sf k tasks s).1
        (run_at-IsSafe sf g records k tasks s h)

  -- The attempts of a round leave the running broadcasts safe, and its winners have tickets.
  mine_all_sound :
      (i : RoundInput) (base : MiningBase) (es : List Entrant) (tasks : List Task) (a : Attempts S)
      (logs : List (Address × List String))
      → Safe tasks a.filter
      → All HasTicket a.winners
      → let (tasks', a', logs') =
          mine_all sf same w print api block_delay disable_fork_signaling i base es tasks a logs in
        Safe tasks' a'.filter × All HasTicket a'.winners
  unfolding mine_all mine_entrant attempt_of
  mine_all_sound i base [] tasks a logs safe old = (safe, old)
  mine_all_sound i base (e ∷ rest) tasks a logs safe old =
      let (tasks', s0) = run_schedule sf e.meanwhile tasks a.filter in
      let (res, s) = mine_one sf w i.node i.now base e.account e.addr s0 in
      let b = record a { filter = s } in
      let x = attempt_of sf same w print api block_delay disable_fork_signaling e res in
      let (a', errs) = collect sf base print e.addr x b (errors_of e.addr logs) in
      let tickets =
        collect_tickets sf base print e.addr x b (errors_of e.addr logs)
          (attempt_ticket e res (mine_one_ticket sf w i.node i.now base e.account e.addr s0)) old in
      let still : Safe tasks' a'.filter =
        IsSafe-Grows sf g records tasks' s0 a'.filter
          (λ m h t.
            collect-Keeps sf g base print e.addr x b (errors_of e.addr logs) m h
              (mine_one-Keeps sf g w i.node i.now base e.account e.addr s0 m h t))
          (run_schedule-Safe e.meanwhile tasks a.filter safe) in
      mine_all_sound i base rest tasks' a' (insert e.addr errs logs) still tickets

  keep_block-Ticketed :
      (i : RoundInput) (base : MiningBase) (r : Result MineError BlockMsg) (blks : List BlockMsg)
      → ((bm : BlockMsg) → r ≡ ok bm → bm.header.ticket ≢ none)
      → All (Ticketed sf g) (the_requests i base blks)
      → All
          (Ticketed sf g)
          (the_requests i base (keep_block w api block_delay disable_fork_signaling r blks))
  unfolding keep_block requests_of
  keep_block-Ticketed i base (err e) blks own old = old
  keep_block-Ticketed i base (ok bm) blks own old = (own bm refl, old)

  created_ticketed :
      (i : RoundInput) (base : MiningBase) (res : WinPoStRes) (msgs : List Bytes) (bm : BlockMsg)
      → HasTicket res
      → create_block w api block_delay disable_fork_signaling base (i.accounts res.addr) res msgs
        ≡ ok bm
      → bm.header.ticket ≢ none
  unfolding template_of
  created_ticketed i base res msgs bm has made gone =
      let header =
        create_block_header w api block_delay disable_fork_signaling base (i.accounts res.addr) res
          msgs bm made in
      let ticket : bm.header.ticket ≡ res.ticket = ap (λ (x : BlockHeader). x.ticket) header in
      ground arith

  create_blocks-Ticketed :
      (i : RoundInput) (base : MiningBase) (winners : List WinPoStRes) (msgs : List (List Bytes))
      → All HasTicket winners
      → All (Ticketed sf g) (
          the_requests i base
            (create_blocks w api block_delay disable_fork_signaling base i.accounts winners msgs))
  unfolding create_blocks requests_of
  create_blocks-Ticketed i base [] msgs h = tt
  create_blocks-Ticketed i base (res ∷ winners) [] h =
      keep_block-Ticketed i base
        (create_block w api block_delay disable_fork_signaling base (i.accounts res.addr) res []) _
        (λ bm made. created_ticketed i base res [] bm h.0 made)
        (create_blocks-Ticketed i base winners [] h.1)
  create_blocks-Ticketed i base (res ∷ winners) (own ∷ msgs) h =
      keep_block-Ticketed i base
        (create_block w api block_delay disable_fork_signaling base (i.accounts res.addr) res own) _
        (λ bm made. created_ticketed i base res own bm h.0 made)
        (create_blocks-Ticketed i base winners msgs h.1)

  -- The requests of a turn have tickets, and the running broadcasts are safe.
  abbrev IsSound : List Request × List Task × Loop S → Type 0
  IsSound (reqs, tasks, l) = All (Ticketed sf g) reqs × Safe tasks l.filter

  broadcast_round_sound :
      (i : RoundInput) (winners : List WinPoStRes) (t : Turned) (l : Loop S)
      → All HasTicket winners
      → All
          (Ticketed sf g)
          (broadcast_round sf same w print api block_delay disable_fork_signaling i winners
            (t, l)).0
  unfolding broadcast_round
  broadcast_round_sound i winners (repeated base) l h = tt
  broadcast_round_sound i winners (mined base) l h =
      create_blocks-Ticketed i base winners (selected i.messages) h

  broadcast_round_filter :
      (i : RoundInput) (winners : List WinPoStRes) (t : Turned) (l : Loop S)
      → (broadcast_round sf same w print api block_delay disable_fork_signaling i winners (t, l)).1
        ≡ l
  unfolding broadcast_round
  broadcast_round_filter i winners (repeated base) l = refl
  broadcast_round_filter i winners (mined base) l = refl

  mine_base-IsSound :
      (i : RoundInput) (base : MiningBase) (tasks : List Task) (l : Loop S)
      → Safe tasks l.filter
      → IsSound (mine_base sf same w print api block_delay disable_fork_signaling i base tasks l)
  unfolding mine_base
  mine_base-IsSound i base tasks l safe =
      let none_yet : Attempts S = record { winners = []; filter = l.filter } in
      let (tasks', a, logs) =
        mine_all sf same w print api block_delay disable_fork_signaling i base i.miners tasks
          none_yet [] in
      let (safe', tickets) = mine_all_sound i base i.miners tasks none_yet [] safe tt in
      let names = map (λ (r : WinPoStRes). r.addr) a.winners in
      let l1 = record l { filter = a.filter } in
      let (t, l2) = turn_loop sf same base names i.head l1 in
      let kept : Safe tasks' l2.filter =
        IsSafe-Grows sf g records tasks' a.filter l2.filter
          (turn_loop-Keeps sf g same base names i.head l1) safe' in
      elim (Bool-cases (is_last sf same l.last_base base)) [
        | inl again ↦ rw again (tt, safe)
        | inr fresh ↦ rw fresh (
          broadcast_round_sound i a.winners t l2 tickets,
          rw (broadcast_round_filter i a.winners t l2) kept,
        )
      ]

  with_latest-IsSound :
      (i : RoundInput) (r : Latest × Option MiningBase) (tasks : List Task) (l : Loop S)
      → Safe tasks l.filter
      → IsSound (with_latest sf same w print api block_delay disable_fork_signaling i r tasks l)
  unfolding with_latest
  with_latest-IsSound i (chosen base, cell) tasks l safe =
      mine_base-IsSound i base tasks (record l { last_work = cell }) safe
  with_latest-IsSound i (failed secs e, cell) tasks l safe = (tt, safe)
  with_latest-IsSound i (waiting, cell) tasks l safe = (tt, safe)

  with_miners-IsSound :
      (es : List Entrant) (i : RoundInput) (tasks : List Task) (l : Loop S)
      → Safe tasks l.filter
      → IsSound (with_miners sf same w print api block_delay disable_fork_signaling es i tasks l)
  unfolding with_miners
  with_miners-IsSound [] i tasks l safe = (tt, safe)
  with_miners-IsSound (_ ∷ _) i tasks l safe = with_latest-IsSound i _ tasks l safe

  mine_round-IsSound :
      (i : RoundInput) (tasks : List Task) (l : Loop S)
      → Safe tasks l.filter
      → IsSound (mine_round sf same w print api block_delay disable_fork_signaling i tasks l)
  unfolding mine_round
  mine_round-IsSound i tasks l safe = with_miners-IsSound i.miners i tasks l safe

  -- Each of the broadcasts that start meets no running one of its miner at its height.
  abbrev pub MeetNone : List Request → List Task → Type 0
  MeetNone [] tasks = Unit {0}
  MeetNone (r ∷ reqs) tasks = MeetsNone (task_of r).header tasks × MeetNone reqs (task_of r ∷ tasks)

  spawn_all-Safe :
      (reqs : List Request) (tasks : List Task) (s : S)
      → All (Ticketed sf g) reqs
      → MeetNone reqs tasks
      → Safe tasks s
      → Safe (spawn_all reqs tasks) s
  unfolding spawn_all task_of
  spawn_all-Safe [] tasks s tickets meets safe = safe
  spawn_all-Safe ((base, bh, answers) ∷ reqs) tasks s tickets meets safe =
      spawn_all-Safe reqs _ s tickets.1 meets.1
        (spawned-Agrees sf g records base bh answers tasks meets.0, ((λ out. cc), tickets.0), safe)

  -- Along a run of the loop, no broadcast starts while one of the same miner and height runs.
  abbrev pub NoMeeting : List MineEvent → List Task × Loop S → Type 0
  NoMeeting [] x = Unit {0}
  NoMeeting (mines i ∷ events) (tasks, l) =
      let turn = mine_round sf same w print api block_delay disable_fork_signaling i tasks l in
      MeetNone turn.0 turn.1
      × NoMeeting events
          (step_mine sf same w print api block_delay disable_fork_signaling (mines i) (tasks, l))
  NoMeeting (calls k ∷ events) (tasks, l) =
      NoMeeting events
        (step_mine sf same w print api block_delay disable_fork_signaling (calls k) (tasks, l))

  mine_rounds-Safe :
      (events : List MineEvent) (tasks : List Task) (l : Loop S)
      → NoMeeting events (tasks, l)
      → Safe tasks l.filter
      → let (tasks', l') =
          mine_rounds sf same w print api block_delay disable_fork_signaling events (tasks, l) in
        Safe tasks' l'.filter
  unfolding mine_rounds step_mine
  mine_rounds-Safe [] tasks l n safe = safe
  mine_rounds-Safe (mines i ∷ events) tasks l (meets, n) safe =
      let (tickets, safe') = mine_round-IsSound i tasks l safe in
      mine_rounds-Safe events _ _ n (spawn_all-Safe _ _ _ tickets meets safe')
  mine_rounds-Safe (calls k ∷ events) tasks l n safe =
      mine_rounds-Safe events _ _ n (run_at-IsSafe sf g records k tasks l.filter safe)

  -- The loop runs any number of rounds, and the broadcasts that it starts go on while later rounds
  -- run: whatever the node, the wallet and the network answer, and in whatever order the calls of the
  -- broadcasts come, between the turns of the loop and before the attempts of its miners end, the
  -- submitted blocks are for pairwise different heights of their miners, as long as no broadcast
  -- starts while one of the same miner and height runs. It supposes that the filter records each mined
  -- block without an error, and that blocks are created from their templates.
  pub mine_rounds_apart :
      (events : List MineEvent) (l : Loop S)
      → NoMeeting events ([], l)
      → PairwiseApart (
          submitted_headers
            (mine_rounds sf same w print api block_delay disable_fork_signaling events ([], l)).0)
  mine_rounds_apart events l n =
      IsSafe-PairwiseApart sf g records _ _ (mine_rounds-Safe events [] l n tt)
