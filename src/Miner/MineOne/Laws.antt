-- ===== src/Miner/MineOne/Laws.antt =====
-- miner/multiminer.go, `mineOne`: what the result of an attempt holds.
use sophon_miner.Miner.{MiningBase, next_height, parent_height}
use sophon_miner.Miner.MineOne.{
  NodeApi, WinPoStRes, empty_result, mine_one, rbase_of, run_election, winner_header,
  with_base_info, with_ticket, with_winner,
}
use sophon_miner.Miner.Winner.{ElectionProof, MineError, MiningBaseInfo, Wallet, compute_ticket}
use sophon_miner.Miner.Winner.Laws.{is_round_winner-some}
use sophon_miner.Prelude.{
  Bool-cases, Option, Result, String, ap, arith, err, if◌then◌else◌, inl, inr, is_some, none, ok,
  refl, some, true, ◌≡◌,
}
use sophon_miner.Prelude.Int.{pos, ◌≤ℤ◌}
use sophon_miner.SlashFilter.{SlashFilterApi}
use sophon_miner.Types.{Address, Ticket, Time, mining}

module _ {S : Type 0} (sf : SlashFilterApi S) (w : Wallet) (api : NodeApi) (now : Time) where
  with_winner_complete :
      (base : MiningBase) (addr : Address) (mbi : MiningBaseInfo) (res : WinPoStRes) (s : S)
      (r : Result MineError (Option ElectionProof)) (ep : ElectionProof)
      → res.winner ≡ none
      → let out = (with_winner sf w api now base addr mbi res s r).0 in
        out.failed ≡ none
        → out.winner ≡ some ep
        → (r ≡ ok (some ep))
          × (is_some out.post_proof ≡ true)
          × (out.waddr ≡ res.waddr)
          × (out.ticket ≡ res.ticket)
  unfolding with_winner
  with_winner_complete base addr mbi res s (err e) ep fresh fine won = ground arith
  with_winner_complete base addr mbi res s (ok none) ep fresh fine won = ground arith
  with_winner_complete base addr mbi res s (ok (some x)) ep fresh fine won = ground arith

  run_election_complete :
      (base : MiningBase) (account : Option String) (addr : Address) (mbi : MiningBaseInfo)
      (res : WinPoStRes) (s : S) (ep : ElectionProof)
      → res.winner ≡ none
      → let out = (run_election sf w api now base account addr mbi res s).0 in
        out.failed ≡ none
        → out.winner ≡ some ep
        → (pos 1 ≤ℤ ep.win_count)
          × (is_some out.post_proof ≡ true)
          × (out.waddr ≡ res.waddr)
          × (out.ticket ≡ res.ticket)
  unfolding run_election
  run_election_complete base none addr mbi res s ep fresh fine won = ground arith
  run_election_complete base (some account) addr mbi res s ep fresh fine won =
      let (elected, proved, worker, ticket) =
        with_winner_complete base addr mbi res s _ ep fresh fine won in
      let (positive, _, _) =
        is_round_winner-some w (next_height base) account addr (rbase_of mbi) mbi ep elected in
      (positive, proved, worker, ticket)

  with_ticket_complete :
      (base : MiningBase) (account : Option String) (addr : Address) (mbi : MiningBaseInfo)
      (res : WinPoStRes) (s : S) (r : Result MineError Ticket) (ep : ElectionProof)
      → res.winner ≡ none
      → let out = (with_ticket sf w api now base account addr mbi res s r).0 in
        out.failed ≡ none
        → out.winner ≡ some ep
        → (pos 1 ≤ℤ ep.win_count)
          × (is_some out.post_proof ≡ true)
          × (out.waddr ≡ res.waddr)
          × (is_some out.ticket ≡ true)
  unfolding with_ticket
  with_ticket_complete base account addr mbi res s (err e) ep fresh fine won = ground arith
  with_ticket_complete base account addr mbi res s (ok t) ep fresh fine won =
      let (positive, proved, worker, ticket) =
        run_election_complete base account addr mbi (record res { ticket = some t }) s ep fresh fine
          won in
      (positive, proved, worker, rw ticket)

  with_base_info_complete :
      (base : MiningBase) (account : Option String) (addr : Address) (s : S)
      (r : Result MineError (Option MiningBaseInfo)) (ep : ElectionProof)
      → let out = (with_base_info sf w api now base account addr (empty_result addr) s r).0 in
        out.failed ≡ none
        → out.winner ≡ some ep
        → (is_some out.waddr ≡ true)
          × (is_some out.ticket ≡ true)
          × (is_some out.post_proof ≡ true)
          × (pos 1 ≤ℤ ep.win_count)
  unfolding with_base_info
  with_base_info_complete base account addr s (err e) ep fine won = ground arith
  with_base_info_complete base account addr s (ok none) ep fine won = ground arith
  with_base_info_complete base account addr s (ok (some mbi)) ep fine won =
      let res = record (empty_result addr) {
        waddr = some mbi.worker_key;
        bvals = mbi.beacon_entries;
      } in
      let t =
        compute_ticket w api.upgrade_smoke_height account (rbase_of mbi) (next_height base)
          base.tipset.min_ticket mbi addr in
      elim (Bool-cases mbi.eligible_for_mining) [
        | inl yes_eligible ↦
            let (positive, proved, worker, ticket) =
              with_ticket_complete base account addr mbi res s t ep refl (simp yes_eligible at fine)
                (simp yes_eligible at won) in
            simp yes_eligible (ap is_some worker, ticket, proved, positive)
        | inr not_eligible ↦ ground arith
      ]

  -- A result with a winner and no error has all that a block needs: the worker's address, a ticket
  -- and a proof; and its win count is at least one.
  pub mine_one_complete :
      (base : MiningBase) (account : Option String) (addr : Address) (s : S) (ep : ElectionProof)
      → let res = (mine_one sf w api now base account addr s).0 in
        res.failed ≡ none
        → res.winner ≡ some ep
        → (is_some res.waddr ≡ true)
          × (is_some res.ticket ≡ true)
          × (is_some res.post_proof ≡ true)
          × (pos 1 ≤ℤ ep.win_count)
  unfolding mine_one
  mine_one_complete base account addr s ep ok_res won =
      with_base_info_complete base account addr s _ ep ok_res won

  -- The attempt records its miner as mining exactly when it won the election, whether or not the
  -- proof then fails; it records nothing otherwise.
  pub mine_one-records :
      (base : MiningBase) (account : Option String) (addr : Address) (s : S)
      → let (res, s') = mine_one sf w api now base account addr s in
        s' ≡ (
          if is_some res.winner
          then (sf.put_block s (winner_header base addr) (parent_height base) now mining).1
          else s)
  unfolding mine_one
  mine_one-records base account addr s = ground arith
