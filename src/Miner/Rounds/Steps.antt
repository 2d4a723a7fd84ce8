-- ===== src/Miner/Rounds/Steps.antt =====
-- miner/multiminer.go, `mine`: what the parts of a turn do to the heights that are taken, and the
-- tickets of the winners and of their blocks.
use sophon_miner.Miner.{MiningBase, TipSet}
use sophon_miner.Miner.Attempts.{
  Attempt, Attempts, collect, collect_error, collect_sent, sent, timed_out,
}
use sophon_miner.Miner.Create.{
  BlockApi, BlockMsg, BlockTemplate, check_signed, create_block, header_of, sign_block, signal_fork,
  template_of,
}
use sophon_miner.Miner.MineOne.{NodeApi, WinPoStRes, mine_one}
use sophon_miner.Miner.MineOne.Laws.{mine_one-records, mine_one_complete}
use sophon_miner.Miner.Round.{Loop, record_forked, take_head, turn_loop}
use sophon_miner.Miner.Winner.{MineError, Wallet}
use sophon_miner.Prelude.{
  All, All-append, Bool, Bool-cases, List, Option, Result, String, [], arith, err, inl, inr,
  is_some, none, ok, refl, some, true, ℕ, ◌>>=◌, ◌∷◌, ◌≡◌,
}
use sophon_miner.SlashFilter.{Guards, SlashFilterApi}
use sophon_miner.Types.{Address, Bytes, ChainEpoch, Time}

-- The heights that are taken stay taken.
abbrev pub Keeps : {S : Type 0} {sf : SlashFilterApi S} → Guards sf → S → S → Type 0
Keeps g s s' = (m : Address) (h : ChainEpoch) → g.taken s m h ≡ true → g.taken s' m h ≡ true

module _ {S : Type 0} (sf : SlashFilterApi S) (g : Guards sf) where
  collect_sent-Keeps :
      (base : MiningBase) (print : MineError → String) (addr : Address) (res : WinPoStRes)
      (failed : Option MineError) (a : Attempts S) (errs : List String)
      → Keeps g a.filter (collect_sent sf base print addr res failed a errs).0.filter
  unfolding collect_sent collect_error
  collect_sent-Keeps base print addr res none a errs m h t = ground arith
  collect_sent-Keeps base print addr res (some e) a errs m h t = grind (arith, g.put_keeps)

  pub collect-Keeps :
      (base : MiningBase) (print : MineError → String) (addr : Address) (x : Attempt)
      (a : Attempts S) (errs : List String)
      → Keeps g a.filter (collect sf base print addr x a errs).0.filter
  unfolding collect
  collect-Keeps base print addr timed_out a errs m h t = grind (arith, g.put_keeps)
  collect-Keeps base print addr (sent res) a errs m h t =
      collect_sent-Keeps base print addr res res.failed a errs m h t

  record_forked-Keeps :
      (same : TipSet → TipSet → Bool) (base : MiningBase) (winners : List Address) (s : S)
      → Keeps g s (record_forked sf same base winners s)
  unfolding record_forked
  record_forked-Keeps same base [] s m h t = t
  record_forked-Keeps same base (addr ∷ winners) s m h t =
      record_forked-Keeps same base winners _ m h (g.put_keeps s _ _ _ _ m h t)

  take_head-Keeps :
      (same : TipSet → TipSet → Bool) (head : Option TipSet) (base : MiningBase)
      (winners : List Address) (s : S)
      → Keeps g s (take_head sf same head base winners s).1
  unfolding take_head
  take_head-Keeps same none base winners s m h t = t
  take_head-Keeps same (some ts) base winners s m h t =
      ground (arith, record_forked-Keeps same base winners s m h t)

  pub turn_loop-Keeps :
      (same : TipSet → TipSet → Bool) (base : MiningBase) (winners : List Address)
      (head : Option TipSet) (l : Loop S)
      → Keeps g l.filter (turn_loop sf same base winners head l).1.filter
  unfolding turn_loop
  turn_loop-Keeps same base winners head l m h t =
      ground (arith, take_head-Keeps same head base winners l.filter m h t)

  pub mine_one-Keeps :
      (w : Wallet) (api : NodeApi) (now : Time) (base : MiningBase) (account : Option String)
      (addr : Address) (s : S)
      → Keeps g s (mine_one sf w api now base account addr s).1
  mine_one-Keeps w api now base account addr s m h t =
      grind (arith, g.put_keeps, mine_one-records sf w api now base account addr s)

abbrev pub HasTicket : WinPoStRes → Type 0
HasTicket res = is_some res.ticket ≡ true

module _ {S : Type 0} (sf : SlashFilterApi S) where
  collect_sent-tickets :
      (base : MiningBase) (print : MineError → String) (addr : Address) (res : WinPoStRes)
      (failed : Option MineError) (a : Attempts S) (errs : List String)
      → (failed ≡ none → is_some res.winner ≡ true → HasTicket res)
      → All HasTicket a.winners
      → All HasTicket (collect_sent sf base print addr res failed a errs).0.winners
  unfolding collect_sent collect_error
  collect_sent-tickets base print addr res (some e) a errs own old = old
  collect_sent-tickets base print addr res none a errs own old =
      elim (Bool-cases (is_some res.winner)) [
        | inl won ↦ simp won (All-append HasTicket a.winners (res ∷ []) old (own refl won, tt))
        | inr lost ↦ simp lost old
      ]

  -- A winner without an error has a ticket.
  pub mine_one_ticket :
      (w : Wallet) (api : NodeApi) (now : Time) (base : MiningBase) (account : Option String)
      (addr : Address) (s : S)
      → let res = (mine_one sf w api now base account addr s).0 in
        res.failed ≡ none → is_some res.winner ≡ true → HasTicket res
  mine_one_ticket w api now base account addr s fine won =
      let (ep, is_ep) = some_of (mine_one sf w api now base account addr s).0.winner won in
      (mine_one_complete sf w api now base account addr s ep fine is_ep).1
    where
      some_of : {A : Type 0} (x : Option A) → is_some x ≡ true → (a : A) × (x ≡ some a)
      some_of none h = ground arith
      some_of (some a) h = (a, refl)

  pub collect_tickets :
      (base : MiningBase) (print : MineError → String) (addr : Address) (x : Attempt)
      (a : Attempts S) (errs : List String)
      → ((res : WinPoStRes)
          → x ≡ sent res
          → res.failed ≡ none
          → is_some res.winner ≡ true
          → HasTicket res)
      → All HasTicket a.winners
      → All HasTicket (collect sf base print addr x a errs).0.winners
  unfolding collect
  collect_tickets base print addr timed_out a errs own old = old
  collect_tickets base print addr (sent res) a errs own old =
      collect_sent-tickets base print addr res res.failed a errs (own res refl) old

-- A block that was created has the ticket of its winner.
module _ (w : Wallet) (api : BlockApi) (block_delay : ℕ) (disable_fork_signaling : Bool) where
  check_signed_header :
      (account : Option String) (res : WinPoStRes) (bm made : BlockMsg)
      → check_signed w api block_delay disable_fork_signaling account res bm ≡ ok made
      → made.header ≡ bm.header
  unfolding check_signed sign_block signal_fork
  check_signed_header none res bm made h = ground arith
  check_signed_header (some account) res bm made h = ground arith

  created_then_signed :
      (t : BlockTemplate) (r : Result MineError BlockMsg) (account : Option String)
      (res : WinPoStRes) (made : BlockMsg)
      → api.miner_create_block t ≡ r
      → (r >>= check_signed w api block_delay disable_fork_signaling account res) ≡ ok made
      → made.header ≡ header_of t
  created_then_signed t (err e) account res made q h = ground arith
  created_then_signed t (ok bm) account res made q h =
      let signed = check_signed_header account res bm made h in
      rw signed (api.created_header t bm q)

  pub create_block_header :
      (base : MiningBase) (account : Option String) (res : WinPoStRes) (msgs : List Bytes)
      (made : BlockMsg)
      → create_block w api block_delay disable_fork_signaling base account res msgs ≡ ok made
      → made.header ≡ header_of (template_of w api block_delay disable_fork_signaling base res msgs)
  unfolding create_block
  create_block_header base account res msgs made h =
      created_then_signed (template_of w api block_delay disable_fork_signaling base res msgs) _
        account res made refl h
