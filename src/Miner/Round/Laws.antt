-- ===== src/Miner/Round/Laws.antt =====
-- miner/multiminer.go, `mine`: successive turns of the loop on one head.
use sophon_miner.Miner.{MiningBase, TipSet, next_height}
use sophon_miner.Miner.Candidate.{candidate}
use sophon_miner.Miner.Round.{Loop, after_round, is_last, mined, repeated, take_head, turn_loop}
use sophon_miner.Prelude.{Bool, List, Option, [], arith, false, none, refl, some, true, ◌∷◌, ◌≡◌}
use sophon_miner.Prelude.Int.{
  FitsInt64, add_one-ne, fits_between, int64, int64-of_fits, int_beq, int_beq_iff, int_laws, pos,
  ◌+ℤ◌,
}
use sophon_miner.SlashFilter.{SlashFilterApi}
use sophon_miner.Types.{Address, ChainEpoch}

-- The height of the block on one more null round.
heights :
    (h n : ChainEpoch)
    → FitsInt64 (n +ℤ pos 1)
    → FitsInt64 (h +ℤ n)
    → FitsInt64 (h +ℤ n +ℤ pos 2)
    → int64 (int64 (h +ℤ int64 (n +ℤ pos 1)) +ℤ pos 1) ≡ int64 (int64 (h +ℤ n) +ℤ pos 1) +ℤ pos 1
heights h n f1 f2 f3 =
    let up : h +ℤ (n +ℤ pos 1) ≡ h +ℤ n +ℤ pos 1 = omega int_laws in
    let mid : FitsInt64 (h +ℤ n +ℤ pos 1) =
      fits_between (h +ℤ n) (h +ℤ n +ℤ pos 1) (h +ℤ n +ℤ pos 2) f2 f3 (omega int_laws)
        (omega int_laws) in
    let two : h +ℤ n +ℤ pos 1 +ℤ pos 1 ≡ h +ℤ n +ℤ pos 2 = omega int_laws in
    rw (int64-of_fits _ f1, up, int64-of_fits _ f2, int64-of_fits _ mid, two, int64-of_fits _ f3)

module _ {S : Type 0} (sf : SlashFilterApi S) (same : TipSet → TipSet → Bool)
    (same_refl : (t : TipSet) → same t t ≡ true) where
  take_head-keeps :
      (head : Option TipSet) (base : MiningBase) (winners : List Address) (s : S)
      → ((take_head sf same head base winners s).0.tipset.height ≡ base.tipset.height)
        × ((take_head sf same head base winners s).0.null_rounds ≡ base.null_rounds)
  unfolding take_head
  take_head-keeps none base winners s = (refl, refl)
  take_head-keeps (some ts) base winners s =
      ground (arith, int_beq_iff ts.height base.tipset.height)

  -- What a turn that mines leaves behind: the copy of the base, and the cell.
  turn_loop-mined :
      (base b : MiningBase) (winners : List Address) (head : Option TipSet) (l : Loop S)
      → (turn_loop sf same base winners head l).0 ≡ mined b
      → ((turn_loop sf same base winners head l).1.last_base ≡ some b)
        × ((turn_loop sf same base winners head l).1.last_work
            ≡ some (after_round sf same b winners))
        × (b.tipset.height ≡ base.tipset.height)
        × (b.null_rounds ≡ base.null_rounds)
        × (is_last sf same l.last_base base ≡ false)
  unfolding turn_loop
  turn_loop-mined base b winners head l h =
      ground (arith, take_head-keeps head base winners l.filter)

  repeats_on :
      (b : MiningBase) (later : List Address) (next : Option TipSet) (l : Loop S) (ts : TipSet)
      → l.last_base ≡ some b
      → l.last_work ≡ some b
      → same b.tipset ts ≡ true
      → turn_loop sf same (candidate same l.last_work ts) later next l
        ≡ (repeated b, record l { last_work = some b })
  unfolding turn_loop candidate is_last
  repeats_on b later next l ts last cell on =
      ground (arith, same_refl b.tipset, int_beq_iff b.null_rounds b.null_rounds)

  -- The next null round of the base mined last is mined.
  mines_on :
      (b c : MiningBase) (later : List Address) (next : Option TipSet) (l : Loop S)
      → l.last_base ≡ some b
      → int_beq b.null_rounds c.null_rounds ≡ false
      → (turn_loop sf same c later next l).0 ≡ mined (take_head sf same next c later l.filter).0
  unfolding turn_loop is_last
  mines_on b c later next l last differ = ground arith

  picks :
      (c : MiningBase) (cell : Option MiningBase) (ts : TipSet)
      → cell ≡ some c
      → same c.tipset ts ≡ true
      → candidate same cell ts ≡ c
  unfolding candidate
  picks c cell ts e on = ground arith

  -- After a round with a winner, as long as the head stays, the loop does not mine again on the base,
  -- whichever miners would win.
  pub turn_loop-repeats :
      (base b : MiningBase) (a : Address) (winners later : List Address) (head next : Option TipSet)
      (l : Loop S) (ts : TipSet)
      → (turn_loop sf same base (a ∷ winners) head l).0 ≡ mined b
      → same b.tipset ts ≡ true
      → let l' = (turn_loop sf same base (a ∷ winners) head l).1 in
        turn_loop sf same (candidate same l'.last_work ts) later next l'
        ≡ (repeated b, record l' { last_work = some b })
  unfolding after_round
  turn_loop-repeats base b a winners later head next l ts h on =
      let l' = (turn_loop sf same base (a ∷ winners) head l).1 in
      let (last, cell, _, _, _) = turn_loop-mined base b (a ∷ winners) head l h in
      repeats_on b later next l' ts last cell on

  -- After a round without a winner, as long as the head stays, the loop mines one epoch further up,
  -- where the heights and the count of null rounds fit in an int64.
  pub turn_loop-next_epoch :
      (base b : MiningBase) (later : List Address) (head next : Option TipSet) (l : Loop S)
      (ts : TipSet)
      → (turn_loop sf same base [] head l).0 ≡ mined b
      → same b.tipset ts ≡ true
      → FitsInt64 (b.null_rounds +ℤ pos 1)
      → FitsInt64 (b.tipset.height +ℤ b.null_rounds)
      → FitsInt64 (b.tipset.height +ℤ b.null_rounds +ℤ pos 2)
      → let l' = (turn_loop sf same base [] head l).1 in
        (c : MiningBase) × ((turn_loop sf same (candidate same l'.last_work ts) later next l').0
          ≡ mined c)
        × (next_height c ≡ next_height b +ℤ pos 1)
  unfolding after_round
  turn_loop-next_epoch base b later head next l ts h on f1 f2 f3 =
      let l' = (turn_loop sf same base [] head l).1 in
      let (last, cell, _, _, _) = turn_loop-mined base b [] head l h in
      let c = record b { null_rounds = int64 (b.null_rounds +ℤ pos 1) } in
      let picked : candidate same l'.last_work ts ≡ c = picks c l'.last_work ts cell on in
      let d = (take_head sf same next c later l'.filter).0 in
      let (height, nulls) = take_head-keeps next c later l'.filter in
      (
        d,
        rw picked
            (mines_on b c later next l' last (rw (int64-of_fits _ f1) (add_one-ne b.null_rounds))),
        rw (height, nulls) (heights b.tipset.height b.null_rounds f1 f2 f3),
      )
