-- ===== src/Miner/Candidate/Laws.antt =====
-- miner/multiminer.go, `getLatestBase`: when the loop ends, and what it returns.
use sophon_miner.Miner.{MiningBase, TipSet}
use sophon_miner.Miner.Candidate.{
  Turn, candidate, chosen, is_stable, latest_base, read_head, wait_turn,
}
use sophon_miner.Prelude.{
  Bool, List, Option, Option-cases, [], arith, inl, inr, none, some, true, ◌∷◌, ◌≡◌,
}
use sophon_miner.Prelude.Int.{int_beq_iff}

module _ (same : TipSet → TipSet → Bool) (same_refl : (t : TipSet) → same t t ≡ true) where
  candidate_again :
      (cell : Option MiningBase) (head : TipSet)
      → candidate same (some (candidate same cell head)) head ≡ candidate same cell head
  unfolding candidate
  candidate_again none head = ground (arith, same_refl head)
  candidate_again (some b) head = ground (arith, same_refl head)

  is_stable_refl : (b : MiningBase) → is_stable (some b) b ≡ true
  unfolding is_stable
  is_stable_refl b =
      ground (
        arith,
        int_beq_iff b.tipset.height b.tipset.height,
        int_beq_iff b.null_rounds b.null_rounds,
      )

  -- Once the head is the same in two successive turns, and the first waited and found its beacon
  -- entry, the loop ends with the base on that head, whatever went before.
  pub latest_base-stable :
      (first second : Turn) (rest : List Turn) (cell base : Option MiningBase) (head : TipSet)
      → first.head ≡ some head
      → second.head ≡ some head
      → first.waited ≡ true
      → first.beacon ≡ true
      → latest_base same (first ∷ second ∷ rest) cell base
        ≡ (chosen (candidate same cell head), some (candidate same cell head))
  unfolding latest_base read_head wait_turn
  latest_base-stable first second rest cell base head h1 h2 w b =
      let c = candidate same cell head in
      ground (arith, is_stable_refl c, candidate_again cell head)

  -- A base that is returned is the shared cell.
  pub latest_base-cell :
      (turns : List Turn) (cell base : Option MiningBase) (b : MiningBase)
      → (latest_base same turns cell base).0 ≡ chosen b
      → (latest_base same turns cell base).1 ≡ some b
  unfolding latest_base read_head wait_turn
  latest_base-cell [] cell base b h = ground arith
  latest_base-cell (turn ∷ turns) cell base b h = elim (Option-cases turn.head) [
    | inl e ↦ ground arith
    | inr (head, e) ↦
        let c = candidate same cell head in
        let on = latest_base-cell turns (some c) (some c) b in
        let off = latest_base-cell turns (some c) base b in ground arith
  ]
