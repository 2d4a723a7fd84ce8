-- ===== src/Miner/Broadcast/Safety.antt =====
-- miner/multiminer.go, `broadCastBlock`: the blocks that are submitted, under any slash filter.
use sophon_miner.Miner.{MiningBase, parent_height}
use sophon_miner.Miner.Broadcast.{
  Outcome, SubmitAnswers, broadcast, broadcast_all, is_submitted, submitted,
}
use sophon_miner.Prelude.{
  All, All-weaken, Bool-cases, List, [], arith, false, inl, inr, none, ok, true, ◌∷◌, ◌≡◌, ◌≢◌,
}
use sophon_miner.SlashFilter.{Guards, SlashFilterApi}
use sophon_miner.Types.{Address, BlockHeader, ChainEpoch, Time, success}

-- Two headers are for different (miner, height).
abbrev pub Apart : BlockHeader → BlockHeader → Type 0
Apart a b = ¬ ((a.miner ≡ b.miner) × (a.height ≡ b.height))

abbrev pub PairwiseApart : List BlockHeader → Type 0
PairwiseApart [] = Unit
PairwiseApart (a ∷ rest) = All (Apart a) rest × PairwiseApart rest

pub submitted_of : (o : Outcome) → is_submitted o ≡ true → o ≡ submitted
submitted_of o h = ground arith

module _ {S : Type 0} (sf : SlashFilterApi S) (g : Guards sf) where
  -- Nothing that a broadcast does frees a height.
  pub broadcast-keeps :
      (base : MiningBase) (bh : BlockHeader) (answers : SubmitAnswers) (s : S) (m : Address)
      (h : ChainEpoch)
      → g.taken s m h ≡ true
      → g.taken (broadcast sf base bh answers s).1 m h ≡ true
  unfolding broadcast
  broadcast-keeps base bh answers s m h k = grind (arith, g.put_keeps)

  -- A block is submitted only where its height was free.
  pub broadcast-free :
      (base : MiningBase) (bh : BlockHeader) (answers : SubmitAnswers) (s : S)
      → (broadcast sf base bh answers s).0 ≡ submitted
      → g.taken s bh.miner bh.height ≡ false
  unfolding broadcast
  broadcast-free base bh answers s h = grind (arith, g.has_taken)

  -- A recorded submission takes the height.
  pub broadcast-takes :
      (base : MiningBase) (bh : BlockHeader) (answers : SubmitAnswers) (s : S)
      → bh.ticket ≢ none
      → (sf.put_block s bh (parent_height base) none success).0 ≡ ok tt
      → (broadcast sf base bh answers s).0 ≡ submitted
      → g.taken (broadcast sf base bh answers s).1 bh.miner bh.height ≡ true
  unfolding broadcast
  broadcast-takes base bh answers s ticket done h =
      ground (arith, g.put_takes s bh (parent_height base) none ticket done)

  abbrev pub Ticketed : MiningBase × BlockHeader × SubmitAnswers → Type 0
  Ticketed (base, bh, answers) = bh.ticket ≢ none

  -- What is submitted later had a free height before.
  broadcast_all-free :
      (reqs : List (MiningBase × BlockHeader × SubmitAnswers)) (s : S)
      → All (λ b. g.taken s b.miner b.height ≡ false) (broadcast_all sf reqs s).0
  unfolding broadcast_all
  broadcast_all-free [] s = tt
  broadcast_all-free ((base, bh, answers) ∷ rest) s =
      let s' = (broadcast sf base bh answers s).1 in
      let later =
        All-weaken (λ b. g.taken s' b.miner b.height ≡ false)
          (λ b. g.taken s b.miner b.height ≡ false) (λ b free. still b free)
          (broadcast_all sf rest s').0 (broadcast_all-free rest s') in
      elim (Bool-cases (is_submitted (broadcast sf base bh answers s).0)) [
        | inl out ↦ rw out (broadcast-free base bh answers s (submitted_of _ out), later)
        | inr kept ↦ rw kept later
      ]
    where
      still :
          (b : BlockHeader)
          → g.taken (broadcast sf base bh answers s).1 b.miner b.height ≡ false
          → g.taken s b.miner b.height ≡ false
      still b free = ground (arith, broadcast-keeps base bh answers s b.miner b.height)

  Apart-of :
      (s : S) (a b : BlockHeader)
      → g.taken s a.miner a.height ≡ true
      → g.taken s b.miner b.height ≡ false
      → Apart a b
  Apart-of s a b taken free same =
      let freed : g.taken s a.miner a.height ≡ false = rw (same.0, same.1) free in cc

  -- However the submissions are answered, the blocks that are submitted one after another are for
  -- pairwise different heights of their miners: no double-fork mining. It supposes that each block
  -- has a ticket, and that the filter records each mined block without an error.
  pub no_double_fork :
      (reqs : List (MiningBase × BlockHeader × SubmitAnswers)) (s : S)
      → All Ticketed reqs
      → ((s : S) (bh : BlockHeader) (parent_epoch : ChainEpoch) (t : Time)
          → (sf.put_block s bh parent_epoch t success).0 ≡ ok tt)
      → PairwiseApart (broadcast_all sf reqs s).0
  unfolding broadcast_all
  no_double_fork [] s tickets records = tt
  no_double_fork ((base, bh, answers) ∷ rest) s tickets records =
      let s' = (broadcast sf base bh answers s).1 in
      let later = no_double_fork rest s' tickets.1 records in
      elim (Bool-cases (is_submitted (broadcast sf base bh answers s).0)) [
        | inl out ↦
            let mine =
              broadcast-takes base bh answers s tickets.0 (records s bh (parent_height base) none)
                (submitted_of _ out) in
            rw out (
              All-weaken (λ b. g.taken s' b.miner b.height ≡ false) (Apart bh)
                  (λ b free. Apart-of s' bh b mine free) (broadcast_all sf rest s').0
                  (broadcast_all-free rest s'),
              later,
            )
        | inr kept ↦ rw kept later
      ]
