-- ===== src/Miner.antt =====
-- miner: the mining loop and the operations on the set of miners.
-- This file holds the values that its parts share.
pub mod Prover
pub mod Broadcast
pub mod Candidate
pub mod Round
pub mod Winner
pub mod MineOne
pub mod Attempts
pub mod Manage
pub mod Reorg
pub mod Create
pub mod Rounds
pub mod Winners
pub mod Randomness
pub mod Sync
pub mod Warmup
pub mod Lifecycle
use sophon_miner.Prelude.{List, ℕ}
use sophon_miner.Prelude.Int.{int64, pos, ◌+ℤ◌}
use sophon_miner.Types.{Bytes, ChainEpoch, Cid}

-- A tipset of the chain library, in the fields that the miner reads.
pub record TipSet : Type 0 where
  pub key : List Cid
  pub height : ChainEpoch
  pub min_timestamp : ℕ  -- uint64, seconds
  pub min_ticket : Bytes

-- The tipset to build upon, and the empty epochs on top of it.
pub record MiningBase : Type 0 where
  pub tipset : TipSet
  pub null_rounds : ChainEpoch

-- base.TipSet.Height() + base.NullRounds
abbrev pub parent_height : MiningBase → ChainEpoch
parent_height base = int64 (base.tipset.height +ℤ base.null_rounds)

-- base.TipSet.Height() + base.NullRounds + 1
abbrev pub next_height : MiningBase → ChainEpoch
next_height base = int64 (int64 (base.tipset.height +ℤ base.null_rounds) +ℤ pos 1)
