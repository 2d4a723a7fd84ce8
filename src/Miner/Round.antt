-- ===== src/Miner/Round.antt =====
-- miner/multiminer.go, `mine`: one turn of the mining loop, from the choice of the base to the end
-- of the epoch. The winners of the round and the head that is read after it are arguments.
pub mod Laws
use sophon_miner.Miner.{MiningBase, TipSet, next_height}
use sophon_miner.Prelude.{
  Bool, List, Option, [], false, if◌then◌else◌, list_eq, nat_eq, none, not, some, ◌&&◌, ◌==◌, ◌∷◌,
}
use sophon_miner.Prelude.Int.{int64, int_eq, pos, ◌+ℤ◌}
use sophon_miner.SlashFilter.{SlashFilterApi}
use sophon_miner.Types.{Address, BlockHeader, chain_forked}

-- `m.lastWork`, the cell that the base is, and `lastBase`, the copy of the base mined last.
pub record Loop (S : Type 0) : Type 0 where
  pub last_work : Option MiningBase
  pub last_base : Option MiningBase
  pub filter : S

pub data Turned : Type 0 where
  repeated : MiningBase → Turned
  mined : MiningBase → Turned

-- The header that is recorded for a winner of a forked chain.
abbrev forked_header : MiningBase → Address → BlockHeader
forked_header base addr = record {
  miner = addr;
  height = next_height base;
  parents = [];
  ticket = none;
}

module _ {S : Type 0} (sf : SlashFilterApi S) (same : TipSet → TipSet → Bool) where
  unfoldable pub record_forked : MiningBase → List Address → S → S
  record_forked base [] s = s
  record_forked base (addr ∷ winners) s =
      record_forked base winners
        (sf.put_block s (forked_header base addr) base.tipset.height none chain_forked).1

  pub is_last : Option MiningBase → MiningBase → Bool
  is_last none base = false
  is_last (some last) base = same base.tipset last.tipset && last.null_rounds == base.null_rounds

  -- The head is read again after the proofs: a tipset of the same height with the same lowest ticket
  -- is a better base, another one is a fork.
  unfoldable pub take_head : Option TipSet → MiningBase → List Address → S → MiningBase × S
  take_head none base winners s = (base, s)
  take_head (some ts) base winners s =
      if ts.height == base.tipset.height && not (same ts base.tipset)
      then (if ts.min_ticket == base.tipset.min_ticket
          then (record base { tipset = ts }, s)
          else (base, record_forked base winners s))
      else (base, s)

  -- `base.NullRounds++` of a round without a winner, which writes to the shared cell.
  after_round : MiningBase → List Address → MiningBase
  after_round base [] = record base { null_rounds = int64 (base.null_rounds +ℤ pos 1) }
  after_round base (_ ∷ _) = base

  -- The turn from a base that `latest_base` has chosen.
  unfoldable pub turn_loop : MiningBase → List Address → Option TipSet → Loop S → Turned × Loop S
  unfolding is_last take_head record_forked after_round
  turn_loop base winners head l =
      if is_last l.last_base base
      then (repeated base, record l { last_work = some base })
      else (let (base', s) = take_head head base winners l.filter in
          (
            mined base',
            record {
              last_work = some (after_round base' winners);
              last_base = some base';
              filter = s;
            },
          ))
