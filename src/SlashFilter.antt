-- ===== src/SlashFilter.antt =====
-- node/modules/slashfilter/api.go: the interface of the slash filter, its errors, and what its
-- clients rely on. Local and Mysql are the two implementations.
pub mod Local
pub mod Mysql
use sophon_miner.Prelude.{◌≡◌, ◌≢◌, Bool, true, none, List, Result, ok}
use sophon_miner.Types.{
  Address, Cid, ChainEpoch, Time, StateMining, success, BlockHeader, BlocksQueryParams, MinedBlock,
}
use sophon_miner.Datastore.{Fault}

-- The errors of gorm: ErrRecordNotFound, and any other.
pub data DbError : Type 0 where
  record_not_found : DbError
  failure : DbError

pub data FilterError : Type 0 where
  store_failed : Fault → FilterError
  getting_cid_failed : Fault → FilterError
  putting_failed : Fault → FilterError
  db_failed : DbError → FilterError
  query_record_failed : DbError → FilterError
  bad_cid : FilterError
  time_offset_fault : Address → Cid → Cid → FilterError
  double_fork_fault : Address → Cid → Cid → FilterError
  parent_grinding_fault : Address → Cid → Cid → FilterError
  list_not_supported : FilterError

pub record SlashFilterApi (S : Type 0) : Type 0 where
  pub has_block : S → BlockHeader → Result FilterError Bool
  pub mined_block : S → BlockHeader → ChainEpoch → Result FilterError (Unit {0})
  pub put_block :
      S → BlockHeader → ChainEpoch → Time → StateMining → Result FilterError (Unit {0}) × S
  pub list_block : S → BlocksQueryParams → Result FilterError (List MinedBlock)

-- What the miner relies on: `has_block` tells whether the (miner, height) of the block is taken,
-- recording a block as mined takes it, and nothing frees it.
pub record Guards {S : Type 0} (f : SlashFilterApi S) : Type 0 where
  pub taken : S → Address → ChainEpoch → Bool
  pub has_taken :
      (s : S) (bh : BlockHeader) (b : Bool)
      → f.has_block s bh ≡ ok b
      → b ≡ taken s bh.miner bh.height
  pub put_takes :
      (s : S) (bh : BlockHeader) (parent_epoch : ChainEpoch) (t : Time)
      → bh.ticket ≢ none
      → (f.put_block s bh parent_epoch t success).0 ≡ ok tt
      → taken (f.put_block s bh parent_epoch t success).1 bh.miner bh.height ≡ true
  pub put_keeps :
      (s : S) (bh : BlockHeader) (parent_epoch : ChainEpoch) (t : Time) (state : StateMining)
      (m : Address) (h : ChainEpoch)
      → taken s m h ≡ true
      → taken (f.put_block s bh parent_epoch t state).1 m h ≡ true
