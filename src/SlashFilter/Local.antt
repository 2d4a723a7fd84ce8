-- ===== src/SlashFilter/Local.antt =====
-- node/modules/slashfilter/local.go: the slash filter over a key-value store.
-- The two namespaces of the store, and the rendering of a key, are kept as the constructors of Key:
-- /slashfilter/epoch/<miner>/<height> and /slashfilter/parents/<miner>/<tipset key>.
pub mod Guard
pub mod Faults
use sophon_miner.Datastore.{Datastore}
use sophon_miner.Prelude.{
  Bool, Eq, List, Result, arith, contains, err, false, if◌then◌else◌, list_beq_iff, list_eq, nat_eq,
  none, ok, some, true, wrap_err, ◌&&◌, ◌==◌, ◌>>=◌, ◌>>◌, ◌↔◌, ◌≡◌,
}
use sophon_miner.Prelude.Int.{int_beq_iff, int_eq}
use sophon_miner.SlashFilter.{
  FilterError, SlashFilterApi, bad_cid, getting_cid_failed, list_not_supported,
  parent_grinding_fault, putting_failed, store_failed, time_offset_fault,
}
use sophon_miner.Types.{
  Address, BlockHeader, BlocksQueryParams, Bytes, ChainCodec, ChainEpoch, Cid, MinedBlock,
  StateMining, Time, success,
}

pub data Key : Type 0 where
  by_epoch : Address → ChainEpoch → Key
  by_parents : Address → Bytes → Key

abbrev key_beq : Key → Key → Bool
key_beq (by_epoch m h) (by_epoch n k) = m == n && h == k
key_beq (by_epoch m h) (by_parents n k) = false
key_beq (by_parents m h) (by_epoch n k) = false
key_beq (by_parents m h) (by_parents n k) = m == n && h == k

pub key_beq_iff : (a b : Key) → (key_beq a b ≡ true) ↔ (a ≡ b)
key_beq_iff (by_epoch m h) (by_epoch n k) = ground (arith, int_beq_iff h k)
key_beq_iff (by_epoch m h) (by_parents n k) = ground arith
key_beq_iff (by_parents m h) (by_epoch n k) = ground arith
key_beq_iff (by_parents m h) (by_parents n k) = ground (arith, list_beq_iff h k)

instance abbrev pub key_eq : Eq Key
key_eq = record { beq = key_beq; beq_iff = key_beq_iff }

module _ {S : Type 0} (chain : ChainCodec) (ds : Datastore Key S) where
  unfoldable pub has_block : S → BlockHeader → Result FilterError Bool
  has_block s bh = wrap_err store_failed (ds.has s (by_epoch bh.miner bh.height))

  parents_key : BlockHeader → Key
  parents_key bh = by_parents bh.miner (chain.tipset_key bh.parents)

  -- The first `Put` is in `r`: the second is made if it returned no error.
  put_epoch : Result FilterError (Unit {0}) × S → BlockHeader → Result FilterError (Unit {0}) × S
  put_epoch (err e, s) bh = (err e, s)
  put_epoch (ok u, s) bh =
      let (r, s') =
        ds.put s (by_epoch bh.miner bh.height) (chain.cid_bytes (chain.header_cid bh)) in
      (wrap_err putting_failed r, s')

  -- Only a block that was mined with success is recorded.
  unfoldable pub put_block :
      S → BlockHeader → ChainEpoch → Time → StateMining → Result FilterError (Unit {0}) × S
  unfolding put_epoch parents_key
  put_block s bh parent_epoch t success =
      let (r, s') = ds.put s (parents_key bh) (chain.cid_bytes (chain.header_cid bh)) in
      put_epoch (wrap_err putting_failed r, s') bh
  put_block s bh parent_epoch t _ = (ok tt, s)

  decode : Bytes → Result FilterError Cid
  decode b = elim (chain.cid_from_bytes b) [ none ↦ err bad_cid | some c ↦ ok c ]

  -- `checkFault`, once there is an entry.
  compare_stored : S → Key → BlockHeader → Result FilterError (Unit {0})
  unfolding decode
  compare_stored s k bh = do
    cidb ← wrap_err getting_cid_failed (ds.get s k)
    other ← decode cidb
    if other == chain.header_cid bh
        then ok tt
        else err (time_offset_fault bh.miner (chain.header_cid bh) other)

  unfoldable pub check_fault : S → Key → BlockHeader → Result FilterError (Unit {0})
  unfolding compare_stored
  check_fault s k bh = do
    fault ← wrap_err store_failed (ds.has s k)
    if fault then compare_stored s k bh else ok tt

  -- Parent grinding: a block of ours at the parent epoch has to be among the parents.
  find_parent : S → BlockHeader → ChainEpoch → Result FilterError (Unit {0})
  unfolding decode
  find_parent s bh parent_epoch = do
    cidb ← wrap_err getting_cid_failed (ds.get s (by_epoch bh.miner parent_epoch))
    parent ← decode cidb
    if contains parent bh.parents
        then ok tt
        else err (parent_grinding_fault bh.miner (chain.header_cid bh) parent)

  unfoldable pub check_parent : S → BlockHeader → ChainEpoch → Result FilterError (Unit {0})
  unfolding find_parent
  check_parent s bh parent_epoch = do
    have ← wrap_err store_failed (ds.has s (by_epoch bh.miner parent_epoch))
    if have then find_parent s bh parent_epoch else ok tt

  unfoldable pub mined_block : S → BlockHeader → ChainEpoch → Result FilterError (Unit {0})
  unfolding parents_key
  mined_block s bh parent_epoch = do
    check_fault s (parents_key bh) bh
    check_parent s bh parent_epoch

  pub list_block : S → BlocksQueryParams → Result FilterError (List MinedBlock)
  list_block s params = err list_not_supported

  abbrev pub local : SlashFilterApi S
  local = record {
    has_block = has_block;
    mined_block = mined_block;
    put_block = put_block;
    list_block = list_block;
  }
