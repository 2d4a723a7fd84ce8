-- ===== src/SlashFilter/Mysql.antt =====
-- node/modules/slashfilter/slashfilter.go: the slash filter over the table miner_blocks.
-- The table is gorm's: its operations, and the behaviour that gorm and SQL document, are a record
-- over an abstract state. (miner, epoch) is the primary key.
pub mod Rows
pub mod Guard
use sophon_miner.Prelude.{
  Bool, List, Option, Result, [], contains, err, false, if◌then◌else◌, nat_eq, none, not, ok, some,
  true, wrap_err, ◌&&◌, ◌==◌, ◌>>=◌, ◌>>◌, ◌∷◌, ◌≡◌, ◌≢◌, ◌⊎◌,
}
use sophon_miner.Prelude.Int.{ltb_ℤ, pos, ℤ}
use sophon_miner.SlashFilter.{
  DbError, FilterError, SlashFilterApi, bad_cid, db_failed, double_fork_fault, failure,
  parent_grinding_fault, query_record_failed, record_not_found, time_offset_fault,
}
use sophon_miner.Types.{
  Address, BlockHeader, BlocksQueryParams, Bytes, ChainCodec, ChainEpoch, Cid, MinedBlock,
  StateMining, Time, state_eq, timeout,
}

-- The map of columns that `UpdateColumns` is given; a column that is not in the map is `none`.
pub record Columns : Type 0 where
  pub parent_epoch : ChainEpoch
  pub parent_key : Option Bytes
  pub mine_state : StateMining
  pub cid : Option Bytes

abbrev or_keep : Option Bytes → Bytes → Bytes
or_keep none old = old
or_keep (some v) old = v

-- UPDATE: the columns that are given, the others as they were.
unfoldable pub update_row : Columns → MinedBlock → MinedBlock
update_row u row = record row {
  parent_epoch = u.parent_epoch;
  parent_key = or_keep u.parent_key row.parent_key;
  mine_state = u.mine_state;
  cid = or_keep u.cid row.cid;
}

pub record Table (S : Type 0) : Type 0 where
  -- Take(&blk, "miner=? and epoch=?")
  pub take_epoch : S → Address → ChainEpoch → Result DbError MinedBlock
  -- Take(&blk, "miner=? and parent_key=?")
  pub take_parent : S → Address → Bytes → Result DbError MinedBlock
  pub create : S → MinedBlock → Result DbError (Unit {0}) × S
  -- Where("miner=? and epoch=?").UpdateColumns
  pub update_columns : S → Address → ChainEpoch → Columns → Result DbError (Unit {0}) × S
  -- ORDER BY epoch DESC, with the conditions that are given.
  pub find : S → Option (List Address) → Option ℤ → Option ℤ → Result DbError (List MinedBlock)
  -- The row at a primary key.
  pub row : S → Address → ChainEpoch → Option MinedBlock
  pub take_row :
      (s : S) (m : Address) (h : ChainEpoch) (r : MinedBlock)
      → take_epoch s m h ≡ ok r
      → row s m h ≡ some r
  pub take_absent :
      (s : S) (m : Address) (h : ChainEpoch)
      → take_epoch s m h ≡ err record_not_found
      → row s m h ≡ none
  pub parent_absent :
      (s : S) (m : Address) (p : Bytes) (h : ChainEpoch) (r : MinedBlock)
      → take_parent s m p ≡ err record_not_found
      → row s m h ≡ some r
      → r.parent_key ≢ p
  pub create_row :
      (s : S) (r : MinedBlock)
      → (create s r).0 ≡ ok tt
      → row (create s r).1 r.miner r.epoch ≡ some r
  -- INSERT leaves the rows that there are.
  pub create_keeps :
      (s : S) (r old : MinedBlock) (m : Address) (h : ChainEpoch)
      → row s m h ≡ some old
      → row (create s r).1 m h ≡ some old
  pub update_columns_row :
      (s : S) (m : Address) (h : ChainEpoch) (u : Columns) (old : MinedBlock)
      → (update_columns s m h u).0 ≡ ok tt
      → row s m h ≡ some old
      → row (update_columns s m h u).1 m h ≡ some (update_row u old)
  pub update_atomic :
      (s : S) (m : Address) (h : ChainEpoch) (u : Columns) (n : Address) (k : ChainEpoch)
      (old : MinedBlock)
      → row s n k ≡ some old
      → (row (update_columns s m h u).1 n k ≡ some old)
        ⊎ (row (update_columns s m h u).1 n k ≡ some (update_row u old))

-- Go's `err == gorm.ErrRecordNotFound`
abbrev is_not_found : DbError → Bool
is_not_found record_not_found = true
is_not_found failure = false

abbrev pub is_empty : Bytes → Bool
is_empty [] = true
is_empty (_ ∷ _) = false

-- `len(blk.Cid) > 0`
blk_has_cid : Result DbError MinedBlock → Result FilterError Bool
blk_has_cid (ok blk) = ok (not (is_empty blk.cid))
blk_has_cid (err record_not_found) = ok false
blk_has_cid (err failure) = err (db_failed failure)

module _ (chain : ChainCodec) where
  decode : Bytes → Result FilterError Cid
  decode b = elim (chain.cid_decode b) [ none ↦ err bad_cid | some c ↦ ok c ]

  -- The comparison that `checkSameHeightFault` and `checkSameParentFault` share, after the query.
  compare_found :
      (Address → Cid → Cid → FilterError)
      → BlockHeader
      → Result DbError MinedBlock
      → Result FilterError (Unit {0})
  unfolding decode
  compare_found fault bh (err record_not_found) = ok tt
  compare_found fault bh (err failure) = err (db_failed failure)
  compare_found fault bh (ok blk) =
      if is_empty blk.cid
      then ok tt
      else (decode blk.cid >>= λ other.
          if other == chain.header_cid bh
          then ok tt
          else err (fault bh.miner (chain.header_cid bh) other))

  -- Parent grinding, after the query for the row at the parent epoch.
  find_parent : BlockHeader → Result DbError MinedBlock → Result FilterError (Unit {0})
  unfolding decode
  find_parent bh (err record_not_found) = ok tt
  find_parent bh (err failure) = err (db_failed failure)
  find_parent bh (ok blk) =
      if is_empty blk.cid
      then ok tt
      else (decode blk.cid >>= λ parent.
          if contains parent bh.parents
          then ok tt
          else err (parent_grinding_fault bh.miner (chain.header_cid bh) parent))

  -- The CID column of a block: known once the block has a ticket.
  ticket_cid : BlockHeader → Option Bytes
  ticket_cid bh = elim bh.ticket [
    | none ↦ none
    | some _ ↦ some (chain.cid_string (chain.header_cid bh))
  ]

  -- The row that `PutBlock` creates.
  unfoldable pub new_row : BlockHeader → ChainEpoch → Time → StateMining → MinedBlock
  unfolding ticket_cid
  new_row bh parent_epoch t state = record {
    parent_epoch = parent_epoch;
    parent_key = chain.tipset_key bh.parents;
    epoch = bh.height;
    miner = bh.miner;
    cid = or_keep (ticket_cid bh) [];
    winning_at = t;
    mine_state = state;
    consuming = pos 0;
  }

  unfoldable pub columns_of : BlockHeader → ChainEpoch → StateMining → Columns
  unfolding ticket_cid
  columns_of bh parent_epoch state = record {
    parent_epoch = parent_epoch;
    parent_key = elim bh.parents [ [] ↦ none | _ ∷ _ ↦ some (chain.tipset_key bh.parents) ];
    mine_state = state;
    cid = ticket_cid bh;
  }

module _ {S : Type 0} (chain : ChainCodec) (db : Table S) where
  unfoldable pub has_block : S → BlockHeader → Result FilterError Bool
  unfolding blk_has_cid
  has_block s bh = blk_has_cid (db.take_epoch s bh.miner bh.height)

  -- Double-fork mining: not called by `mined_block`, which leaves the check to `has_block`.
  check_same_height_fault : S → BlockHeader → Result FilterError (Unit {0})
  unfolding compare_found
  check_same_height_fault s bh =
      compare_found chain double_fork_fault bh (db.take_epoch s bh.miner bh.height)

  unfoldable pub check_same_parent_fault : S → BlockHeader → Result FilterError (Unit {0})
  unfolding compare_found
  check_same_parent_fault s bh =
      compare_found chain time_offset_fault bh
        (db.take_parent s bh.miner (chain.tipset_key bh.parents))

  unfoldable pub mined_block : S → BlockHeader → ChainEpoch → Result FilterError (Unit {0})
  unfolding find_parent
  mined_block s bh parent_epoch = do
    check_same_parent_fault s bh
    find_parent chain bh (db.take_epoch s bh.miner parent_epoch)

  put_found :
      S
      → BlockHeader
      → ChainEpoch
      → Time
      → StateMining
      → Result DbError MinedBlock
      → Result FilterError (Unit {0}) × S
  put_found s bh parent_epoch t state (err e) =
      if is_not_found e && not (state == timeout)
      then (let (r, s') = db.create s (new_row chain bh parent_epoch t state) in
          (wrap_err db_failed r, s'))
      else (err (query_record_failed e), s)
  put_found s bh parent_epoch t state (ok blk) =
      let (r, s') =
        db.update_columns s bh.miner bh.height (columns_of chain bh parent_epoch state) in
      (wrap_err db_failed r, s')

  unfoldable pub put_block :
      S → BlockHeader → ChainEpoch → Time → StateMining → Result FilterError (Unit {0}) × S
  unfolding put_found
  put_block s bh parent_epoch t state =
      put_found s bh parent_epoch t state (db.take_epoch s bh.miner bh.height)

  -- `ListBlock` adds a condition to the query for each parameter that is set.
  pub list_block : S → BlocksQueryParams → Result FilterError (List MinedBlock)
  list_block s params = wrap_err db_failed (
      db.find s (if is_empty params.miners then none else some params.miners)
        (if ltb_ℤ (pos 0) params.limit then some params.limit else none)
        (if ltb_ℤ (pos 0) params.offset then some params.offset else none))

  abbrev pub mysql : SlashFilterApi S
  mysql = record {
    has_block = has_block;
    mined_block = mined_block;
    put_block = put_block;
    list_block = list_block;
  }
