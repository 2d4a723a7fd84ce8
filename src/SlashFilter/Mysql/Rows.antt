-- ===== src/SlashFilter/Mysql/Rows.antt =====
-- node/modules/slashfilter/slashfilter.go: the rows that PutBlock writes and MinedBlock reads.
use sophon_miner.Prelude.{
  [], arith, contains, err, false, if◌then◌else◌, nat_eq, none, ok, refl, some, true, wrap_err,
  wrapped_ok, ◌==◌, ◌≡◌,
}
use sophon_miner.SlashFilter.{db_failed, query_record_failed, record_not_found}
use sophon_miner.SlashFilter.Mysql.{
  Table, check_same_parent_fault, columns_of, is_empty, mined_block, new_row, put_block, update_row,
}
use sophon_miner.Types.{
  BlockHeader, ChainCodec, ChainEpoch, Cid, MinedBlock, StateMining, Time, state_eq, timeout,
}

module _ {S : Type 0} (chain : ChainCodec) (db : Table S) where
  -- A state of a miner that has no row yet creates its row, but a timeout, which may not have won
  -- the round, is refused and records nothing.
  pub put_block-absent :
      (s : S) (bh : BlockHeader) (parent_epoch : ChainEpoch) (t : Time) (state : StateMining)
      → db.take_epoch s bh.miner bh.height ≡ err record_not_found
      → put_block chain db s bh parent_epoch t state ≡ (
          if state == timeout then (err (query_record_failed record_not_found), s) else (
            wrap_err db_failed (db.create s (new_row chain bh parent_epoch t state)).0,
            (db.create s (new_row chain bh parent_epoch t state)).1,
          ))
  unfolding put_block
  put_block-absent s bh pe t state h = ground arith

  -- Where the row of a block is there, a successful `PutBlock` sets its state and parent epoch, and
  -- keeps the time of the win, the parents where the header has none, and the CID where the header
  -- has no ticket.
  pub put_block-row :
      (s : S) (bh : BlockHeader) (parent_epoch : ChainEpoch) (t : Time) (state : StateMining)
      (blk : MinedBlock)
      → db.take_epoch s bh.miner bh.height ≡ ok blk
      → (put_block chain db s bh parent_epoch t state).0 ≡ ok tt
      → (new : MinedBlock) × (db.row
            (put_block chain db s bh parent_epoch t state).1
            bh.miner
            bh.height
          ≡ some new)
        × (new.mine_state ≡ state)
        × (new.parent_epoch ≡ parent_epoch)
        × (new.winning_at ≡ blk.winning_at)
        × (bh.parents ≡ [] → new.parent_key ≡ blk.parent_key)
        × (bh.ticket ≡ none → new.cid ≡ blk.cid)
  unfolding put_block columns_of update_row
  put_block-row s bh pe t state blk taken done =
      let new = update_row (columns_of chain bh pe state) blk in
      (
        new,
        rw taken (
            db.update_columns_row s bh.miner bh.height (columns_of chain bh pe state) blk
              (wrapped_ok db_failed _ (rw taken at done))
              (db.take_row s bh.miner bh.height blk taken)),
        refl,
        refl,
        refl,
        ground arith,
        ground arith,
      )

  -- An accepted block offends against no row that the queries see: the row on its parents that the
  -- query takes, where it has a CID, is the block itself, and a row of its miner at the parent epoch
  -- that has a CID is one of its parents.
  pub mined_block-rows :
      (s : S) (bh : BlockHeader) (parent_epoch : ChainEpoch)
      → mined_block chain db s bh parent_epoch ≡ ok tt
      → ((r : MinedBlock)
          → db.take_parent s bh.miner (chain.tipset_key bh.parents) ≡ ok r
          → is_empty r.cid ≡ false
          → chain.cid_decode r.cid ≡ some (chain.header_cid bh))
        × ((r : MinedBlock)
            → db.row s bh.miner parent_epoch ≡ some r
            → is_empty r.cid ≡ false
            → (c : Cid) × (chain.cid_decode r.cid ≡ some c) × (contains c bh.parents ≡ true))
  unfolding mined_block check_same_parent_fault
  mined_block-rows s bh pe h =
      (λ r q nonempty. ground arith, λ r q nonempty. grind (arith, db.take_row, db.take_absent))
