-- ===== src/SlashFilter/Mysql/Guard.antt =====
-- node/modules/slashfilter/slashfilter.go: HasBlock and PutBlock against the contract Guards.
use mathlib.Core.Logic.{◌≢◌}
use sophon_miner.Prelude.{
  Bool, Option, Option-cases, Result, [], arith, err, false, inl, inr, none, not, ok, refl, some,
  true, ◌∷◌, ◌≡◌,
}
use sophon_miner.SlashFilter.{DbError, Guards, failure, record_not_found}
use sophon_miner.SlashFilter.Mysql.{
  Table, columns_of, has_block, is_empty, mysql, new_row, put_block, put_found, update_row,
}
use sophon_miner.Types.{
  Address, BlockHeader, Bytes, ChainCodec, ChainEpoch, MinedBlock, StateMining, Time, success,
}

abbrev pub holds_cid : Option MinedBlock → Bool
holds_cid none = false
holds_cid (some r) = not (is_empty r.cid)

nonempty : (b : Bytes) → b ≢ [] → is_empty b ≡ false
nonempty [] h = absurd (h refl)
nonempty (x ∷ b) h = refl

module _ (chain : ChainCodec) where
  -- An update never takes the CID of a row away.
  update_row-holds :
      (bh : BlockHeader) (parent_epoch : ChainEpoch) (state : StateMining) (old : MinedBlock)
      → is_empty old.cid ≡ false
      → is_empty (update_row (columns_of chain bh parent_epoch state) old).cid ≡ false
  unfolding update_row columns_of
  update_row-holds bh pe state old h = ground (
    arith,
    nonempty (chain.cid_string (chain.header_cid bh)) (chain.string_nonempty (chain.header_cid bh)),
  )

  -- A header with a ticket gives its row a CID.
  update_row-ticket :
      (bh : BlockHeader) (parent_epoch : ChainEpoch) (state : StateMining) (old : MinedBlock)
      → bh.ticket ≢ none
      → is_empty (update_row (columns_of chain bh parent_epoch state) old).cid ≡ false
  unfolding update_row columns_of
  update_row-ticket bh pe state old h = ground (
    arith,
    nonempty (chain.cid_string (chain.header_cid bh)) (chain.string_nonempty (chain.header_cid bh)),
  )

  new_row-ticket :
      (bh : BlockHeader) (parent_epoch : ChainEpoch) (t : Time) (state : StateMining)
      → bh.ticket ≢ none
      → is_empty (new_row chain bh parent_epoch t state).cid ≡ false
  unfolding new_row
  new_row-ticket bh pe t state h = ground (
    arith,
    nonempty (chain.cid_string (chain.header_cid bh)) (chain.string_nonempty (chain.header_cid bh)),
  )

module _ {S : Type 0} (chain : ChainCodec) (db : Table S) where
  abbrev taken : S → Address → ChainEpoch → Bool
  taken s m h = holds_cid (db.row s m h)

  has_block-taken :
      (s : S) (bh : BlockHeader) (b : Bool)
      → has_block chain db s bh ≡ ok b
      → b ≡ taken s bh.miner bh.height
  unfolding has_block
  has_block-taken s bh b h = grind (arith, db.take_row, db.take_absent)

  put_found-takes :
      (s : S) (bh : BlockHeader) (parent_epoch : ChainEpoch) (t : Time)
      (q : Result DbError MinedBlock)
      → db.take_epoch s bh.miner bh.height ≡ q
      → bh.ticket ≢ none
      → (put_found chain db s bh parent_epoch t success q).0 ≡ ok tt
      → taken (put_found chain db s bh parent_epoch t success q).1 bh.miner bh.height ≡ true
  unfolding put_found new_row
  put_found-takes s bh pe t (err record_not_found) e ticket done =
      let row = new_row chain bh pe t success in
      ground (arith, db.create_row s row, new_row-ticket chain bh pe t success ticket)
  put_found-takes s bh pe t (err failure) e ticket done = cc
  put_found-takes s bh pe t (ok blk) e ticket done =
      let u = columns_of chain bh pe success in
      ground (
        arith,
        db.update_columns_row s bh.miner bh.height u blk,
        db.take_row s bh.miner bh.height blk e,
        update_row-ticket chain bh pe success blk ticket,
      )

  put_found-keeps :
      (s : S) (bh : BlockHeader) (parent_epoch : ChainEpoch) (t : Time) (state : StateMining)
      (q : Result DbError MinedBlock) (m : Address) (h : ChainEpoch)
      → taken s m h ≡ true
      → taken (put_found chain db s bh parent_epoch t state q).1 m h ≡ true
  unfolding put_found
  put_found-keeps s bh pe t state (err x) m h k = elim (Option-cases (db.row s m h)) [
    | inl absent ↦ ground arith
    | inr (old, there) ↦
        ground (arith, db.create_keeps s (new_row chain bh pe t state) old m h there)
  ]
  put_found-keeps s bh pe t state (ok blk) m h k =
      let u = columns_of chain bh pe state in
      elim (Option-cases (db.row s m h)) [
        | inl absent ↦ ground arith
        | inr (old, there) ↦ ground (
          arith,
          db.update_atomic s bh.miner bh.height u m h old there,
          update_row-holds chain bh pe state old,
        )
      ]

  -- The filter over the table guards: a recorded block takes its height for good.
  pub mysql-Guards : Guards (mysql chain db)
  unfolding put_block new_row
  mysql-Guards = record {
    taken = taken;
    has_taken = has_block-taken;
    put_takes = λ s bh pe t ticket h. put_found-takes s bh pe t _ refl ticket h;
    put_keeps = λ s bh pe t state m h. put_found-keeps s bh pe t state _ m h;
  }
