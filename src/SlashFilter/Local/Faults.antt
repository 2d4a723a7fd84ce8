-- ===== src/SlashFilter/Local/Faults.antt =====
-- node/modules/slashfilter/local.go: MinedBlock on what PutBlock has stored.
use sophon_miner.Datastore.{Datastore}
use sophon_miner.Prelude.{
  Bool, Option-cases, Result, arith, contains, err, false, inl, inr, nat_eq, ok, refl, some, true,
  ◌>>◌, ◌≡◌, ◌≢◌,
}
use sophon_miner.SlashFilter.{FilterError}
use sophon_miner.SlashFilter.Local.{
  Key, by_epoch, by_parents, check_fault, check_parent, mined_block, parents_key, put_block,
}
use sophon_miner.SlashFilter.Local.Guard.{view-put_block, view-put_block_parents}
use sophon_miner.Types.{BlockHeader, Bytes, ChainCodec, ChainEpoch, Cid, Time, success}

module _ {S : Type 0} (chain : ChainCodec) (ds : Datastore Key S) where
  check_fault_sound :
      (s : S) (k : Key) (bh : BlockHeader) (b : Bytes)
      → check_fault chain ds s k bh ≡ ok tt
      → ds.view s k ≡ some b
      → chain.cid_from_bytes b ≡ some (chain.header_cid bh)
  unfolding check_fault
  check_fault_sound s k bh b h v = grind (arith, ds.has_view, ds.get_view)

  check_parent_sound :
      (s : S) (bh : BlockHeader) (parent_epoch : ChainEpoch) (b : Bytes)
      → check_parent chain ds s bh parent_epoch ≡ ok tt
      → ds.view s (by_epoch bh.miner parent_epoch) ≡ some b
      → (c : Cid) × (chain.cid_from_bytes b ≡ some c) × (contains c bh.parents ≡ true)
  unfolding check_parent
  check_parent_sound s bh pe b h v = grind (arith, ds.has_view, ds.get_view)

  -- An accepted block offends against no record: whatever is stored under its parents is the block
  -- itself, and whatever is stored for its miner at the parent epoch is one of its parents.
  pub mined_block_sound :
      (s : S) (bh : BlockHeader) (parent_epoch : ChainEpoch)
      → mined_block chain ds s bh parent_epoch ≡ ok tt
      → ((b : Bytes)
          → ds.view s (by_parents bh.miner (chain.tipset_key bh.parents)) ≡ some b
          → chain.cid_from_bytes b ≡ some (chain.header_cid bh))
        × ((b : Bytes)
            → ds.view s (by_epoch bh.miner parent_epoch) ≡ some b
            → (c : Cid) × (chain.cid_from_bytes b ≡ some c) × (contains c bh.parents ≡ true))
  unfolding mined_block parents_key
  mined_block_sound s bh pe h =
      let (fault_ok, parent_ok) =
        both (check_fault chain ds s (by_parents bh.miner (chain.tipset_key bh.parents)) bh)
          (check_parent chain ds s bh pe) h in
      (
        λ b v. check_fault_sound s _ bh b fault_ok v,
        λ b v. check_parent_sound s bh pe b parent_ok v,
      )
    where
      both : (m n : Result FilterError (Unit {0})) → (m >> n) ≡ ok tt → (m ≡ ok tt) × (n ≡ ok tt)
      both (ok u) n e = (refl, e)
      both (err x) n e = cc

  -- After a block is recorded, another block of its miner on the same parents is refused: the two
  -- would be a time-offset mining fault.
  pub time_offset-refused :
      (s : S) (a b : BlockHeader) (pa pb : ChainEpoch) (t : Time)
      → (put_block chain ds s a pa t success).0 ≡ ok tt
      → b.miner ≡ a.miner
      → chain.tipset_key b.parents ≡ chain.tipset_key a.parents
      → chain.header_cid b ≢ chain.header_cid a
      → mined_block chain ds (put_block chain ds s a pa t success).1 b pb ≢ ok tt
  time_offset-refused s a b pa pb t done same_miner same_parents other accepted =
      let stored : ds.view (put_block chain ds s a pa t success).1
            (by_parents b.miner (chain.tipset_key b.parents))
          ≡ some (chain.cid_bytes (chain.header_cid a)) =
        rw (same_miner, same_parents) (view-put_block_parents chain ds s a pa t done) in
      let own = (mined_block_sound _ b pb accepted).0 _ stored in
      other (ground (arith, chain.from_bytes_bytes (chain.header_cid a)))

  -- After a block is recorded, a block of its miner whose parent epoch is that block's height, and
  -- whose parents do not hold it, is refused: it would be a parent-grinding fault.
  pub parent_grinding-refused :
      (s : S) (a b : BlockHeader) (pa : ChainEpoch) (t : Time)
      → (put_block chain ds s a pa t success).0 ≡ ok tt
      → b.miner ≡ a.miner
      → contains (chain.header_cid a) b.parents ≡ false
      → mined_block chain ds (put_block chain ds s a pa t success).1 b a.height ≢ ok tt
  parent_grinding-refused s a b pa t done same_miner away accepted =
      let (c, decoded, inside) =
        (mined_block_sound _ b a.height accepted).1 (chain.cid_bytes (chain.header_cid a))
          (rw same_miner (view-put_block chain ds s a pa t done)) in
      cc (chain.from_bytes_bytes (chain.header_cid a))

  check_fault_complete :
      (s : S) (k : Key) (bh : BlockHeader) {fault : Bool}
      → ds.has s k ≡ ok fault
      → ((b : Bytes) → ds.view s k ≡ some b → ds.get s k ≡ ok b)
      → ((b : Bytes) → ds.view s k ≡ some b → chain.cid_from_bytes b ≡ some (chain.header_cid bh))
      → check_fault chain ds s k bh ≡ ok tt
  unfolding check_fault
  check_fault_complete s k bh {fault} hf reads own = elim (Option-cases (ds.view s k)) [
    | inl e ↦ ground (arith, ds.has_view s k fault hf)
    | inr (b, e) ↦ ground (arith, ds.has_view s k fault hf, reads b e, own b e)
  ]

  check_parent_complete :
      (s : S) (bh : BlockHeader) (parent_epoch : ChainEpoch) {have : Bool}
      → ds.has s (by_epoch bh.miner parent_epoch) ≡ ok have
      → ((b : Bytes)
          → ds.view s (by_epoch bh.miner parent_epoch) ≡ some b
          → ds.get s (by_epoch bh.miner parent_epoch) ≡ ok b)
      → ((b : Bytes)
          → ds.view s (by_epoch bh.miner parent_epoch) ≡ some b
          → (c : Cid) × (chain.cid_from_bytes b ≡ some c) × (contains c bh.parents ≡ true))
      → check_parent chain ds s bh parent_epoch ≡ ok tt
  unfolding check_parent
  check_parent_complete s bh pe {have} hh reads inside =
      let k = by_epoch bh.miner pe in
      elim (Option-cases (ds.view s k)) [
        | inl e ↦ ground (arith, ds.has_view s k have hh)
        | inr (b, e) ↦ ground (arith, ds.has_view s k have hh, reads b e, inside b e)
      ]

  -- The other way round: where the reads return what is stored, a block that offends against no
  -- record is accepted.
  pub mined_block_complete :
      (s : S) (bh : BlockHeader) (parent_epoch : ChainEpoch) {fault have : Bool}
      → ds.has s (by_parents bh.miner (chain.tipset_key bh.parents)) ≡ ok fault
      → ds.has s (by_epoch bh.miner parent_epoch) ≡ ok have
      → ((k : Key) (b : Bytes) → ds.view s k ≡ some b → ds.get s k ≡ ok b)
      → ((b : Bytes)
          → ds.view s (by_parents bh.miner (chain.tipset_key bh.parents)) ≡ some b
          → chain.cid_from_bytes b ≡ some (chain.header_cid bh))
      → ((b : Bytes)
          → ds.view s (by_epoch bh.miner parent_epoch) ≡ some b
          → (c : Cid) × (chain.cid_from_bytes b ≡ some c) × (contains c bh.parents ≡ true))
      → mined_block chain ds s bh parent_epoch ≡ ok tt
  unfolding mined_block parents_key
  mined_block_complete s bh pe hf hh reads own inside = ground (
    arith,
    check_fault_complete s (by_parents bh.miner (chain.tipset_key bh.parents)) bh hf (reads _) own,
    check_parent_complete s bh pe hh (reads _) inside,
  )
