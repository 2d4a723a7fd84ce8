-- ===== src/SlashFilter/Local/Guard.antt =====
-- node/modules/slashfilter/local.go: HasBlock and PutBlock against the contract Guards.
use sophon_miner.Datastore.{Datastore}
use sophon_miner.Prelude.{
  Bool, Bool-cases, Result, arith, err, inl, inr, is_some, ok, refl, some, true, wrapped_ok, ◌==◌,
  ◌≡◌,
}
use sophon_miner.SlashFilter.{FilterError, Guards}
use sophon_miner.SlashFilter.Local.{
  Key, by_epoch, by_parents, has_block, key_beq_iff, key_eq, local, parents_key, put_block,
  put_epoch,
}
use sophon_miner.Types.{
  Address, BlockHeader, Bytes, ChainCodec, ChainEpoch, StateMining, Time, success,
}

module _ {S : Type 0} (chain : ChainCodec) (ds : Datastore Key S) where
  abbrev pub taken : S → Address → ChainEpoch → Bool
  taken s m h = is_some (ds.view s (by_epoch m h))

  has_block-taken :
      (s : S) (bh : BlockHeader) (b : Bool)
      → has_block chain ds s bh ≡ ok b
      → b ≡ taken s bh.miner bh.height
  unfolding has_block
  has_block-taken s bh b h = ground (arith, ds.has_view s (by_epoch bh.miner bh.height) b)

  put_epoch-takes :
      (r : Result FilterError (Unit {0})) (s : S) (bh : BlockHeader)
      → (put_epoch chain ds (r, s) bh).0 ≡ ok tt
      → ds.view (put_epoch chain ds (r, s) bh).1 (by_epoch bh.miner bh.height)
        ≡ some (chain.cid_bytes (chain.header_cid bh))
  unfolding put_epoch
  put_epoch-takes (ok u) s bh h =
      ground
        (arith, ds.put_self s (by_epoch bh.miner bh.height) (chain.cid_bytes (chain.header_cid bh)))
  put_epoch-takes (err x) s bh h = cc

  -- A block recorded as mined is stored under its own height.
  pub view-put_block :
      (s : S) (bh : BlockHeader) (parent_epoch : ChainEpoch) (t : Time)
      → (put_block chain ds s bh parent_epoch t success).0 ≡ ok tt
      → ds.view (put_block chain ds s bh parent_epoch t success).1 (by_epoch bh.miner bh.height)
        ≡ some (chain.cid_bytes (chain.header_cid bh))
  unfolding put_block
  view-put_block s bh pe t h = put_epoch-takes _ _ bh h

  put_epoch-view_parents :
      (r : Result FilterError (Unit {0})) (s : S) (bh : BlockHeader) (m : Address) (p : Bytes)
      → ds.view (put_epoch chain ds (r, s) bh).1 (by_parents m p) ≡ ds.view s (by_parents m p)
  unfolding put_epoch
  put_epoch-view_parents (ok u) s bh m p =
      ds.put_ne s (by_epoch bh.miner bh.height) (by_parents m p) _ (λ e. cc)
  put_epoch-view_parents (err x) s bh m p = refl

  first_put :
      (r : Result FilterError (Unit {0})) (s : S) (bh : BlockHeader)
      → (put_epoch chain ds (r, s) bh).0 ≡ ok tt
      → r ≡ ok tt
  unfolding put_epoch
  first_put (ok tt) s bh h = refl
  first_put (err x) s bh h = cc

  -- A block recorded as mined is stored under its parents.
  pub view-put_block_parents :
      (s : S) (bh : BlockHeader) (parent_epoch : ChainEpoch) (t : Time)
      → (put_block chain ds s bh parent_epoch t success).0 ≡ ok tt
      → ds.view
          (put_block chain ds s bh parent_epoch t success).1
          (by_parents bh.miner (chain.tipset_key bh.parents))
        ≡ some (chain.cid_bytes (chain.header_cid bh))
  unfolding put_block parents_key
  view-put_block_parents s bh pe t h =
      rw put_epoch-view_parents (ds.put_self s _ _ (wrapped_ok _ _ (first_put _ _ bh h)))

  -- A write to the store keeps every entry that there is.
  put-keeps :
      (s : S) (k j : Key) (v : Bytes)
      → is_some (ds.view s j) ≡ true
      → is_some (ds.view (ds.put s k v).1 j) ≡ true
  put-keeps s k j v h = elim (Bool-cases (k == j)) [
    | inl same ↦ let e = (key_beq_iff k j).0 same in ground (arith, e, ds.put_atomic s k v)
    | inr other ↦ rw (ds.put_ne s k j v (λ p. ground (arith, key_beq_iff k j))) h
  ]

  put_epoch-keeps :
      (r : Result FilterError (Unit {0})) (s : S) (bh : BlockHeader) (j : Key)
      → is_some (ds.view s j) ≡ true
      → is_some (ds.view (put_epoch chain ds (r, s) bh).1 j) ≡ true
  unfolding put_epoch
  put_epoch-keeps (ok u) s bh j h = put-keeps s (by_epoch bh.miner bh.height) j _ h
  put_epoch-keeps (err x) s bh j h = h

  put_block-keeps :
      (s : S) (bh : BlockHeader) (parent_epoch : ChainEpoch) (t : Time) (state : StateMining)
      (j : Key)
      → is_some (ds.view s j) ≡ true
      → is_some (ds.view (put_block chain ds s bh parent_epoch t state).1 j) ≡ true
  unfolding put_block
  put_block-keeps s bh pe t success j h = put_epoch-keeps _ _ bh j (put-keeps s _ j _ h)
  put_block-keeps s bh pe t _ j h = h

  -- The local filter guards: a recorded block takes its height for good.
  pub local-Guards : Guards (local chain ds)
  local-Guards = record {
    taken = taken;
    has_taken = has_block-taken;
    put_takes = λ s bh pe t ticket h. rw (view-put_block s bh pe t h);
    put_keeps = λ s bh pe t state m h. put_block-keeps s bh pe t state (by_epoch m h);
  }
