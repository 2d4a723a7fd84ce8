-- ===== src/Recorder/Store.antt =====
-- The store of the recorder: a datastore with `Delete`, and the query for the keys of one epoch.
-- A key is kept as its parts: /<epoch>/<miner>, and /index/min-epoch.
use sophon_miner.Datastore.{Datastore, Fault}
use sophon_miner.Prelude.{All, Any, List, Result, none, ok, ◌≡◌, ◌≢◌, ◌⊎◌}
use sophon_miner.Types.{Address, ChainEpoch}

pub data Key : Type 0 where
  record_key : ChainEpoch → Address → Key
  min_epoch_key : Key

pub record RecordStore (S : Type 0) : Type 0 where
  pub base : Datastore Key S
  pub delete : S → Key → Result Fault (Unit {0}) × S
  -- Query{Prefix: "/<epoch>", KeysOnly: true}
  pub query_epoch : S → ChainEpoch → Result Fault (List (Result Fault Key))
  pub delete_self : (s : S) (k : Key) → (delete s k).0 ≡ ok tt → base.view (delete s k).1 k ≡ none
  pub delete_ne : (s : S) (k j : Key) → k ≢ j → base.view (delete s k).1 j ≡ base.view s j
  -- A delete adds nothing.
  pub delete_absent : (s : S) (k j : Key) → base.view s j ≡ none → base.view (delete s k).1 j ≡ none
  -- A prefix selects the keys below it, and these alone.
  pub query_only :
      (s : S) (i : ChainEpoch) (ks : List (Result Fault Key))
      → query_epoch s i ≡ ok ks
      → All (λ r. (k : Key) → r ≡ ok k → (m : Address) × (k ≡ record_key i m)) ks
  -- Results without an error hold every key that is stored below the prefix.
  pub query_all :
      (s : S) (i : ChainEpoch) (ks : List (Result Fault Key)) (m : Address)
      → query_epoch s i ≡ ok ks
      → All (λ r. (k : Key) × (r ≡ ok k)) ks
      → (base.view s (record_key i m) ≡ none) ⊎ Any (λ r. r ≡ ok (record_key i m)) ks
