-- ===== src/Datastore.antt =====
-- The key-value store of go-datastore, which the local slash filter and the recorder write to:
-- its operations, over an abstract state, and the behaviour that its documentation states.
-- Any call may fail with an error of its own.
pub mod Memory
use sophon_miner.Prelude.{ℕ, ◌≡◌, ◌≢◌, ◌⊎◌, Bool, Option, none, some, Result, ok, err, is_some}
use sophon_miner.Types.{Bytes}

pub data Fault : Type 0 where
  not_found : Fault
  io : ℕ → Fault

pub record Datastore (Key S : Type 0) : Type 0 where
  pub has : S → Key → Result Fault Bool
  pub get : S → Key → Result Fault Bytes
  pub put : S → Key → Bytes → Result Fault (Unit {0}) × S
  -- The value that is stored under a key.
  pub view : S → Key → Option Bytes
  pub has_view : (s : S) (k : Key) (b : Bool) → has s k ≡ ok b → b ≡ is_some (view s k)
  pub get_view : (s : S) (k : Key) (v : Bytes) → get s k ≡ ok v → view s k ≡ some v
  pub get_absent : (s : S) (k : Key) → get s k ≡ err not_found → view s k ≡ none
  pub put_self :
      (s : S) (k : Key) (v : Bytes) → (put s k v).0 ≡ ok tt → view (put s k v).1 k ≡ some v
  -- A write is applied or it is not, whatever it returns.
  pub put_atomic :
      (s : S) (k : Key) (v : Bytes)
      → (view (put s k v).1 k ≡ view s k) ⊎ (view (put s k v).1 k ≡ some v)
  pub put_ne : (s : S) (k j : Key) (v : Bytes) → k ≢ j → view (put s k v).1 j ≡ view s j
