-- ===== src/Tests/Records.antt =====
-- A store of records in memory: the entries of one epoch are found by a walk over the keys.
use sophon_miner.Datastore.{Fault}
use sophon_miner.Datastore.Memory.{memory}
use sophon_miner.Prelude.{
  All, Any, Bool, Bool-cases, Eq, List, Result, [], arith, beq_refl, false, if◌then◌else◌, inl, inr,
  nat_eq, none, ok, refl, true, ◌&&◌, ◌==◌, ◌↔◌, ◌∷◌, ◌≡◌, ◌≢◌, ◌⊎◌,
}
use sophon_miner.Prelude.Int.{int_beq_iff, int_eq}
use sophon_miner.Prelude.Maps.{delete, lookup, lookup-delete}
use sophon_miner.Recorder.Store.{Key, RecordStore, min_epoch_key, record_key}
use sophon_miner.Types.{Address, Bytes, ChainEpoch}

abbrev pub key_same : Key → Key → Bool
key_same (record_key e m) (record_key f n) = e == f && m == n
key_same (record_key e m) min_epoch_key = false
key_same min_epoch_key (record_key f n) = false
key_same min_epoch_key min_epoch_key = true

pub key_same_iff : (a b : Key) → (key_same a b ≡ true) ↔ (a ≡ b)
key_same_iff (record_key e m) (record_key f n) = ground (arith, int_beq_iff e f)
key_same_iff (record_key e m) min_epoch_key = ground arith
key_same_iff min_epoch_key (record_key f n) = ground arith
key_same_iff min_epoch_key min_epoch_key = ground arith

instance abbrev pub record_key_eq : Eq Key
record_key_eq = record { beq = key_same; beq_iff = key_same_iff }

abbrev pub MemRecords : Type 0
MemRecords = List (Key × Bytes)

add_key : ChainEpoch → Key → List (Result Fault Key) → List (Result Fault Key)
add_key i min_epoch_key rest = rest
add_key i (record_key e m) rest = if e == i then ok (record_key e m) ∷ rest else rest

unfoldable pub keys_of : ChainEpoch → MemRecords → List (Result Fault Key)
unfolding add_key
keys_of i [] = []
keys_of i ((k, _) ∷ s) = add_key i k (keys_of i s)

abbrev pub Below : ChainEpoch → Result Fault Key → Type 0
Below i r = (k : Key) → r ≡ ok k → (m : Address) × (k ≡ record_key i m)

keys_of-Below : (i : ChainEpoch) (s : MemRecords) → All (Below i) (keys_of i s)
unfolding keys_of
keys_of-Below i [] = tt
keys_of-Below i ((min_epoch_key, _) ∷ s) = keys_of-Below i s
keys_of-Below i ((record_key e m, _) ∷ s) = elim (Bool-cases (e == i)) [
  | inl same ↦
      let at_i : e ≡ i = (int_beq_iff e i).0 same in
      rw same ((λ k q. (m, ground arith)), keys_of-Below i s)
  | inr other ↦ rw other (keys_of-Below i s)
]

keys_of-all :
    (i : ChainEpoch) (m : Address) (s : MemRecords)
    → (lookup (record_key i m) s ≡ none) ⊎ Any (λ r. r ≡ ok (record_key i m)) (keys_of i s)
unfolding keys_of lookup
keys_of-all i m [] = inl refl
keys_of-all i m ((min_epoch_key, _) ∷ s) = keys_of-all i m s
keys_of-all i m ((record_key e n, _) ∷ s) = ground (arith, keys_of-all i m s, int_beq_iff e i)

pub delete_none : (k : Key) (s : MemRecords) → lookup k (delete k s) ≡ none
delete_none k s = ground (arith, lookup-delete k k s, beq_refl k)

pub delete_other : (k j : Key) (s : MemRecords) → k ≢ j → lookup j (delete k s) ≡ lookup j s
delete_other k j s h = ground (arith, lookup-delete k j s, key_same_iff k j)

pub delete_missing : (k j : Key) (s : MemRecords) → lookup j s ≡ none → lookup j (delete k s) ≡ none
delete_missing k j s h = ground (arith, lookup-delete k j s)

pub listed-Below :
    (s : MemRecords) (i : ChainEpoch) (ks : List (Result Fault Key))
    → ◌≡◌ {A = Result Fault (List (Result Fault Key))} (ok (keys_of i s)) (ok ks)
    → All (Below i) ks
listed-Below s i ks h = let e : keys_of i s ≡ ks = ground arith in rw (← e) (keys_of-Below i s)

pub listed_all :
    (s : MemRecords) (i : ChainEpoch) (ks : List (Result Fault Key)) (m : Address)
    → ◌≡◌ {A = Result Fault (List (Result Fault Key))} (ok (keys_of i s)) (ok ks)
    → (lookup (record_key i m) s ≡ none) ⊎ Any (λ r. r ≡ ok (record_key i m)) ks
listed_all s i ks m h = let e : keys_of i s ≡ ks = ground arith in rw (← e) (keys_of-all i m s)

abbrev pub records : RecordStore MemRecords
records = record {
  base = memory;
  delete = λ s k. (ok tt, delete k s);
  query_epoch = λ s i. ok (keys_of i s);
  delete_self = λ s k h. delete_none k s;
  delete_ne = λ s k j h. delete_other k j s h;
  delete_absent = λ s k j h. delete_missing k j s h;
  query_only = λ s i ks h. listed-Below s i ks h;
  query_all = λ s i ks m h1 h2. listed_all s i ks m h1;
}
