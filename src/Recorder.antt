-- ===== src/Recorder.antt =====
-- node/modules/mine-recorder: the recorder of what happened to each miner at each epoch.
-- Store is the key-value store that it writes to, Bytes the encoding of an epoch, and this file the
-- recorder of mod.go with the package-level switch of inner_recorder.go.
pub mod Encoding
pub mod Store
pub mod Clean
pub mod Recorded
pub mod Queried
use sophon_miner.Datastore.{Fault, io, not_found}
use sophon_miner.Prelude.{
  Bool, List, Option, Result, String, [], err, false, if◌then◌else◌, list_eq, ltb, nat_eq, none, ok,
  some, string_eq, suc, true, wrap_err, zero, ℕ, ◌==◌, ◌>>=◌, ◌>>◌, ◌∷◌, ◌≡◌,
}
use sophon_miner.Prelude.Int.{int64, int_eq, ltb_ℤ, pos, pos_part, ◌+ℤ◌, ◌-ℤ◌}
use sophon_miner.Prelude.Maps.{insert}
use sophon_miner.Recorder.Encoding.{from_bytes, into_bytes}
use sophon_miner.Recorder.Store.{Key, RecordStore, min_epoch_key, record_key}
use sophon_miner.Types.{Address, Bytes, ChainEpoch, state_eq}

-- map[string]string
abbrev pub Records : Type 0
Records = List (String × String)

-- The variables MaxRecordPerQuery and ExpireEpoch, which the configuration may set at the start.
pub record Limits : Type 0 where
  pub max_record_per_query : ℕ
  pub expire_epoch : ChainEpoch

-- 288, and 7 * 2880
abbrev pub default_limits : Limits
default_limits = record { max_record_per_query = 288; expire_epoch = pos 20160 }

pub data RecorderError : Type 0 where
  get_record_failed : Fault → RecorderError
  bad_json : RecorderError
  put_failed : Fault → RecorderError
  exceed_max_record_per_query : RecorderError
  get_min_epoch_failed : Fault → RecorderError
  query_failed : Fault → RecorderError
  delete_failed : Fault → RecorderError
  recorder_disabled : RecorderError

-- encoding/json on a `Records`, and the printing of an address and of an epoch.
pub record Printer : Type 0 where
  pub marshal : Records → Bytes
  pub unmarshal : Bytes → Option Records
  pub unmarshal_marshal : (r : Records) → unmarshal (marshal r) ≡ some r
  pub address_string : Address → String
  pub epoch_string : ChainEpoch → String

-- `coverMap`: what is in `after` overwrites. Go's order of iteration is not specified; a key occurs
-- once in a map, so it does not matter.
put_all : Records → Records → Records
put_all [] m = m
put_all ((k, v) ∷ r) m = insert k v (put_all r m)

unfoldable pub cover_map : Records → Records → Records
unfolding put_all
cover_map before after = put_all after (put_all before [])

-- errors.Is(err, ErrorRecordNotFound)
abbrev pub is_record_not_found : RecorderError → Bool
is_record_not_found (get_record_failed not_found) = true
is_record_not_found _ = false

pub record Recorder (S : Type 0) : Type 0 where
  pub ds : S
  pub latest_record_epoch : ChainEpoch

module _ {S : Type 0} (p : Printer) (st : RecordStore S) where
  parse_record : Bytes → Result RecorderError Records
  parse_record b = elim (p.unmarshal b) [ none ↦ err bad_json | some r ↦ ok r ]

  unfoldable pub get : S → Address → ChainEpoch → Result RecorderError Records
  unfolding parse_record
  get s miner epoch = do
    val ← wrap_err get_record_failed (st.base.get s (record_key epoch miner))
    parse_record val

  unfoldable pub put : S → Address → ChainEpoch → Records → Result RecorderError (Unit {0}) × S
  put s miner epoch r =
      let (res, s') = st.base.put s (record_key epoch miner) (p.marshal r) in
      (wrap_err put_failed res, s')

  -- What a query of one epoch adds to its answer, and the errors that end it.
  step_query :
      Address
      → ChainEpoch
      → Result RecorderError Records
      → Result RecorderError (List Records)
      → Result RecorderError (List Records)
  step_query miner from (ok r) rest = rest >>= λ ret.
      ok (
        cover_map r (("miner", p.address_string miner) ∷ ("epoch", p.epoch_string from) ∷ []) ∷ ret)
  step_query miner from (err e) rest = if is_record_not_found e then rest else err e

  -- `for ; from < to; from++`, on the number of rounds left, `to - from`.
  unfoldable pub query_loop : ℕ → S → Address → ChainEpoch → Result RecorderError (List Records)
  unfolding step_query
  query_loop zero s miner from = ok []
  query_loop (suc n) s miner from =
      step_query miner from (get s miner from) (query_loop n s miner (from +ℤ pos 1))

  unfoldable pub query : Limits → S → Address → ChainEpoch → ℕ → Result RecorderError (List Records)
  query lim s miner from limit =
      if ltb lim.max_record_per_query limit
      then err exceed_max_record_per_query
      else (let limit' = (if limit == 0 then 1 else limit) in
          let to = int64 (from +ℤ pos limit') in query_loop (pos_part (to -ℤ from)) s miner from)

  -- The loop over the results of the query for one epoch.
  delete_all : List (Result Fault Key) → S → Result RecorderError (Unit {0}) × S
  delete_all [] s = (ok tt, s)
  delete_all (err f ∷ ks) s = (err (query_failed f), s)
  delete_all (ok k ∷ ks) s =
      let (r, s') = st.delete s k in
      let rest = delete_all ks s' in elim r [ ok _ ↦ rest | err f ↦ (err (delete_failed f), s') ]

  delete_found : Result Fault (List (Result Fault Key)) → S → Result RecorderError (Unit {0}) × S
  unfolding delete_all
  delete_found (err f) s = (err (query_failed f), s)
  delete_found (ok ks) s = delete_all ks s

  -- `for i := minEpoch; i < deadline; i++`, on the number of rounds left.
  unfoldable pub delete_range : ℕ → ChainEpoch → S → Result RecorderError (Unit {0}) × S
  unfolding delete_found
  delete_range zero i s = (ok tt, s)
  delete_range (suc n) i s =
      let (r, s') = delete_found (st.query_epoch s i) s in
      let rest = delete_range n (i +ℤ pos 1) s' in elim r [ ok _ ↦ rest | err e ↦ (err e, s') ]

  put_min_epoch : ChainEpoch → S → Result RecorderError (Unit {0}) × S
  put_min_epoch deadline s =
      let (r, s') = st.base.put s min_epoch_key (into_bytes deadline) in (wrap_err put_failed r, s')

  -- After the deletions: the new lowest epoch is stored if they all succeeded.
  move_min_epoch :
      ChainEpoch → Result RecorderError (Unit {0}) × S → Result RecorderError (Unit {0}) × S
  unfolding put_min_epoch
  move_min_epoch deadline (ok _, s) = put_min_epoch deadline s
  move_min_epoch deadline (err e, s) = (err e, s)

  clean_from : ChainEpoch → ChainEpoch → S → Result RecorderError (Unit {0}) × S
  unfolding move_min_epoch delete_range
  clean_from min_epoch deadline s =
      if ltb_ℤ min_epoch deadline
      then move_min_epoch deadline (delete_range (pos_part (deadline -ℤ min_epoch)) min_epoch s)
      else (ok tt, s)

  clean_stored : Result Fault Bytes → ChainEpoch → S → Result RecorderError (Unit {0}) × S
  unfolding put_min_epoch clean_from
  clean_stored (err not_found) deadline s = put_min_epoch deadline s
  clean_stored (err (io e)) deadline s = (err (get_min_epoch_failed (io e)), s)
  clean_stored (ok b) deadline s = clean_from (from_bytes b) deadline s

  unfoldable pub clean_before : ChainEpoch → S → Result RecorderError (Unit {0}) × S
  unfolding clean_stored
  clean_before deadline s = clean_stored (st.base.get s min_epoch_key) deadline s

  -- `cleanExpire`: only an epoch above the latest moves it, and cleans.
  unfoldable pub clean_expire :
      Limits → ChainEpoch → Recorder S → Result RecorderError (Unit {0}) × Recorder S
  clean_expire lim epoch d =
      if ltb_ℤ d.latest_record_epoch epoch
      then (let (r, s') = clean_before (int64 (epoch -ℤ lim.expire_epoch)) d.ds in
          (r, record { ds = s'; latest_record_epoch = epoch }))
      else (ok tt, d)

  -- After the record is written.
  clean_after :
      Limits
      → ChainEpoch
      → ChainEpoch
      → Result RecorderError (Unit {0}) × S
      → Result RecorderError (Unit {0}) × Recorder S
  clean_after lim latest epoch (err e, s) = (err e, record { ds = s; latest_record_epoch = latest })
  clean_after lim latest epoch (ok _, s) =
      clean_expire lim epoch (record { ds = s; latest_record_epoch = latest })

  record_before :
      Limits
      → Recorder S
      → Address
      → ChainEpoch
      → Records
      → Result RecorderError Records
      → Result RecorderError (Unit {0}) × Recorder S
  unfolding clean_after
  record_before lim d miner epoch r (ok before) =
      clean_after lim d.latest_record_epoch epoch (put d.ds miner epoch (cover_map before r))
  record_before lim d miner epoch r (err e) =
      if is_record_not_found e
      then clean_after lim d.latest_record_epoch epoch (put d.ds miner epoch (cover_map [] r))
      else (err e, d)

  -- `Record`
  unfoldable pub write_record :
      Limits
      → Recorder S
      → Address
      → ChainEpoch
      → Records
      → Result RecorderError (Unit {0}) × Recorder S
  unfolding record_before
  write_record lim d miner epoch r = record_before lim d miner epoch r (get d.ds miner epoch)

  -- inner_recorder.go: before `SetDatastore` the recorder is disabled, `none` here.
  unfoldable pub inner_record :
      Limits
      → Option (Recorder S)
      → Address
      → ChainEpoch
      → Records
      → Result RecorderError (Unit {0}) × Option (Recorder S)
  inner_record lim none miner epoch r = (err recorder_disabled, none)
  inner_record lim (some d) miner epoch r =
      let (res, d') = write_record lim d miner epoch r in (res, some d')

  unfoldable pub inner_query :
      Limits → Option (Recorder S) → Address → ChainEpoch → ℕ → Result RecorderError (List Records)
  inner_query lim none miner epoch limit = err recorder_disabled
  inner_query lim (some d) miner epoch limit = query lim d.ds miner epoch limit

  pub new_recorder : S → Recorder S
  new_recorder s = record { ds = s; latest_record_epoch = pos 0 }
