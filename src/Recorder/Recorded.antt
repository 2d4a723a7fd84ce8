-- ===== src/Recorder/Recorded.antt =====
-- node/modules/mine-recorder/mod.go: Record, and what it leaves in the store.
use sophon_miner.Prelude.{
  Bool-cases, Option, Result, Result-cases, String, [], arith, err, inl, inr, list_eq, nat_eq, none,
  ok, refl, some, string_eq, wrapped_ok, ◌∙◌, ◌∷◌, ◌≡◌, ◌⊎◌,
}
use sophon_miner.Prelude.Int.{
  FitsInt64, int64, int64-of_fits, int_eq, int_laws, ltb_ℤ, pos, ◌-ℤ◌, ◌<ℤ◌, ◌≤ℤ◌,
}
use sophon_miner.Prelude.Maps.{lookup, lookup-insert}
use sophon_miner.Recorder.{
  Limits, Printer, Recorder, RecorderError, Records, clean_after, clean_expire, cover_map, get,
  is_record_not_found, put, put_all, put_failed, record_before, write_record,
}
use sophon_miner.Recorder.Clean.{clean_before-keeps, view}
use sophon_miner.Recorder.Store.{RecordStore, record_key}
use sophon_miner.Types.{Address, ChainEpoch, state_eq}

abbrev pub or_else : Option String → Option String → Option String
or_else none o = o
or_else (some v) o = some v

lookup-nil : (k : String) → lookup {V = String} k [] ≡ none
unfolding lookup
lookup-nil k = refl

lookup-put_all :
    (k : String) (r m : Records) → lookup k (put_all r m) ≡ or_else (lookup k r) (lookup k m)
unfolding put_all lookup
lookup-put_all k [] m = refl
lookup-put_all k ((j, v) ∷ r) m =
    ground (arith, lookup-insert j k v (put_all r m), lookup-put_all k r m)

-- The merged record has the new value of a name where there is one, and the old one elsewhere.
pub lookup-cover_map :
    (k : String) (before after : Records)
    → lookup k (cover_map before after) ≡ or_else (lookup k after) (lookup k before)
unfolding cover_map
lookup-cover_map k before after =
    ground
      (arith, lookup-put_all k after (put_all before []), lookup-put_all k before [], lookup-nil k)

-- What is recorded already: nothing, where there is no record.
abbrev pub recorded : Result RecorderError Records → Records
recorded (ok r) = r
recorded (err _) = []

module _ {S : Type 0} (p : Printer) (st : RecordStore S) where
  clean_expire-keeps :
      (lim : Limits) (d : Recorder S) (epoch e : ChainEpoch) (n : Address)
      → int64 (epoch -ℤ lim.expire_epoch) ≤ℤ e
      → view p st (clean_expire p st lim epoch d).1.ds (record_key e n)
        ≡ view p st d.ds (record_key e n)
  unfolding clean_expire
  clean_expire-keeps lim d epoch e n h = elim (Bool-cases (ltb_ℤ d.latest_record_epoch epoch)) [
    | inl lt ↦ rw lt (clean_before-keeps p st (int64 (epoch -ℤ lim.expire_epoch)) e n d.ds h)
    | inr ge ↦ rw ge
  ]

  -- The cleaning reaches only epochs below its own.
  deadline-le :
      (lim : Limits) (epoch : ChainEpoch)
      → pos 0 ≤ℤ lim.expire_epoch
      → FitsInt64 (epoch -ℤ lim.expire_epoch)
      → int64 (epoch -ℤ lim.expire_epoch) ≤ℤ epoch
  deadline-le lim epoch kept_for fits = rw (int64-of_fits _ fits) (omega int_laws)

  clean_after-view :
      (lim : Limits) (latest epoch : ChainEpoch) (miner : Address)
      (q : Result RecorderError (Unit {0})) (s : S)
      → pos 0 ≤ℤ lim.expire_epoch
      → FitsInt64 (epoch -ℤ lim.expire_epoch)
      → (clean_after p st lim latest epoch (q, s)).0 ≡ ok tt
      → (q ≡ ok tt)
        × (view p st (clean_after p st lim latest epoch (q, s)).1.ds (record_key epoch miner)
            ≡ view p st s (record_key epoch miner))
  unfolding clean_after
  clean_after-view lim latest epoch miner (ok tt) s kept_for fits h =
      (refl, clean_expire-keeps lim _ epoch epoch miner (deadline-le lim epoch kept_for fits))
  clean_after-view lim latest epoch miner (err x) s kept_for fits h = cc

  clean_after-stored :
      (lim : Limits) (latest epoch : ChainEpoch) (miner : Address) (s : S) (r : Records)
      → pos 0 ≤ℤ lim.expire_epoch
      → FitsInt64 (epoch -ℤ lim.expire_epoch)
      → (clean_after p st lim latest epoch (put p st s miner epoch r)).0 ≡ ok tt
      → view p st
          (clean_after p st lim latest epoch (put p st s miner epoch r)).1.ds
          (record_key epoch miner)
        ≡ some (p.marshal r)
  unfolding put
  clean_after-stored lim latest epoch miner s r kept_for fits h =
      let (done, kept) = clean_after-view lim latest epoch miner _ _ kept_for fits h in
      kept
      ∙ st.base.put_self s (record_key epoch miner) (p.marshal r) (wrapped_ok put_failed _ done)

  -- After `Record` returned no error, the record of the miner at the epoch is what was there before,
  -- covered by what was written; the cleaning that follows does not touch it.
  pub view-write_record :
      (lim : Limits) (d : Recorder S) (miner : Address) (epoch : ChainEpoch) (r : Records)
      → pos 0 ≤ℤ lim.expire_epoch
      → FitsInt64 (epoch -ℤ lim.expire_epoch)
      → (write_record p st lim d miner epoch r).0 ≡ ok tt
      → view p st (write_record p st lim d miner epoch r).1.ds (record_key epoch miner)
        ≡ some (p.marshal (cover_map (recorded (get p st d.ds miner epoch)) r))
  unfolding write_record record_before
  view-write_record lim d miner epoch r kept_for fits h =
      elim (Result-cases (get p st d.ds miner epoch)) [
        | inl (before, q) ↦ rw q (
            clean_after-stored lim d.latest_record_epoch epoch miner d.ds (cover_map before r)
              kept_for fits (rw q at h))
        | inr (x, q) ↦ elim (Bool-cases (is_record_not_found x)) [
          | inl absent ↦
              rw (q, absent)
                (clean_after-stored lim d.latest_record_epoch epoch miner d.ds (cover_map [] r)
                  kept_for fits (rw (q, absent) at h))
          | inr fails ↦ ground arith
        ]
      ]

  get-view :
      (s : S) (miner : Address) (epoch : ChainEpoch) (r found : Records)
      → view p st s (record_key epoch miner) ≡ some (p.marshal r)
      → get p st s miner epoch ≡ ok found
      → found ≡ r
  unfolding get
  get-view s miner epoch r found v g = grind (arith, st.base.get_view, p.unmarshal_marshal)

  -- Reading back, without an error, after a `Record` that returned none: each name has the value that
  -- was just written, or else the value that it had. It supposes that the configured number of epochs
  -- until a record expires is not negative, and that taking it from the epoch does not leave the int64.
  pub record_reads_back :
      (lim : Limits) (d : Recorder S) (miner : Address) (epoch : ChainEpoch) (r found : Records)
      (name : String)
      → pos 0 ≤ℤ lim.expire_epoch
      → FitsInt64 (epoch -ℤ lim.expire_epoch)
      → (write_record p st lim d miner epoch r).0 ≡ ok tt
      → get p st (write_record p st lim d miner epoch r).1.ds miner epoch ≡ ok found
      → lookup name found
        ≡ or_else (lookup name r) (lookup name (recorded (get p st d.ds miner epoch)))
  record_reads_back lim d miner epoch r found name kept_for fits h g =
      rw (get-view _ miner epoch _ found (view-write_record lim d miner epoch r kept_for fits h) g)
        (lookup-cover_map name (recorded (get p st d.ds miner epoch)) r)

  latest-clean_after :
      (lim : Limits) (latest epoch : ChainEpoch) (w : Result RecorderError (Unit {0}) × S)
      → let latest' = (clean_after p st lim latest epoch w).1.latest_record_epoch in
        (latest' ≡ latest) ⊎ ((latest' ≡ epoch) × (latest <ℤ epoch))
  unfolding clean_after clean_expire
  latest-clean_after lim latest epoch (ok u, s) = ground arith
  latest-clean_after lim latest epoch (err x, s) = inl refl

  -- `Record` moves the latest epoch only to its own epoch, and only up.
  pub latest-write_record :
      (lim : Limits) (d : Recorder S) (miner : Address) (epoch : ChainEpoch) (r : Records)
      → let latest = (write_record p st lim d miner epoch r).1.latest_record_epoch in
        (latest ≡ d.latest_record_epoch) ⊎ ((latest ≡ epoch) × (d.latest_record_epoch <ℤ epoch))
  unfolding write_record record_before
  latest-write_record lim d miner epoch r =
      let found =
        latest-clean_after lim d.latest_record_epoch epoch
          (put p st d.ds miner epoch (cover_map (recorded (get p st d.ds miner epoch)) r)) in
      let absent =
        latest-clean_after lim d.latest_record_epoch epoch
          (put p st d.ds miner epoch (cover_map [] r)) in
      elim (Result-cases (get p st d.ds miner epoch)) [
        | inl (before, q) ↦ rw q (rw q at found)
        | inr (x, q) ↦ elim (Bool-cases (is_record_not_found x)) [
          | inl missing ↦ rw (q, missing) absent
          | inr fails ↦ rw (q, fails) (inl refl)
        ]
      ]
