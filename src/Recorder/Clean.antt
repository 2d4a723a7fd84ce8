-- ===== src/Recorder/Clean.antt =====
-- node/modules/mine-recorder/mod.go: cleanBefore, what it keeps and removes.
use sophon_miner.Datastore.{Fault, io, not_found}
use sophon_miner.Prelude.{
  All, Any, Bool-cases, List, Option, Result, Result-cases, [], arith, err, inl, inr, lt→ltb, none,
  ok, refl, suc, sym, true, zero, ℕ, ◌==◌, ◌∙◌, ◌∷◌, ◌≡◌, ◌≢◌,
}
use sophon_miner.Prelude.Int.{
  add-span, add_one-le, int_beq_iff, int_eq, int_laws, ltb_ℤ, pos, pos_part, ◌+ℤ◌, ◌-ℤ◌, ◌<ℤ◌, ◌≤ℤ◌,
}
use sophon_miner.Recorder.{
  Printer, RecorderError, clean_before, clean_from, clean_stored, delete_all, delete_found,
  delete_range, move_min_epoch, put_min_epoch,
}
use sophon_miner.Recorder.Encoding.{from_bytes, into_bytes}
use sophon_miner.Recorder.Store.{Key, RecordStore, min_epoch_key, record_key}
use sophon_miner.Types.{Address, Bytes, ChainEpoch}

apart : (i e : ChainEpoch) (m n : Address) → i <ℤ e → record_key i m ≡ record_key e n → ⊥
apart i e m n lt q = ground arith

module _ {S : Type 0} (p : Printer) (st : RecordStore S) where
  abbrev pub view : S → Key → Option Bytes
  view s k = st.base.view s k

  delete_all-keeps :
      (ks : List (Result Fault Key)) (s : S) (j : Key)
      → All (λ r. (k : Key) → r ≡ ok k → k ≢ j) ks
      → view (delete_all p st ks s).1 j ≡ view s j
  unfolding delete_all
  delete_all-keeps [] s j h = refl
  delete_all-keeps (err f ∷ ks) s j h = refl
  delete_all-keeps (ok k ∷ ks) s j h =
      let e = st.delete_ne s k j (h.0 k refl) in
      let rest = delete_all-keeps ks (st.delete s k).1 j h.1 in ground arith

  All-other :
      (ks : List (Result Fault Key)) (i e : ChainEpoch) (n : Address)
      → i <ℤ e
      → All (λ r. (k : Key) → r ≡ ok k → (m : Address) × (k ≡ record_key i m)) ks
      → All (λ r. (k : Key) → r ≡ ok k → k ≢ record_key e n) ks
  All-other [] i e n lt h = h
  All-other (r ∷ ks) i e n lt h = (
    λ k q same. let (m, at_i) = h.0 k q in apart i e m n lt (sym at_i ∙ same),
    All-other ks i e n lt h.1,
  )

  -- One epoch is cleaned: the records above it stay.
  delete_found-keeps :
      (i e : ChainEpoch) (n : Address) (s : S)
      → i <ℤ e
      → view (delete_found p st (st.query_epoch s i) s).1 (record_key e n) ≡ view s (record_key e n)
  unfolding delete_found
  delete_found-keeps i e n s lt = elim (Result-cases (st.query_epoch s i)) [
    | inl (ks, q) ↦
        rw q
          (delete_all-keeps ks s (record_key e n) (All-other ks i e n lt (st.query_only s i ks q)))
    | inr (f, q) ↦ rw q
  ]

  pub delete_range-keeps :
      (k : ℕ) (i e : ChainEpoch) (n : Address) (s : S)
      → i +ℤ pos k ≤ℤ e
      → view (delete_range p st k i s).1 (record_key e n) ≡ view s (record_key e n)
  unfolding delete_range
  delete_range-keeps zero i e n s h = refl
  delete_range-keeps (suc k) i e n s h =
      let one = delete_found-keeps i e n s (omega int_laws) in
      let rest =
        delete_range-keeps k (i +ℤ pos 1) e n (delete_found p st (st.query_epoch s i) s).1
          (omega int_laws) in
      ground arith

  put_min_epoch-keeps :
      (deadline e : ChainEpoch) (n : Address) (s : S)
      → view (put_min_epoch p st deadline s).1 (record_key e n) ≡ view s (record_key e n)
  unfolding put_min_epoch
  put_min_epoch-keeps deadline e n s =
      st.base.put_ne s min_epoch_key (record_key e n) (into_bytes deadline) (λ q. cc)

  move_min_epoch-keeps :
      (deadline e : ChainEpoch) (n : Address) (r : Result RecorderError (Unit {0})) (s : S)
      → view (move_min_epoch p st deadline (r, s)).1 (record_key e n) ≡ view s (record_key e n)
  unfolding move_min_epoch
  move_min_epoch-keeps deadline e n (ok u) s = put_min_epoch-keeps deadline e n s
  move_min_epoch-keeps deadline e n (err x) s = refl

  clean_from-keeps :
      (low deadline e : ChainEpoch) (n : Address) (s : S)
      → deadline ≤ℤ e
      → view (clean_from p st low deadline s).1 (record_key e n) ≡ view s (record_key e n)
  unfolding clean_from
  clean_from-keeps low deadline e n s h = elim (Bool-cases (ltb_ℤ low deadline)) [
    | inl lt ↦ rw lt (
        move_min_epoch-keeps deadline e n _ _
        ∙ delete_range-keeps (pos_part (deadline -ℤ low)) low e n s
            (rw (add-span low deadline lt) h))
    | inr ge ↦ rw ge
  ]

  -- Cleaning up to a deadline keeps every record at or above it, whatever fails on the way.
  pub clean_before-keeps :
      (deadline e : ChainEpoch) (n : Address) (s : S)
      → deadline ≤ℤ e
      → view (clean_before p st deadline s).1 (record_key e n) ≡ view s (record_key e n)
  unfolding clean_before clean_stored
  clean_before-keeps deadline e n s h = elim (Result-cases (st.base.get s min_epoch_key)) [
    | inl (b, q) ↦ rw q (clean_from-keeps (from_bytes b) deadline e n s h)
    | inr (not_found, q) ↦ rw q (put_min_epoch-keeps deadline e n s)
    | inr (io x, q) ↦ rw q
  ]

  -- The deletions of one epoch, once they all succeeded, leave no record of it.
  delete_all-ok :
      (ks : List (Result Fault Key)) (s : S)
      → (delete_all p st ks s).0 ≡ ok tt
      → All (λ r. (k : Key) × (r ≡ ok k)) ks
  unfolding delete_all
  delete_all-ok [] s h = tt
  delete_all-ok (err f ∷ ks) s h = cc
  delete_all-ok (ok k ∷ ks) s h = ((k, refl), delete_all-ok ks (st.delete s k).1 (ground arith))

  delete_all-absent :
      (ks : List (Result Fault Key)) (s : S) (j : Key)
      → view s j ≡ none
      → view (delete_all p st ks s).1 j ≡ none
  unfolding delete_all
  delete_all-absent [] s j h = h
  delete_all-absent (err f ∷ ks) s j h = h
  delete_all-absent (ok k ∷ ks) s j h =
      let gone = st.delete_absent s k j h in
      let rest = delete_all-absent ks (st.delete s k).1 j gone in ground arith

  delete_all-removes :
      (ks : List (Result Fault Key)) (s : S) (j : Key)
      → (delete_all p st ks s).0 ≡ ok tt
      → Any (λ r. r ≡ ok j) ks
      → view (delete_all p st ks s).1 j ≡ none
  unfolding delete_all
  delete_all-removes [] s j h a = absurd a
  delete_all-removes (err f ∷ ks) s j h a = cc
  delete_all-removes (ok k ∷ ks) s j h a =
      let done : (st.delete s k).0 ≡ ok tt = ground arith in
      let tail_ok : (delete_all p st ks (st.delete s k).1).0 ≡ ok tt = ground arith in
      elim a [
        | inl here ↦
            let kj : k ≡ j = cc in
            let gone =
              delete_all-absent ks (st.delete s k).1 j (rw (← kj) (st.delete_self s k done)) in
            ground arith
        | inr later ↦
            let rest = delete_all-removes ks (st.delete s k).1 j tail_ok later in ground arith
      ]

  delete_found-ok :
      (i : ChainEpoch) (s : S)
      → (delete_found p st (st.query_epoch s i) s).0 ≡ ok tt
      → (ks : List (Result Fault Key)) × (st.query_epoch s i ≡ ok ks)
        × ((delete_all p st ks s).0 ≡ ok tt)
  unfolding delete_found
  delete_found-ok i s h = elim (Result-cases (st.query_epoch s i)) [
    | inl (ks, q) ↦ (ks, q, rw q at h)
    | inr (f, q) ↦ ground arith
  ]

  delete_found-removes :
      (i : ChainEpoch) (n : Address) (s : S)
      → (delete_found p st (st.query_epoch s i) s).0 ≡ ok tt
      → view (delete_found p st (st.query_epoch s i) s).1 (record_key i n) ≡ none
  unfolding delete_found
  delete_found-removes i n s h =
      let (ks, q, done) = delete_found-ok i s h in
      elim (st.query_all s i ks n q (delete_all-ok ks s done)) [
        | inl absent ↦ rw q (delete_all-absent ks s (record_key i n) absent)
        | inr there ↦ rw q (delete_all-removes ks s (record_key i n) done there)
      ]

  delete_found-absent :
      (i : ChainEpoch) (s : S) (j : Key)
      → view s j ≡ none
      → view (delete_found p st (st.query_epoch s i) s).1 j ≡ none
  unfolding delete_found
  delete_found-absent i s j h = elim (Result-cases (st.query_epoch s i)) [
    | inl (ks, q) ↦ rw q (delete_all-absent ks s j h)
    | inr (f, q) ↦ rw q h
  ]

  delete_range-absent :
      (k : ℕ) (i : ChainEpoch) (s : S) (j : Key)
      → view s j ≡ none
      → view (delete_range p st k i s).1 j ≡ none
  unfolding delete_range
  delete_range-absent zero i s j h = h
  delete_range-absent (suc k) i s j h =
      let one = delete_found-absent i s j h in
      let rest =
        delete_range-absent k (i +ℤ pos 1) (delete_found p st (st.query_epoch s i) s).1 j one in
      ground arith

  -- A deletion of the epochs [i, i + k) that returns no error leaves no record in them.
  pub delete_range-removes :
      (k : ℕ) (i e : ChainEpoch) (n : Address) (s : S)
      → (delete_range p st k i s).0 ≡ ok tt
      → i ≤ℤ e
      → e <ℤ i +ℤ pos k
      → view (delete_range p st k i s).1 (record_key e n) ≡ none
  unfolding delete_range
  delete_range-removes zero i e n s h low high = absurd (omega int_laws)
  delete_range-removes (suc k) i e n s h low high =
      let s' = (delete_found p st (st.query_epoch s i) s).1 in
      let first : (delete_found p st (st.query_epoch s i) s).0 ≡ ok tt = ground arith in
      let tail_ok : (delete_range p st k (i +ℤ pos 1) s').0 ≡ ok tt = ground arith in
      elim (Bool-cases (i == e)) [
        | inl same ↦
            let at_i : i ≡ e = (int_beq_iff i e).0 same in
            let gone =
              delete_range-absent k (i +ℤ pos 1) s' (record_key i n)
                (delete_found-removes i n s first) in
            rw (← at_i) (ground arith)
        | inr other ↦
            let rest =
              delete_range-removes k (i +ℤ pos 1) e n s' tail_ok (add_one-le i e low other)
                (omega int_laws) in
            ground arith
      ]

  move_min_epoch-ok :
      (deadline : ChainEpoch) (r : Result RecorderError (Unit {0})) (s : S)
      → (move_min_epoch p st deadline (r, s)).0 ≡ ok tt
      → r ≡ ok tt
  unfolding move_min_epoch
  move_min_epoch-ok deadline (ok tt) s h = refl
  move_min_epoch-ok deadline (err x) s h = cc

  -- A cleaning that returns no error leaves no record from the stored lowest epoch up to the
  -- deadline.
  pub clean_before-removes :
      (deadline e : ChainEpoch) (n : Address) (s : S) (b : Bytes)
      → st.base.get s min_epoch_key ≡ ok b
      → from_bytes b ≤ℤ e
      → e <ℤ deadline
      → (clean_before p st deadline s).0 ≡ ok tt
      → view (clean_before p st deadline s).1 (record_key e n) ≡ none
  unfolding clean_before clean_stored clean_from
  clean_before-removes deadline e n s b q low high h =
      let low' = from_bytes b in
      let lt : ltb_ℤ low' deadline ≡ true = lt→ltb _ _ (omega arith) in
      let done = move_min_epoch-ok deadline _ _ (rw (q, lt) at h) in
      rw (q, lt)
        (move_min_epoch-keeps deadline e n _ _
          ∙ delete_range-removes (pos_part (deadline -ℤ low')) low' e n s done low
              (rw (add-span low' deadline lt) high))
