-- ===== src/Recorder/Queried.antt =====
-- node/modules/mine-recorder/mod.go: the answers of Query.
use sophon_miner.Prelude.{
  All, All-weaken, Any, Bool-cases, List, Result, [], arith, err, if◌then◌else◌, inl, inr, length,
  list_eq, ltb, lt→ltb, nat_eq, ok, refl, string_eq, suc, zero, ℕ, ◌<◌, ◌==◌, ◌∷◌, ◌≡◌, ◌≢◌, ◌≤◌,
  ◌⊎◌,
}
use sophon_miner.Prelude.Int.{
  FitsInt64, add-span, add_one-le, int64, int64-of_fits, int_beq, int_beq_iff, int_eq, int_laws,
  pos, pos_part, ◌+ℤ◌, ◌-ℤ◌, ◌<ℤ◌, ◌≤ℤ◌,
}
use sophon_miner.Recorder.{
  Limits, Printer, RecorderError, Records, cover_map, get, query, query_loop, step_query,
}
use sophon_miner.Recorder.Store.{RecordStore}
use sophon_miner.Types.{Address, ChainEpoch, state_eq}

module _ {S : Type 0} (p : Printer) (st : RecordStore S) where
  length-step_query :
      (miner : Address) (from : ChainEpoch) (g : Result RecorderError Records)
      (rest : Result RecorderError (List Records)) (n : ℕ) (ret : List Records)
      → ((l : List Records) → rest ≡ ok l → length l ≤ n)
      → step_query p st miner from g rest ≡ ok ret
      → length ret ≤ suc n
  unfolding step_query
  length-step_query miner from (ok r) (ok l) n ret below h = ground (arith, below l refl)
  length-step_query miner from (ok r) (err e) n ret below h = ground arith
  length-step_query miner from (err e) (ok l) n ret below h = ground (arith, below l refl)
  length-step_query miner from (err e) (err f) n ret below h = ground arith

  length-query_loop :
      (n : ℕ) (s : S) (miner : Address) (from : ChainEpoch) (ret : List Records)
      → query_loop p st n s miner from ≡ ok ret
      → length ret ≤ n
  unfolding query_loop
  length-query_loop zero s miner from ret h = ground arith
  length-query_loop (suc n) s miner from ret h =
      length-step_query miner from (get p st s miner from) _ n ret
        (λ l q. length-query_loop n s miner (from +ℤ pos 1) l q) h

  -- The rounds of the loop: the limit, or none where the sum wraps around.
  rounds-le :
      (from : ChainEpoch) (l : ℕ) → FitsInt64 from → pos_part (int64 (from +ℤ pos l) -ℤ from) ≤ l
  unfolding int64 ◌+ℤ◌ ◌-ℤ◌
  rounds-le from l fits = ground arith

  -- An answer has at most as many records as were asked for, one for a limit of 0; a limit above the
  -- configured maximum is refused.
  pub query_bounded :
      (lim : Limits) (s : S) (miner : Address) (from : ChainEpoch) (limit : ℕ) (ret : List Records)
      → FitsInt64 from
      → query p st lim s miner from limit ≡ ok ret
      → (limit ≤ lim.max_record_per_query) × (length ret ≤ (if limit == 0 then 1 else limit))
  unfolding query
  query_bounded lim s miner from limit ret fits h =
      elim (Bool-cases (ltb lim.max_record_per_query limit)) [
        | inl over ↦ ground arith
        | inr under ↦
            let limit' = (if limit == 0 then 1 else limit) in
            let few = rounds-le from limit' fits in
            let some_of =
              length-query_loop (pos_part (int64 (from +ℤ pos limit') -ℤ from)) s miner from ret
                (rw under at h) in
            (ground arith, omega arith)
      ]

  -- The entry of an answer for one epoch: the record, with the miner and the epoch.
  abbrev pub answer : Address → ChainEpoch → Records → Records
  answer miner e r =
      cover_map r (("miner", p.address_string miner) ∷ ("epoch", p.epoch_string e) ∷ [])

  step_query-ok :
      (miner : Address) (from : ChainEpoch) (g : Result RecorderError Records)
      (rest : Result RecorderError (List Records)) (ret : List Records)
      → step_query p st miner from g rest ≡ ok ret
      → (l : List Records) × (rest ≡ ok l)
        × ((((r : Records) → g ≢ ok r) × (ret ≡ l))
            ⊎ ((r : Records) × (g ≡ ok r) × (ret ≡ answer miner from r ∷ l)))
  unfolding step_query
  step_query-ok miner from (ok r) (ok l) ret h = (l, refl, inr (r, refl, ground arith))
  step_query-ok miner from (ok r) (err x) ret h = cc
  step_query-ok miner from (err e) (ok l) ret h = (l, refl, inl (λ r q. cc, ground arith))
  step_query-ok miner from (err e) (err x) ret h = ground arith

  query_loop_complete :
      (n : ℕ) (s : S) (miner : Address) (from e : ChainEpoch) (r : Records) (ret : List Records)
      → query_loop p st n s miner from ≡ ok ret
      → get p st s miner e ≡ ok r
      → from ≤ℤ e
      → e <ℤ from +ℤ pos n
      → Any (λ x. x ≡ answer miner e r) ret
  unfolding query_loop
  query_loop_complete zero s miner from e r ret h g low high = absurd (omega int_laws)
  query_loop_complete (suc n) s miner from e r ret h g low high =
      let (l, tail_ok, shape) = step_query-ok miner from (get p st s miner from) _ ret h in
      elim (Bool-cases (int_beq from e)) [
        | inl same ↦
            let here : get p st s miner from ≡ ok r = rw ((int_beq_iff from e).0 same) g in
            elim shape [
              | inl (missing, _) ↦ absurd (missing r here)
              | inr (r', q, whole) ↦
                  let r_eq : r' ≡ r = ground arith in
                  rw (whole, r_eq, (int_beq_iff from e).0 same) (inl refl)
            ]
        | inr other ↦
            let later =
              query_loop_complete n s miner (from +ℤ pos 1) e r l tail_ok g
                (add_one-le from e low other) (omega int_laws) in
            elim shape [
              | inl (_, whole) ↦ rw whole later
              | inr (r', q, whole) ↦ rw whole (inr later)
            ]
      ]

  -- A record of the answer: that of an epoch in the range of the loop.
  abbrev pub InRange : ℕ → S → Address → ChainEpoch → Records → Type 0
  InRange n s miner from x =
      (e : ChainEpoch) × (r : Records) × (from ≤ℤ e)
      × (e <ℤ from +ℤ pos n)
      × (get p st s miner e ≡ ok r)
      × (x ≡ answer miner e r)

  query_loop_sound :
      (n : ℕ) (s : S) (miner : Address) (from : ChainEpoch) (ret : List Records)
      → query_loop p st n s miner from ≡ ok ret
      → All (InRange n s miner from) ret
  unfolding query_loop
  query_loop_sound zero s miner from [] h = tt
  query_loop_sound zero s miner from (x ∷ ret) h = ground arith
  query_loop_sound (suc n) s miner from ret h =
      let (l, tail_ok, shape) = step_query-ok miner from (get p st s miner from) _ ret h in
      let rest =
        All-weaken (InRange n s miner (from +ℤ pos 1)) (InRange (suc n) s miner from)
          (λ x (e, r, low, high, g, q). (e, r, omega int_laws, omega int_laws, g, q)) l
          (query_loop_sound n s miner (from +ℤ pos 1) l tail_ok) in
      elim shape [
        | inl (_, whole) ↦ rw whole rest
        | inr (r, g, whole) ↦ rw whole ((from, r, omega int_laws, omega int_laws, g, refl), rest)
      ]

  -- The answer to a query whose range does not pass the int64 has, for every epoch of the range at
  -- which there is a record, that record with the miner and the epoch.
  pub query_complete :
      (lim : Limits) (s : S) (miner : Address) (from e : ChainEpoch) (limit : ℕ) (r : Records)
      (ret : List Records)
      → FitsInt64 (from +ℤ pos (if limit == 0 then 1 else limit))
      → query p st lim s miner from limit ≡ ok ret
      → get p st s miner e ≡ ok r
      → from ≤ℤ e
      → e <ℤ from +ℤ pos (if limit == 0 then 1 else limit)
      → Any (λ x. x ≡ answer miner e r) ret
  unfolding query
  query_complete lim s miner from e limit r ret fits h g low high =
      elim (Bool-cases (ltb lim.max_record_per_query limit)) [
        | inl over ↦ ground arith
        | inr under ↦
            let limit' = (if limit == 0 then 1 else limit) in
            let to = from +ℤ pos limit' in
            let loop : query_loop p st (pos_part (to -ℤ from)) s miner from ≡ ok ret =
              rw (← int64-of_fits to fits) (rw under at h) in
            query_loop_complete (pos_part (to -ℤ from)) s miner from e r ret loop g low
              (rw (add-span from to (lt→ltb _ _ (omega int_laws))) high)
      ]

  -- Each entry of the answer to a query whose range does not pass the int64 is the record of an epoch
  -- of the range, with the miner and the epoch.
  pub query_sound :
      (lim : Limits) (s : S) (miner : Address) (from : ChainEpoch) (limit : ℕ) (ret : List Records)
      → FitsInt64 (from +ℤ pos (if limit == 0 then 1 else limit))
      → query p st lim s miner from limit ≡ ok ret
      → All (InRange (if limit == 0 then 1 else limit) s miner from) ret
  unfolding query
  query_sound lim s miner from limit ret fits h =
      elim (Bool-cases (ltb lim.max_record_per_query limit)) [
        | inl over ↦ ground arith
        | inr under ↦
            let limit' = (if limit == 0 then 1 else limit) in
            let to = from +ℤ pos limit' in
            let positive : 0 < limit' = ground arith in
            let loop : query_loop p st (pos_part (to -ℤ from)) s miner from ≡ ok ret =
              rw (← int64-of_fits to fits) (rw under at h) in
            All-weaken (InRange (pos_part (to -ℤ from)) s miner from) (InRange limit' s miner from)
              (λ x (e, r, low, high, g, q).
                (e, r, low, rw (add-span from to (lt→ltb _ _ (omega int_laws))) at high, g, q))
              ret (query_loop_sound (pos_part (to -ℤ from)) s miner from ret loop)
      ]
