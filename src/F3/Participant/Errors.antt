-- ===== src/F3/Participant/Errors.antt =====
-- f3participant/participation.go: what ends a participant.
use sophon_miner.F3.Participant.{
  Failure, Held, Lease, Manifest, NodeErr, Run, Step, World, await_manifest, context_done, ended,
  f3_is_disabled, held_cancelled, leave, manifest_answered, manifest_fetched, manifest_turn,
  on_error, on_lease, participate_turn, participated, participation_answered, run, run_cancelled,
  run_loop, run_turn, still_running, ticket_answered, ticket_turn, try_get_ticket, try_participate,
  unless_cancelled, with_f3_ticket,
}
use sophon_miner.F3.Participant.Loops.{while_alive-ended}
use sophon_miner.Prelude.{
  Bool, Bool-cases, Option, Result, [], arith, err, inl, inr, leb, list_eq, nat_eq, none, ok, refl,
  some, string_eq, true, ℕ, ◌/◌, ◌==◌, ◌≡◌, ◌⊎◌,
}
use sophon_miner.Prelude.Int.{int_eq, ℤ}
use sophon_miner.Types.{Bytes, state_eq}

module _ {W : Type 0} (n : World W) where
  -- An error that the node answers in some state of the world.
  abbrev pub IsAnswer : NodeErr → Type 0
  IsAnswer e =
      ((w : W) × (previous : Bytes) × ((n.get_or_renew_ticket w previous).0 ≡ err e))
      ⊎ ((w : W) × (ticket : Bytes) × ((n.participate w ticket).0 ≡ err e))
      ⊎ ((w : W) × ((n.get_manifest w).0 ≡ err e))

  abbrev pub SaysDisabled : NodeErr → Type 0
  SaysDisabled e = (e.is_f3_disabled ≡ true) × IsAnswer e

  -- A result whose error is either the end of the context, or an answer that names F3 as disabled.
  abbrev pub IsFair : {A : Type 0} → Bool → Result Failure A → Type 0
  IsFair c (ok a) = Unit
  IsFair c (err context_done) = c ≡ true
  IsFair c (err (f3_is_disabled e)) = SaysDisabled e

  disabled-Says : (e x : NodeErr) → IsAnswer e → e.is_f3_disabled ≡ true → e ≡ x → SaysDisabled x
  disabled-Says e x answered on same = rw (← same) (on, answered)

  ticket_answered-IsFair :
      (r : Result NodeErr Bytes) (w : W) (q : Result Failure Bytes)
      → ((e : NodeErr) → r ≡ err e → IsAnswer e)
      → (ticket_answered n r w).0 ≡ leave q
      → IsFair (n.cancelled (ticket_answered n r w).1) q
  unfolding ticket_answered
  ticket_answered-IsFair (ok t) w (ok x) answers h = tt
  ticket_answered-IsFair (ok t) w (err x) answers h = cc
  ticket_answered-IsFair (err e) w (ok x) answers h = tt
  ticket_answered-IsFair (err e) w (err context_done) answers h = ground arith
  ticket_answered-IsFair (err e) w (err (f3_is_disabled x)) answers h =
      disabled-Says e x (answers e refl) (ground arith) (ground arith)

  ticket_turn-IsFair :
      (previous : Bytes) (w : W) (q : Result Failure Bytes)
      → (ticket_turn n previous w).0 ≡ leave q
      → IsFair (n.cancelled (ticket_turn n previous w).1) q
  unfolding ticket_turn
  ticket_turn-IsFair previous w q h =
      elim (Bool-cases (n.cancelled (n.get_or_renew_ticket w previous).1)) [
        | inl c ↦ let e : err context_done ≡ q = ground arith in rw (c, ← e) c
        | inr alive ↦ rw alive (
            ticket_answered-IsFair (n.get_or_renew_ticket w previous).0
              (n.get_or_renew_ticket w previous).1 q (λ e a. inl (w, previous, a)) (rw alive at h))
      ]

  manifest_answered-IsFair :
      (r : Result NodeErr (Option Manifest)) (w : W) (q : Result Failure Manifest)
      → ((e : NodeErr) → r ≡ err e → IsAnswer e)
      → (manifest_answered n r w).0 ≡ leave q
      → IsFair (n.cancelled (manifest_answered n r w).1) q
  unfolding manifest_answered
  manifest_answered-IsFair r w (ok x) answers h = tt
  manifest_answered-IsFair (ok (some m)) w (err x) answers h = cc
  manifest_answered-IsFair (ok none) w (err x) answers h = cc
  manifest_answered-IsFair (err e) w (err context_done) answers h = ground arith
  manifest_answered-IsFair (err e) w (err (f3_is_disabled x)) answers h =
      disabled-Says e x (answers e refl) (ground arith) (ground arith)

  try_get_ticket-IsFair :
      (fuel : ℕ) (previous : Bytes) (w : W) (q : Result Failure Bytes)
      → (try_get_ticket n fuel previous w).0 ≡ ended q
      → IsFair (n.cancelled (try_get_ticket n fuel previous w).1) q
  unfolding try_get_ticket
  try_get_ticket-IsFair fuel previous w q h =
      while_alive-ended (λ r x. IsFair (n.cancelled x) r) n.cancelled (ticket_turn n previous)
        (λ x c. c) (λ x r left. ticket_turn-IsFair previous x r left) fuel (n.reset w) q h

  manifest_turn-IsFair :
      (w : W) (q : Result Failure Manifest)
      → (manifest_turn n w).0 ≡ leave q
      → IsFair (n.cancelled (manifest_turn n w).1) q
  unfolding manifest_turn
  manifest_turn-IsFair w q h =
      manifest_answered-IsFair (n.get_manifest w).0 (n.get_manifest w).1 q (λ e a. inr (inr (w, a)))
        h

  await_manifest-IsFair :
      (fuel : ℕ) (w : W) (q : Result Failure Manifest)
      → (await_manifest n fuel w).0 ≡ ended q
      → IsFair (n.cancelled (await_manifest n fuel w).1) q
  unfolding await_manifest
  await_manifest-IsFair fuel w q h =
      while_alive-ended (λ r x. IsFair (n.cancelled x) r) n.cancelled (manifest_turn n) (λ x c. c)
        (λ x r left. manifest_turn-IsFair x r left) fuel (n.reset w) q h

  module _ (max_attempts lease_term : ℕ) where
    abbrev FairTurn : Step (Unit {0}) × Held n → Type 0
    FairTurn (s, (m, w)) = (q : Result Failure (Unit {0})) → s ≡ leave q → IsFair (n.cancelled w) q

    on_error-Fair :
        (e : NodeErr) (m : Option Manifest) (w : W)
        → IsAnswer e
        → FairTurn (on_error n max_attempts lease_term e m w)
    unfolding on_error
    on_error-Fair e m w answered (ok u) h = tt
    on_error-Fair e m w answered (err context_done) h = ground arith
    on_error-Fair e m w answered (err (f3_is_disabled x)) h =
        disabled-Says e x answered (ground arith) (ground arith)

    manifest_fetched-Fair :
        (lease : Lease) (old : Option Manifest) (r : Run Manifest) (w : W)
        → ((q : Result Failure Manifest) → r ≡ ended q → IsFair (n.cancelled w) q)
        → FairTurn (manifest_fetched n max_attempts lease_term lease old (r, w))
    unfolding manifest_fetched
    manifest_fetched-Fair lease old still_running w fair q h = cc
    manifest_fetched-Fair lease old (ended (err x)) w fair q h =
        let e : err x ≡ q = ground arith in rw (← e) (errors x (fair (err x) refl))
      where
        errors :
            (x : Failure)
            → IsFair {A = Manifest} (n.cancelled w) (err x)
            → IsFair {A = Unit {0}} (n.cancelled w) (err x)
        errors context_done c = c
        errors (f3_is_disabled e) d = d
    manifest_fetched-Fair lease old (ended (ok m)) w fair (ok u) h = tt
    manifest_fetched-Fair lease old (ended (ok m)) w fair (err x) h = ground arith

    on_lease-Fair :
        (fuel : ℕ) (lease : Lease) (m : Option Manifest) (w : W)
        → FairTurn (on_lease n max_attempts lease_term fuel lease m w)
    unfolding on_lease
    on_lease-Fair fuel lease none w =
        manifest_fetched-Fair lease none (await_manifest n fuel w).0 (await_manifest n fuel w).1
          (await_manifest-IsFair fuel w)
    on_lease-Fair fuel lease (some m) w = elim (Bool-cases (lease.network == m.network_name)) [
      | inl same ↦ rw same (λ q h. cc)
      | inr other ↦ rw other (
          manifest_fetched-Fair lease (some m) (await_manifest n fuel w).0
            (await_manifest n fuel w).1 (await_manifest-IsFair fuel w))
    ]

    participation_answered-Fair :
        (fuel : ℕ) (r : Result NodeErr Lease) (m : Option Manifest) (w : W)
        → ((e : NodeErr) → r ≡ err e → IsAnswer e)
        → FairTurn (participation_answered n max_attempts lease_term fuel r m w)
    unfolding participation_answered
    participation_answered-Fair fuel (err e) m w answers = on_error-Fair e m w (answers e refl)
    participation_answered-Fair fuel (ok lease) m w answers =
        elim (Bool-cases (leb lease.validity_term (lease_term / 2))) [
          | inl late ↦ rw late (λ q h. let e : ok tt ≡ q = ground arith in rw (← e) tt)
          | inr early ↦ rw early (on_lease-Fair fuel lease m (n.reset w))
        ]

    participate_turn-Fair :
        (fuel : ℕ) (ticket : Bytes) (x : Held n)
        → FairTurn (participate_turn n max_attempts lease_term fuel ticket x)
    unfolding participate_turn
    participate_turn-Fair fuel ticket (m, w) =
        elim (Bool-cases (n.cancelled (n.participate w ticket).1)) [
          | inl c ↦ rw c (λ q h. let e : err context_done ≡ q = ground arith in rw (← e) c)
          | inr alive ↦ rw alive (
              participation_answered-Fair fuel (n.participate w ticket).0 m
                (n.participate w ticket).1 (λ e a. inr (inl (w, ticket, a))))
        ]

    try_participate-IsFair :
        (fuel : ℕ) (ticket : Bytes) (w : W) (q : Result Failure (Unit {0}))
        → (try_participate n max_attempts lease_term fuel ticket w).0 ≡ ended q
        → IsFair (n.cancelled (try_participate n max_attempts lease_term fuel ticket w).1.1) q
    unfolding try_participate
    try_participate-IsFair fuel ticket w q h =
        while_alive-ended (λ r x. IsFair (n.cancelled x.1) r)
          (held_cancelled n max_attempts lease_term)
          (participate_turn n max_attempts lease_term fuel ticket) (λ x c. c)
          (λ x r left. participate_turn-Fair fuel ticket x r left) fuel (none, n.reset w) q h

    -- What ends `run`: the end of the context, or an answer that names F3 as disabled.
    abbrev IsFinal : Bool → Result Failure (Unit {0}) → Type 0
    IsFinal c (ok u) = ⊥
    IsFinal c (err context_done) = c ≡ true
    IsFinal c (err (f3_is_disabled e)) = SaysDisabled e

    IsFinal-error :
        (A : Type 0) (c : Bool) (x : Failure) → IsFair {A = A} c (err x) → IsFinal c (err x)
    IsFinal-error A c context_done h = h
    IsFinal-error A c (f3_is_disabled e) h = h

    abbrev FairRun : Step (Unit {0}) × Bytes × W → Type 0
    FairRun (s, t, w) = (q : Result Failure (Unit {0})) → s ≡ leave q → IsFinal (n.cancelled w) q

    participated-Fair :
        (ticket : Bytes) (began : ℤ) (r : Run (Unit {0})) (m : Option Manifest) (w : W)
        → ((q : Result Failure (Unit {0})) → r ≡ ended q → IsFair (n.cancelled w) q)
        → FairRun (participated n max_attempts lease_term ticket began (r, (m, w)))
    unfolding participated
    participated-Fair ticket began still_running m w fair q h = cc
    participated-Fair ticket began (ended (err x)) m w fair q h =
        let e : err x ≡ q = ground arith in
        rw (← e) (IsFinal-error (Unit {0}) (n.cancelled w) x (fair (err x) refl))
    participated-Fair ticket began (ended (ok u)) m w fair q h = cc

    with_f3_ticket-Fair :
        (fuel : ℕ) (began : ℤ) (r : Run Bytes) (w : W) (old : Bytes)
        → ((q : Result Failure Bytes) → r ≡ ended q → IsFair (n.cancelled w) q)
        → FairRun (with_f3_ticket n max_attempts lease_term fuel began (r, w) old)
    unfolding with_f3_ticket
    with_f3_ticket-Fair fuel began still_running w old fair q h = cc
    with_f3_ticket-Fair fuel began (ended (err x)) w old fair q h =
        let e : err x ≡ q = ground arith in
        rw (← e) (IsFinal-error Bytes (n.cancelled w) x (fair (err x) refl))
    with_f3_ticket-Fair fuel began (ended (ok ticket)) w old fair q h =
        participated-Fair ticket began (try_participate n max_attempts lease_term fuel ticket w).0
          (try_participate n max_attempts lease_term fuel ticket w).1.0
          (try_participate n max_attempts lease_term fuel ticket w).1.1
          (try_participate-IsFair fuel ticket w) q h

    run_turn-Fair :
        (fuel : ℕ) (x : Bytes × W) (q : Result Failure (Unit {0}))
        → (run_turn n max_attempts lease_term fuel x).0 ≡ leave q
        → IsFinal (n.cancelled (run_turn n max_attempts lease_term fuel x).1.1) q
    unfolding run_turn
    run_turn-Fair fuel (t, w) q h =
        with_f3_ticket-Fair fuel (n.now w) (try_get_ticket n fuel t w).0
          (try_get_ticket n fuel t w).1 t (try_get_ticket-IsFair fuel t w) q h

    -- The result is no error and the context is done at the end, or it is an answer of the node that
    -- names F3 as disabled.
    abbrev pub EndsWith : Bool → Result Failure (Unit {0}) → Type 0
    EndsWith c r =
        ((r ≡ ok tt) × (c ≡ true)) ⊎ ((x : NodeErr) × (r ≡ err (f3_is_disabled x)) × SaysDisabled x)

    unless_cancelled-EndsWith :
        (l : Run (Unit {0})) (t : Bytes) (w : W) (r : Result Failure (Unit {0}))
        → ((q : Result Failure (Unit {0})) → l ≡ ended q → IsFinal (n.cancelled w) q)
        → unless_cancelled n max_attempts lease_term (l, (t, w)) ≡ ended r
        → EndsWith (n.cancelled w) r
    unfolding unless_cancelled
    unless_cancelled-EndsWith still_running t w r final h = cc
    unless_cancelled-EndsWith (ended (ok u)) t w r final h = absurd (final (ok u) refl)
    unless_cancelled-EndsWith (ended (err context_done)) t w r final h =
        let c = final (err context_done) refl in inl (ground arith, c)
    unless_cancelled-EndsWith (ended (err (f3_is_disabled x))) t w r final h =
        elim (Bool-cases (n.cancelled w)) [
          | inl done_now ↦ inl (ground arith, done_now)
          | inr alive ↦ inr (x, ground arith, final (err (f3_is_disabled x)) refl)
        ]

    -- Where the run of a participant ends, either the context is done and there is no error, or the
    -- error is an answer of the node that says that F3 is disabled. No other error of the node ends it.
    pub run-EndsWith :
        (fuel : ℕ) (w : W) (r : Result Failure (Unit {0}))
        → run n max_attempts lease_term fuel w ≡ ended r
        → EndsWith (n.cancelled (run_loop n max_attempts lease_term fuel w).1.1) r
    unfolding run run_loop
    run-EndsWith fuel w r h =
        let out = run_loop n max_attempts lease_term fuel w in
        unless_cancelled-EndsWith out.0 out.1.0 out.1.1 r
          (while_alive-ended (λ q x. IsFinal (n.cancelled x.1) q)
            (run_cancelled n max_attempts lease_term) (run_turn n max_attempts lease_term fuel)
            (λ x c. c) (λ x q left_at. run_turn-Fair fuel x q left_at) fuel ([], w))
          h
