-- ===== src/Cmd/Run/Laws.antt =====
-- cmd/run.go and cmd/init.go: what was seen of the node where it is served.
use sophon_miner.Cmd.Run.{
  HeadTurn, RunError, RunWorld, SyncTurn, Turn, api_version_differs, config_check_failed,
  full_node_failed, goes_on, head_answered, head_turn, is_recent, jwt_client_failed, loop_turns,
  returns, run_action, run_dialled, run_found, run_no_home, run_reached, run_repo_failed, serving,
  sync_head, sync_state, sync_turn, sync_wait, sync_wait_failed,
}
use sophon_miner.Config.{MinerConfig, check}
use sophon_miner.Prelude.{
  >>=-eq-ok, Any, Bool, Bool-cases, List, Result, [], arith, err, false, if◌then◌else◌, inl, inr,
  list_eq, nat_eq, ok, refl, string_eq, true, wrap_err, wrapped_ok, ℕ, ◌==◌, ◌∷◌, ◌≡◌, ◌≢◌, ◌⊎◌,
}
use sophon_miner.Prelude.Int.{int_eq, ltb_ℤ, pos}
use sophon_miner.Repo.{
  ConfigCodec, Disk, exists, fs_api_token, fs_config, load_config_from_disk, lock, set_file,
}
use sophon_miner.Types.{ChainEpoch, state_eq}

turn_cases : {A : Type 0} (t : Turn A) → ((r : Result RunError A) × (t ≡ returns r)) ⊎ (t ≡ goes_on)
turn_cases (returns r) = inl (r, refl)
turn_cases goes_on = inr refl

-- A loop that returns a value has a turn that returned it.
loop_turns-Any :
    {I A : Type 0} (turn : I → Turn A) (P : I → Type 0) (a : A)
    → ((i : I) → turn i ≡ returns (ok a) → P i)
    → (is : List I) → loop_turns turn is ≡ ok a
    → Any P is
unfolding loop_turns
loop_turns-Any turn P a why [] h = cc
loop_turns-Any turn P a why (i ∷ is) h = elim (turn_cases (turn i)) [
  | inl (r, q) ↦ let same : r ≡ ok a = rw (q, loop_turns) at h in inl (why i (rw same at q))
  | inr q ↦ inr (loop_turns-Any turn P a why is (rw (q, loop_turns) at h))
]

-- A head above height zero.
abbrev pub IsAboveZero : HeadTurn → Type 0
IsAboveZero t = (h : ChainEpoch) × (t.height ≡ ok h) × (ltb_ℤ (pos 0) h ≡ true)

head_turn-true : (t : HeadTurn) → head_turn t ≡ returns (ok true) → IsAboveZero t
unfolding head_turn
head_turn-true t h = answered t.height refl h
  where
    answered :
        (r : Result ℕ ChainEpoch)
        → t.height ≡ r
        → head_answered t.is_done r ≡ returns (ok true)
        → IsAboveZero t
    answered (err e) q h' = unfold head_answered in cc
    answered (ok height) q h' = (height, q, unfold head_answered in ground arith)

-- A turn with an active sync at which the head was recent, or the context was done.
abbrev pub IsSynced : ℕ → SyncTurn → Type 0
IsSynced block_delay t =
    (active : ℕ) × (t.active_syncs ≡ ok active)
    × (active ≢ 0)
    × (timestamp : ℕ) × (t.head_timestamp ≡ ok timestamp)
    × ((is_recent block_delay t timestamp ≡ true) ⊎ (t.is_done ≡ true))

-- What `SyncWait` has seen of the head where it returns.
abbrev HeadSeen : ℕ → SyncTurn → Type 0
HeadSeen block_delay t =
    (timestamp : ℕ) × (t.head_timestamp ≡ ok timestamp)
    × ((is_recent block_delay t timestamp ≡ true) ⊎ (t.is_done ≡ true))

sync_head-HeadSeen :
    (watch : Bool) (block_delay : ℕ) (t : SyncTurn) (r : Result ℕ ℕ)
    → t.head_timestamp ≡ r
    → sync_head watch block_delay t r ≡ returns (ok tt)
    → HeadSeen block_delay t
unfolding sync_head
sync_head-HeadSeen watch block_delay t (err e) q h = cc
sync_head-HeadSeen watch block_delay t (ok timestamp) q h =
    elim (Bool-cases (is_recent block_delay t timestamp)) [
      | inl recent ↦ (timestamp, q, inl recent)
      | inr old ↦ elim (Bool-cases t.is_done) [
        | inl cancelled ↦ (timestamp, q, inr cancelled)
        | inr on ↦ absurd (goes old on)
      ]
    ]
  where
    goes : is_recent block_delay t timestamp ≡ false → t.is_done ≡ false → ⊥
    goes old on = ground arith

sync_turn-IsSynced :
    (watch : Bool) (block_delay : ℕ) (t : SyncTurn)
    → sync_turn watch block_delay t ≡ returns (ok tt)
    → IsSynced block_delay t
unfolding sync_turn sync_state
sync_turn-IsSynced watch block_delay t h = states t.active_syncs refl h
  where
    states :
        (r : Result ℕ ℕ)
        → t.active_syncs ≡ r
        → sync_state watch block_delay t r ≡ returns (ok tt)
        → IsSynced block_delay t
    states (err e) q h' = unfold sync_state in cc
    states (ok active) q h' =
        unfold sync_state in
        elim (Bool-cases (active == 0)) [
          | inl idle ↦ let e = rw idle at h' in cc
          | inr busy ↦
              let (timestamp, head, seen) =
                sync_head-HeadSeen watch block_delay t t.head_timestamp refl (rw busy at h') in
              let some_active : active ≢ 0 =
                λ idle. let e = (nat_eq.beq_iff active 0).1 idle in cc in
              (active, q, some_active, timestamp, head, seen)
        ]

pub sync_wait-IsSynced :
    (watch : Bool) (params : Result ℕ ℕ) (first : Result ℕ (Unit {0})) (answers : List SyncTurn)
    → sync_wait watch params first answers ≡ ok tt
    → (block_delay : ℕ) × (params ≡ ok block_delay) × Any (IsSynced block_delay) answers
unfolding sync_wait
sync_wait-IsSynced watch params first answers h =
    let (block_delay, p, rest) = >>=-eq-ok (wrap_err sync_wait_failed params) _ h in
    let (u, q, looped) = >>=-eq-ok (wrap_err sync_wait_failed first) _ rest in
    (
      block_delay,
      wrapped_ok sync_wait_failed params p,
      loop_turns-Any (sync_turn watch block_delay) (IsSynced block_delay) tt
          (λ t. sync_turn-IsSynced watch block_delay t) answers looped,
    )

module _ {D : Type 0} (disk : Disk D) (codec : ConfigCodec) (default : MinerConfig)
    (w : RunWorld D) where
  abbrev WasSynced : Type 0
  WasSynced =
      (w.nosync ≡ true)
      ⊎ ((block_delay : ℕ) × (w.network_params ≡ ok block_delay)
          × Any (IsSynced block_delay) w.syncs)

  -- What was seen before the node was made.
  pub record Served (d : D) : Type 0 where
    pub found_repo : D
    pub found_here : exists disk codec default d ≡ true → found_repo ≡ d
    pub cfg : MinerConfig
    pub loads : load_config_from_disk disk codec default found_repo fs_config ≡ ok cfg
    pub passes_check : check w.url_parses cfg ≡ ok tt
    pub above_zero : Any IsAboveZero w.heads
    pub version_same : w.same_api_version ≡ ok true
    pub was_synced : WasSynced

  when_true : (b : Bool) → (if b then ok tt else err api_version_differs) ≡ ok tt → b ≡ true
  when_true true h = refl
  when_true false h = cc

  unless-IsSynced :
      (nosync : Bool)
      → (if nosync then ok tt else sync_wait false w.network_params w.first_state w.syncs) ≡ ok tt
      → (nosync ≡ true)
        ⊎ ((block_delay : ℕ) × (w.network_params ≡ ok block_delay)
            × Any (IsSynced block_delay) w.syncs)
  unless-IsSynced true h = inl refl
  unless-IsSynced false h = inr (sync_wait-IsSynced false w.network_params w.first_state w.syncs h)

  run_reached-serving :
      (d : D) (reached : Bool)
      → run_reached disk codec default w d reached ≡ ok serving
      → (reached ≡ true) × (w.same_api_version ≡ ok true) × WasSynced
  unfolding run_reached
  run_reached-serving d false h = cc
  run_reached-serving d true h =
      let (name, p, h1) = >>=-eq-ok (wrap_err full_node_failed w.network_name) _ h in
      let (same, q, h2) = >>=-eq-ok (wrap_err full_node_failed w.same_api_version) _ h1 in
      let (u, checked, h3) =
        >>=-eq-ok (if same then ok (tt {0}) else err api_version_differs) _ h2 in
      let (v, synced, h4) =
        >>=-eq-ok
          (if w.nosync then ok (tt {0}) else sync_wait false w.network_params w.first_state w.syncs)
          _ h3 in
      let version = wrapped_ok full_node_failed w.same_api_version q in
      (refl, rw (when_true same checked) at version, unless-IsSynced w.nosync synced)

  run_dialled-serving :
      (d : D)
      → run_dialled disk codec default w d ≡ ok serving
      → Any IsAboveZero w.heads × (w.same_api_version ≡ ok true) × WasSynced
  unfolding run_dialled
  run_dialled-serving d h =
      let (u, p, h1) = >>=-eq-ok (wrap_err full_node_failed w.dial) _ h in
      let (token, q, h2) = >>=-eq-ok (wrap_err jwt_client_failed w.local_token) _ h1 in
      let (stored, d') = set_file disk codec default fs_api_token true d token in
      let (v, r, h3) = >>=-eq-ok (wrap_err run_repo_failed stored) _ h2 in
      let (reached, looped, h4) = >>=-eq-ok (loop_turns head_turn w.heads) _ h3 in
      let (above, version, synced) = run_reached-serving d' reached h4 in
      (
        loop_turns-Any head_turn IsAboveZero true (λ t. head_turn-true t) w.heads
            (rw above at looped),
        version,
        synced,
      )

  run_found-Served :
      (d0 d : D)
      → (exists disk codec default d0 ≡ true → d ≡ d0)
      → run_found disk codec default w d ≡ ok serving
      → Served d0
  unfolding run_found
  run_found-Served d0 d here h =
      let (u, p, h1) =
        >>=-eq-ok (wrap_err run_repo_failed (lock w.lock_held w.lock_acquired)) _ h in
      let (cfg, loads, h2) =
        >>=-eq-ok (wrap_err run_repo_failed (load_config_from_disk disk codec default d fs_config))
          _ h1 in
      let (v, passes, h3) =
        >>=-eq-ok (wrap_err config_check_failed (check w.url_parses cfg)) _ h2 in
      let (above, version, synced) = run_dialled-serving _ h3 in
      record {
        found_repo = d;
        found_here = here;
        cfg = cfg;
        loads = wrapped_ok run_repo_failed _ loads;
        passes_check = wrapped_ok config_check_failed _ passes;
        above_zero = above;
        version_same = version;
        was_synced = synced;
      }

  -- `run` serves the node only where the configuration that it read passed `Check`, a head above zero
  -- was seen, the versions of the API are the same, and, unless the flag says not to wait, `SyncWait`
  -- saw a recent head with an active sync, or saw one while the context was done.
  pub run_action-Served : (d : D) → run_action disk codec default w d ≡ ok serving → Served d
  unfolding run_action
  run_action-Served d h =
      let (u, p, h1) = >>=-eq-ok (wrap_err run_no_home w.expand_home) _ h in
      let (d', q, h2) =
        >>=-eq-ok (if exists disk codec default d then ok d else wrap_err run_no_home w.old_repo) _
          h1 in
      run_found-Served d d' (λ there. ground arith) h2
