-- ===== src/Cmd/Run.antt =====
-- cmd/run.go: what `run` does before the node is there, and cmd/init.go, `SyncWait`.
-- The node's answers are lists, one for each turn of a loop; a loop that has used up its list is still
-- waiting. What is printed is left out.
pub mod Laws
use sophon_miner.Config.{ConfigError, MinerConfig, check}
use sophon_miner.Node.Builder.{BuildError, Constructor, new, run_options}
use sophon_miner.Prelude.{
  Bool, List, Option, Result, String, [], err, false, if◌then◌else◌, list_eq, nat_eq, not, ok,
  string_eq, true, wrap_err, ℕ, ◌&&◌, ◌==◌, ◌>>=◌, ◌>>◌, ◌∷◌,
}
use sophon_miner.Prelude.Int.{int64, int_eq, ltb_ℤ, pos, ℤ, ◌-ℤ◌}
use sophon_miner.Repo.{
  ConfigCodec, Disk, RepoError, exists, fs_api_token, fs_config, load_config_from_disk, lock,
  migrate, set_file,
}
use sophon_miner.Types.{Bytes, ChainEpoch, state_eq}

pub data RunError : Type 0 where
  run_no_home : ℕ → RunError
  run_repo_failed : RepoError → RunError
  config_check_failed : ConfigError → RunError
  full_node_failed : ℕ → RunError
  jwt_client_failed : ℕ → RunError
  sync_wait_failed : ℕ → RunError
  api_version_differs : RunError
  creating_node_failed : BuildError → RunError
  still_waiting : RunError

-- One turn of a loop: the function returns, or the loop goes on.
pub data Turn (A : Type 0) : Type 0 where
  returns : Result RunError A → Turn A
  goes_on : Turn A

-- The turns of a loop, one answer for each.
unfoldable pub loop_turns : {I A : Type 0} → (I → Turn A) → List I → Result RunError A
loop_turns turn [] = err still_waiting
loop_turns turn (i ∷ is) =
    let rest = loop_turns turn is in elim (turn i) [ returns r ↦ r | goes_on ↦ rest ]

-- A turn of the wait for the first height: the head, and whether the context is done.
pub record HeadTurn : Type 0 where
  pub height : Result ℕ ChainEpoch
  pub is_done : Bool

-- True where the height is above zero, false where the user leaves.
head_answered : Bool → Result ℕ ChainEpoch → Turn Bool
head_answered is_done (err e) = returns (err (full_node_failed e))
head_answered is_done (ok h) =
    if ltb_ℤ (pos 0) h then returns (ok true) else if is_done then returns (ok false) else goes_on

unfoldable pub head_turn : HeadTurn → Turn Bool
unfolding head_answered
head_turn t = head_answered t.is_done t.height

-- A turn of `SyncWait`: how many syncs are active, the least timestamp of the head, the clock in
-- seconds, and whether the context is done.
pub record SyncTurn : Type 0 where
  pub active_syncs : Result ℕ ℕ
  pub head_timestamp : Result ℕ ℕ
  pub now : ℤ
  pub is_done : Bool

abbrev pub is_recent : ℕ → SyncTurn → ℕ → Bool
is_recent block_delay t timestamp =
    ltb_ℤ (int64 (t.now -ℤ int64 (pos timestamp))) (int64 (pos block_delay))

sync_head : Bool → ℕ → SyncTurn → Result ℕ ℕ → Turn (Unit {0})
sync_head watch block_delay t (err e) = returns (err (sync_wait_failed e))
sync_head watch block_delay t (ok timestamp) =
    if not watch && is_recent block_delay t timestamp
    then returns (ok tt)
    else if t.is_done
    then returns (ok tt)
    else goes_on

-- With no active sync it sleeps and asks again, without a look at the context.
sync_state : Bool → ℕ → SyncTurn → Result ℕ ℕ → Turn (Unit {0})
unfolding sync_head
sync_state watch block_delay t (err e) = returns (err (sync_wait_failed e))
sync_state watch block_delay t (ok active) =
    if active == 0 then goes_on else sync_head watch block_delay t t.head_timestamp

unfoldable pub sync_turn : Bool → ℕ → SyncTurn → Turn (Unit {0})
unfolding sync_state
sync_turn watch block_delay t = sync_state watch block_delay t t.active_syncs

-- `SyncWait`, with the parameters of the network and the first state.
unfoldable pub sync_wait :
    Bool → Result ℕ ℕ → Result ℕ (Unit {0}) → List SyncTurn → Result RunError (Unit {0})
sync_wait watch params first answers = do
  block_delay ← wrap_err sync_wait_failed params
  _ ← wrap_err sync_wait_failed first
  loop_turns (sync_turn watch block_delay) answers

-- What `run` asks of the world.
pub record RunWorld (D : Type 0) : Type 0 where
  pub expand_home : Result ℕ (Unit {0})
  -- "~/.venusminer", which is taken where the repository is not there.
  pub old_repo : Result ℕ D
  pub lock_held : Result ℕ Bool
  pub lock_acquired : Result ℕ (Unit {0})
  pub url_parses : String → Bool
  pub dial : Result ℕ (Unit {0})
  -- The token of jwtclient.NewLocalAuthClient.
  pub local_token : Result ℕ Bytes
  pub heads : List HeadTurn
  pub network_name : Result ℕ String
  pub same_api_version : Result ℕ Bool
  pub nosync : Bool
  pub network_params : Result ℕ ℕ
  pub first_state : Result ℕ (Unit {0})
  pub syncs : List SyncTurn
  pub listen : Option String
  pub fx_start : List Constructor → List Constructor → Result ℕ (Unit {0})

pub data RunEnd : Type 0 where
  -- The user leaves before the first height.
  left : RunEnd
  -- `node.New` succeeded; what follows listens and serves.
  serving : RunEnd

module _ {D : Type 0} (disk : Disk D) (codec : ConfigCodec) (default : MinerConfig)
    (w : RunWorld D) where
  run_synced : D → Result RunError RunEnd
  run_synced d = do
    _ ← wrap_err creating_node_failed (
        new w.fx_start
          (run_options (load_config_from_disk disk codec default d fs_config) w.listen))
    ok serving

  run_reached : D → Bool → Result RunError RunEnd
  unfolding run_synced
  run_reached d false = ok left
  run_reached d true = do
    _ ← wrap_err full_node_failed w.network_name
    same ← wrap_err full_node_failed w.same_api_version
    _ ← if same then ok (tt {0}) else err api_version_differs
    _ ← if w.nosync then ok (tt {0}) else sync_wait false w.network_params w.first_state w.syncs
    run_synced d

  run_dialled : D → Result RunError RunEnd
  unfolding run_reached
  run_dialled d = do
    _ ← wrap_err full_node_failed w.dial
    token ← wrap_err jwt_client_failed w.local_token
    let (stored, d') = set_file disk codec default fs_api_token true d token
    _ ← wrap_err run_repo_failed stored
    reached ← loop_turns head_turn w.heads
    run_reached d' reached

  -- A migration that fails is logged. The lock of this part is closed before the node takes it.
  run_found : D → Result RunError RunEnd
  unfolding run_dialled
  run_found d = do
    _ ← wrap_err run_repo_failed (lock w.lock_held w.lock_acquired)
    cfg ← wrap_err run_repo_failed (load_config_from_disk disk codec default d fs_config)
    _ ← wrap_err config_check_failed (check w.url_parses cfg)
    run_dialled (migrate disk codec default true d fs_config).1

  unfoldable pub run_action : D → Result RunError RunEnd
  unfolding run_found
  run_action d = do
    _ ← wrap_err run_no_home w.expand_home
    d' ← if exists disk codec default d then ok d else wrap_err run_no_home w.old_repo
    run_found d'
