-- ===== src/Node/Builder.antt =====
-- node/builder.go: the settings that a configuration makes, and the node that fx runs with them.
pub mod Laws
use sophon_miner.Config.{ApiInfo, MinerConfig, MySqlConfig, RecorderConfig, SlashFilterConfig}
use sophon_miner.Node.Options.{
  ModuleKey, NodeOption, Settings, apply_if, error_option, if_option, invoke, module_key_eq,
  options, override, type_of,
}
use sophon_miner.Prelude.{
  List, Option, Result, String, [], err, if◌then◌else◌, is_some, list_eq, ltb, map, nat_eq, none,
  ok, some, string_eq, wrap_err, ℕ, ◌==◌, ◌∷◌,
}
use sophon_miner.Prelude.Int.{int64, int_eq, pos}
use sophon_miner.Recorder.{Limits, default_limits}
use sophon_miner.Repo.{RepoError}
use sophon_miner.Types.{state_eq}

-- What is given to fx.Provide, fx.Invoke and fx.Populate.
pub data Constructor : Type 0 where
  env_disabled_events open_filesystem_journal metrics_scope : Constructor
  -- The channels that `defaults` and `run` make.
  default_shutdown run_shutdown : Constructor
  locked_repo datastore full_node : Constructor
  config_value : MinerConfig → Constructor
  mysql_config_value : MySqlConfig → Constructor
  -- multiaddr.NewMultiaddr of an address.
  endpoint_of : String → Constructor
  common_api new_local new_mysql : Constructor
  venus_auth : String → String → Constructor
  new_miner_manager set_recorder_datastore new_miner_processor new_multi_participant : Constructor
  record_metrics set_api_endpoint populate_api : Constructor
  -- fx.Options()
  no_options : Constructor

pub data BuildError : Type 0 where
  build_repo_failed : RepoError → BuildError
  -- A nil pointer of the configuration is dereferenced, which ends the program.
  build_panics : BuildError
  options_failed : BuildError → BuildError
  starting_failed : ℕ → BuildError

abbrev pub BuildOption : Type 0
BuildOption = NodeOption BuildError Constructor

-- The positions in `invokes`; nothing is put at `init_journal_key`.
abbrev pub init_journal_key : ℕ
init_journal_key = 0

abbrev pub extract_api_key : ℕ
extract_api_key = 1

abbrev pub set_api_endpoint_key : ℕ
set_api_endpoint_key = 2

abbrev pub set_recorder_datastore_key : ℕ
set_recorder_datastore_key = 3

abbrev pub launch_metrics_sample_thread : ℕ
launch_metrics_sample_thread = 4

abbrev pub f3_participant_key : ℕ
f3_participant_key = 5

-- `_nInvokes` positions.
abbrev pub no_invokes : List (Option Constructor)
no_invokes = none ∷ none ∷ none ∷ none ∷ none ∷ none ∷ []

unfoldable pub defaults : List BuildOption
defaults =
    override (type_of "journal.DisabledEvents") env_disabled_events
    ∷ override (type_of "journal.Journal") open_filesystem_journal
    ∷ override (type_of "helpers.MetricsCtx") metrics_scope
    ∷ override (type_of "types.ShutdownChan") default_shutdown
    ∷ []

-- What the invoke at `set_recorder_datastore_key` sets: `none` leaves the recorder disabled; else the
-- most records for a query, and the epochs after which a record expires.
unfoldable pub recorder_limits : Option RecorderConfig → Option Limits
recorder_limits none = none
recorder_limits (some r) =
    if r.enable
    then some (record {
      max_record_per_query =
          (if ltb 0 r.max_record_per_query
            then r.max_record_per_query
            else default_limits.max_record_per_query);
      expire_epoch =
          (if ltb 0 r.expire_epoch
            then int64 (pos r.expire_epoch)
            else default_limits.expire_epoch);
    })
    else none

unfoldable pub share_ops : MinerConfig → SlashFilterConfig → BuildOption
share_ops cfg sf = options (
    override (type_of "*config.MinerConfig") (config_value cfg)
    ∷ override (type_of "*config.MySQLConfig") (mysql_config_value sf.my_sql)
    ∷ override (type_of "types.APIEndpoint") (endpoint_of cfg.api_listen_address)
    ∷ override (type_of "api.Common") common_api
    ∷ [])

unfoldable pub miner_ops : SlashFilterConfig → ApiInfo → BuildOption
miner_ops sf auth = options (
    if_option (sf.kind == "local") (override (type_of "slashfilter.SlashFilterAPI") new_local ∷ [])
    ∷ if_option (sf.kind == "mysql")
        (override (type_of "slashfilter.SlashFilterAPI") new_mysql ∷ [])
    ∷ override (type_of "jwtclient.IAuthClient") (venus_auth auth.addr auth.token)
    ∷ override (type_of "minermanager.MinerManageAPI") new_miner_manager
    ∷ override (invoke set_recorder_datastore_key) set_recorder_datastore
    ∷ override (type_of "miner.MiningAPI") new_miner_processor
    ∷ override (invoke f3_participant_key) new_multi_participant
    ∷ override (invoke launch_metrics_sample_thread) record_metrics
    ∷ [])

pointed : MinerConfig → Option SlashFilterConfig → Option ApiInfo → BuildOption
pointed cfg (some sf) (some auth) = options (
    share_ops cfg sf
    ∷ miner_ops sf auth
    ∷ override (invoke set_api_endpoint_key) set_api_endpoint
    ∷ [])
pointed cfg none auth = error_option build_panics
pointed cfg (some sf) none = error_option build_panics

-- `ConfigMinerOptions`
unfoldable pub config_miner_options : MinerConfig → BuildOption
unfolding pointed
config_miner_options cfg = pointed cfg cfg.slash_filter cfg.auth

repo_read : Result RepoError MinerConfig → BuildOption
repo_read (err e) = error_option (build_repo_failed e)
repo_read (ok cfg) = options (
    override (type_of "repo.LockedRepo") locked_repo
    ∷ override (type_of "types.MetadataDS") datastore
    ∷ config_miner_options cfg
    ∷ [])

-- `Repo`, with what `Lock` and then `Config` return.
unfoldable pub repo : Result RepoError MinerConfig → BuildOption
unfolding repo_read
repo r = repo_read r

unfoldable pub miner_api : BuildOption
miner_api = options ((λ s. override (invoke extract_api_key) populate_api s) ∷ [])

-- The options that run.go passes; `listen` is the flag.
unfoldable pub run_options : Result RepoError MinerConfig → Option String → List BuildOption
run_options r listen =
    miner_api
    ∷ repo r
    ∷ override (type_of "types.ShutdownChan") run_shutdown
    ∷ apply_if (λ s. is_some listen)
        (override (type_of "types.APIEndpoint")
            (endpoint_of (elim listen [ some a ↦ a | none ↦ "" ]))
          ∷ [])
    ∷ override (type_of "v1.FullNode") full_node
    ∷ []

-- The settings that `New` makes before it starts fx.
unfoldable pub settings_of : List BuildOption → Result BuildError (Unit {0}) × Settings Constructor
settings_of opts =
    options (options defaults ∷ options opts ∷ []) (record { modules = []; invokes = no_invokes })

abbrev pub fill_hole : Option Constructor → Constructor
fill_hole none = no_options
fill_hole (some c) = c

started_with :
    (List Constructor → List Constructor → Result ℕ (Unit {0}))
    → Result BuildError (Unit {0}) × Settings Constructor
    → Result BuildError (Unit {0})
started_with start (err e, s) = err (options_failed e)
started_with start (ok u, s) =
    wrap_err starting_failed
      (start (map (λ (m : ModuleKey × Constructor). m.1) s.modules) (map fill_hole s.invokes))

-- `New`: `start` is fx.New with its Start, given the constructors and the invokes.
unfoldable pub new :
    (List Constructor → List Constructor → Result ℕ (Unit {0}))
    → List BuildOption
    → Result BuildError (Unit {0})
unfolding started_with
new start opts = started_with start (settings_of opts)
