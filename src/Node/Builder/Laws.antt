-- ===== src/Node/Builder/Laws.antt =====
-- node/builder.go: the parts that a configuration which passes `Check` selects.
use mathlib.Core.Path.{subst}
use sophon_miner.Config.{ApiInfo, MinerConfig, MySqlConfig, SlashFilterConfig, check}
use sophon_miner.Config.Laws.{check_iff, is_from}
use sophon_miner.Node.Builder.{
  BuildError, BuildOption, Constructor, config_miner_options, datastore, defaults, endpoint_of,
  full_node, locked_repo, miner_api, miner_ops, mysql_config_value, new_local,
  new_multi_participant, new_mysql, pointed, populate_api, record_metrics, repo, run_options,
  run_shutdown, set_api_endpoint, set_recorder_datastore, settings_of, share_ops,
}
use sophon_miner.Node.Options.{
  Settings, apply_if, by_type, if_option, module_key_eq, options, override, set_invoke, type_of,
}
use sophon_miner.Prelude.{
  Bool, Bool-cases, List, Option, Result, String, [], arith, false, if◌then◌else◌, inl, inr,
  is_some, list_eq, nat_eq, none, not, ok, refl, some, string_eq, sym, true, ◌&&◌, ◌==◌, ◌||◌, ◌∷◌,
  ◌≡◌,
}
use sophon_miner.Prelude.Int.{int_eq}
use sophon_miner.Prelude.Maps.{insert, lookup}
use sophon_miner.Types.{state_eq}

abbrev pub module_at : String → Settings Constructor → Option Constructor
module_at t s = lookup (by_type t) s.modules

-- What the settings of `run` have.
pub record IsWired (cfg : MinerConfig) (sf : SlashFilterConfig) (listen : Option String)
    (built : Result BuildError (Unit {0}) × Settings Constructor) : Type 0 where
  pub built_all : built.0 ≡ ok tt
  pub filter_chosen :
      module_at "slashfilter.SlashFilterAPI" built.1
      ≡ some (if sf.kind == "mysql" then new_mysql else new_local)
  pub mysql_passed : module_at "*config.MySQLConfig" built.1 ≡ some (mysql_config_value sf.my_sql)
  pub endpoint_chosen :
      module_at "types.APIEndpoint" built.1
      ≡ some (endpoint_of (elim listen [ some a ↦ a | none ↦ cfg.api_listen_address ]))
  pub run_stops : module_at "types.ShutdownChan" built.1 ≡ some run_shutdown
  pub invokes_filled :
      built.1.invokes
      ≡ none
        ∷ some populate_api
        ∷ some set_api_endpoint
        ∷ some set_recorder_datastore
        ∷ some record_metrics
        ∷ some new_multi_participant
        ∷ []

-- `run_options` with the options of the configuration apart.
abbrev run_with : BuildOption → Option String → List BuildOption
run_with of_config listen =
    miner_api
    ∷ options (
        override (type_of "repo.LockedRepo") locked_repo
        ∷ override (type_of "types.MetadataDS") datastore
        ∷ of_config
        ∷ [])
    ∷ override (type_of "types.ShutdownChan") run_shutdown
    ∷ apply_if (λ s. is_some listen)
        (override (type_of "types.APIEndpoint")
            (endpoint_of (elim listen [ some a ↦ a | none ↦ "" ]))
          ∷ [])
    ∷ override (type_of "v1.FullNode") full_node
    ∷ []

-- The two kinds of a filter that `Check` passes.
abbrev kind_text : Bool → String
kind_text true = "mysql"
kind_text false = "local"

abbrev filter_of_kind : Bool → MySqlConfig → SlashFilterConfig
filter_of_kind is_mysql my_sql = record { kind = kind_text is_mysql; my_sql = my_sql }

IsWired-kind :
    (cfg : MinerConfig) (is_mysql : Bool) (my_sql : MySqlConfig) (auth : ApiInfo)
    (listen : Option String)
    → let sf = filter_of_kind is_mysql my_sql in
      IsWired cfg sf listen (settings_of (run_with (pointed cfg (some sf) (some auth)) listen))
unfolding settings_of pointed share_ops miner_ops miner_api defaults options apply_if if_option
    set_invoke override insert lookup
IsWired-kind cfg true my_sql auth none = record {
  built_all = refl;
  filter_chosen = refl;
  mysql_passed = refl;
  endpoint_chosen = refl;
  run_stops = refl;
  invokes_filled = refl;
}
IsWired-kind cfg true my_sql auth (some a) = record {
  built_all = refl;
  filter_chosen = refl;
  mysql_passed = refl;
  endpoint_chosen = refl;
  run_stops = refl;
  invokes_filled = refl;
}
IsWired-kind cfg false my_sql auth none = record {
  built_all = refl;
  filter_chosen = refl;
  mysql_passed = refl;
  endpoint_chosen = refl;
  run_stops = refl;
  invokes_filled = refl;
}
IsWired-kind cfg false my_sql auth (some a) = record {
  built_all = refl;
  filter_chosen = refl;
  mysql_passed = refl;
  endpoint_chosen = refl;
  run_stops = refl;
  invokes_filled = refl;
}

abbrev known_kind : SlashFilterConfig → Bool
known_kind sf = sf.kind == "local" || (sf.kind == "mysql" && not (sf.my_sql.conn == ""))

is_of_kind :
    (sf : SlashFilterConfig)
    → known_kind sf ≡ true
    → (is_mysql : Bool) × (sf ≡ filter_of_kind is_mysql sf.my_sql)
is_of_kind sf h = elim (Bool-cases (sf.kind == "mysql")) [
  | inl e ↦ let k = (string_eq.beq_iff sf.kind "mysql").0 e in (true, ground arith)
  | inr other ↦ elim (Bool-cases (sf.kind == "local")) [
    | inl e ↦ let k = (string_eq.beq_iff sf.kind "local").0 e in (false, ground arith)
    | inr neither ↦ absurd (ground arith)
  ]
]

third_and_fifth : (a b c d e : Bool) → a && (b && (c && (d && e))) ≡ true → (c ≡ true) × (e ≡ true)
third_and_fifth a b c d e h = (ground arith, ground arith)

IsWired-pointed :
    (parses : String → Bool) (cfg : MinerConfig) (sf : Option SlashFilterConfig)
    (auth : Option ApiInfo) (listen : Option String)
    → is_from (λ x. parses x.addr) auth ≡ true
    → is_from known_kind sf ≡ true
    → (chosen : SlashFilterConfig) × (sf ≡ some chosen)
      × IsWired cfg chosen listen (settings_of (run_with (pointed cfg sf auth) listen))
IsWired-pointed parses cfg none auth listen p q = cc
IsWired-pointed parses cfg (some sf) none listen p q = cc
IsWired-pointed parses cfg (some sf) (some auth) listen p q =
    let (is_mysql, e) = is_of_kind sf q in
    (
      sf,
      refl,
      subst
          (λ x.
            IsWired cfg x listen (settings_of (run_with (pointed cfg (some x) (some auth)) listen)))
          (sym e) (IsWired-kind cfg is_mysql sf.my_sql auth listen),
    )

-- The configuration passes `Check`: the options of `run` build the settings without an error; the
-- slash filter is the one that is configured, with its MySQL settings; the endpoint is that of the
-- flag, or else that of the configuration; the node stops on the channel of `run`; and every invoke
-- but that of the journal is filled.
pub run_options-IsWired :
    (parses : String → Bool) (cfg : MinerConfig) (listen : Option String)
    → check parses cfg ≡ ok tt
    → (sf : SlashFilterConfig) × (cfg.slash_filter ≡ some sf)
      × IsWired cfg sf listen (settings_of (run_options (ok cfg) listen))
unfolding run_options repo config_miner_options
run_options-IsWired parses cfg listen h =
    let (parsed_auth, known) = third_and_fifth _ _ _ _ _ ((check_iff parses cfg).0 h) in
    IsWired-pointed parses cfg cfg.slash_filter cfg.auth listen parsed_auth known
