-- ===== src/Config.antt =====
-- node/config: the configuration, its defaults (def.go), its check, and the conversion of the
-- configuration of version 1.7 (migrate/def_nv170.go). A pointer may be nil, `none`; the settings of
-- tracing and metrics, which are the metrics library's, are kept as their text.
pub mod Laws
use sophon_miner.Prelude.{
  Bool, List, Option, Result, String, [], err, false, if◌then◌else◌, none, ok, some, string_eq,
  true, ℕ, ◌==◌, ◌>>=◌, ◌>>◌, ◌||◌, ◌∷◌,
}
use sophon_miner.Prelude.Int.{pos, ℤ}

-- A time.Duration, in nanoseconds.
abbrev pub Duration : Type 0
Duration = ℤ

pub record ApiInfo : Type 0 where
  pub addr : String
  pub token : String

pub record GatewayNode : Type 0 where
  pub listen_api : List String
  pub token : String

pub record MySqlConfig : Type 0 where
  pub conn : String
  pub max_open_conn : ℤ
  pub max_idle_conn : ℤ
  pub conn_max_life_time : Duration
  pub debug : Bool

pub record SlashFilterConfig : Type 0 where
  pub kind : String
  pub my_sql : MySqlConfig

pub record RecorderConfig : Type 0 where
  pub enable : Bool
  pub expire_epoch : ℕ
  pub max_record_per_query : ℕ

pub record MinerConfig : Type 0 where
  pub api_listen_address : String
  pub full_node : Option ApiInfo
  pub gateway : Option GatewayNode
  pub auth : Option ApiInfo
  pub submit_nodes : List ApiInfo
  pub f3_node : Option ApiInfo
  pub propagation_delay_secs : ℕ
  pub mpool_select_delay_secs : ℕ
  pub miner_once_timeout : Duration
  pub slash_filter : Option SlashFilterConfig
  pub recorder : Option RecorderConfig
  pub tracing : Option String
  pub metrics : Option String

abbrev pub default_api_info : ApiInfo
default_api_info = record { addr = "/ip4/0.0.0.0/tcp/12308/http"; token = "" }

abbrev pub new_default_gateway_node : GatewayNode
new_default_gateway_node = record { listen_api = []; token = "" }

abbrev pub new_slash_filter_config : SlashFilterConfig
new_slash_filter_config = record {
  kind = "local";
  my_sql = record {
    conn = "";
    max_open_conn = pos 100;
    max_idle_conn = pos 10;
    conn_max_life_time = pos 60000000000;
    debug = false;
  };
}

-- `DefaultMinerConfig`, with the defaults of the metrics library.
abbrev pub default_miner_config : String → String → MinerConfig
default_miner_config trace metric = record {
  api_listen_address = "/ip4/127.0.0.1/tcp/12308";
  full_node = some default_api_info;
  gateway = some new_default_gateway_node;
  auth = some default_api_info;
  submit_nodes = [];
  f3_node = none;
  propagation_delay_secs = 12;
  mpool_select_delay_secs = 0;
  miner_once_timeout = pos 15000000000;
  slash_filter = some new_slash_filter_config;
  recorder = none;
  tracing = some trace;
  metrics = some metric;
}

pub data ConfigError : Type 0 where
  no_listen_address : ConfigError
  no_full_node : ConfigError
  bad_auth_url : String → ConfigError
  no_gateway : ConfigError
  no_mysql_dsn : ConfigError
  unknown_slash_filter : String → ConfigError
  -- A nil pointer is dereferenced, which ends the program.
  nil_dereference : ConfigError

abbrev deref : {A : Type 0} → Option A → Result ConfigError A
deref none = err nil_dereference
deref (some a) = ok a

abbrev pub no_address : List String → Bool
no_address [] = true
no_address (_ ∷ _) = false

unfoldable pub check_listen : String → Result ConfigError (Unit {0})
check_listen addr = if addr == "" then err no_listen_address else ok tt

unfoldable pub check_full_node : Option ApiInfo → Result ConfigError (Unit {0})
check_full_node none = err nil_dereference
check_full_node (some full) =
    if full.addr == "" || full.token == "" then err no_full_node else ok tt

-- `url.Parse` succeeds.
unfoldable pub check_auth : (String → Bool) → Option ApiInfo → Result ConfigError (Unit {0})
check_auth parses none = err nil_dereference
check_auth parses (some auth) = if parses auth.addr then ok tt else err (bad_auth_url auth.addr)

unfoldable pub check_gateway : Option GatewayNode → Result ConfigError (Unit {0})
check_gateway none = err nil_dereference
check_gateway (some gateway) = if no_address gateway.listen_api then err no_gateway else ok tt

unfoldable pub check_slash_filter : Option SlashFilterConfig → Result ConfigError (Unit {0})
check_slash_filter none = err nil_dereference
check_slash_filter (some sf) =
    if sf.kind == "mysql"
    then (if sf.my_sql.conn == "" then err no_mysql_dsn else ok tt)
    else if sf.kind == "local"
    then ok tt
    else err (unknown_slash_filter sf.kind)

-- `Check`, in its order.
unfoldable pub check : (String → Bool) → MinerConfig → Result ConfigError (Unit {0})
check parses cfg = do
  _ ← check_listen cfg.api_listen_address
  _ ← check_full_node cfg.full_node
  _ ← check_auth parses cfg.auth
  _ ← check_gateway cfg.gateway
  check_slash_filter cfg.slash_filter

-- migrate.MinerConfig
pub record OldMinerConfig : Type 0 where
  pub full_node : Option ApiInfo
  pub gateway : Option GatewayNode
  pub auth : Option ApiInfo
  pub slash_filter : Option SlashFilterConfig
  pub tracing : Option String
  pub metrics : Option String

-- `ToMinerConfig`: the slash filters of both are dereferenced.
unfoldable pub to_miner_config : OldMinerConfig → MinerConfig → Result ConfigError MinerConfig
to_miner_config old cfg = do
  from ← deref old.slash_filter
  to ← deref cfg.slash_filter
  ok (record cfg {
    full_node = old.full_node;
    gateway = old.gateway;
    auth = old.auth;
    slash_filter = some (record to { kind = from.kind; my_sql = from.my_sql });
    tracing = old.tracing;
    metrics = old.metrics;
  })
