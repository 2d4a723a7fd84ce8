-- ===== src/Cmd/Init.antt =====
-- cmd/init.go: a new repository with the configuration that the flags ask for.
-- The node, the resolver of addresses and the file lock are parameters.
pub mod Laws
use sophon_miner.Config.{
  ApiInfo, ConfigError, GatewayNode, MinerConfig, SlashFilterConfig, nil_dereference,
}
use sophon_miner.Prelude.{
  Bool, List, Option, Result, String, err, if◌then◌else◌, list_eq, nat_eq, none, not, ok, some,
  string_eq, true, wrap_err, ℕ, ◌&&◌, ◌/◌, ◌==◌, ◌>>=◌, ◌>>◌, ◌||◌,
}
use sophon_miner.Prelude.Int.{int_eq}
use sophon_miner.Repo.{
  ConfigCodec, Disk, FilePath, RepoError, build_version, directory, exists, fs_config, fs_version,
  init, lock, set_config, set_file,
}
use sophon_miner.Types.{state_eq}

pub record InitFlags : Type 0 where
  pub listen : String
  pub api : String
  pub auth_api : String
  -- `none` where the flag is not set.
  pub gateway_api : Option (List String)
  pub token : String
  pub slash_filter : String
  pub mysql_conn : String

pub data InitError : Type 0 where
  dial_failed : ℕ → InitError
  no_home : ℕ → InitError
  already_initialized : InitError
  node_failed : ℕ → InitError
  version_mismatch : InitError
  init_repo_failed : RepoError → InitError
  lock_failed : RepoError → InitError
  wrong_slash_filter : InitError
  parsing_address : ℕ → InitError
  creating_multiaddress : ℕ → InitError
  modify_config_failed : RepoError → InitError
  setting_version_failed : RepoError → InitError
  init_failed : InitError → InitError

-- net.ResolveTCPAddr, and manet.FromNetAddr with its String.
pub record Resolver : Type 0 where
  pub resolve_tcp_addr : String → Result ℕ String
  pub from_net_addr : String → Result ℕ String

-- Seconds; by experience for the two networks that are known.
unfoldable pub propagation_delay_of : ℕ → ℕ
propagation_delay_of block_delay =
    if block_delay == 30 then 12 else if block_delay == 4 then 1 else block_delay / 2

unfoldable pub fullnode_of : InitFlags → ApiInfo
fullnode_of f =
    if not (f.api == "") && not (f.token == "")
    then record { addr = f.api; token = f.token }
    else record { addr = ""; token = "" }

unfoldable pub gateway_of :
    InitFlags → Option (List String) → Option GatewayNode → Option GatewayNode
gateway_of f none old = old
gateway_of f (some addrs) old = some (record { listen_api = addrs; token = f.token })

unfoldable pub auth_of : InitFlags → Option ApiInfo → Option ApiInfo
auth_of f old =
    if not (f.auth_api == "") then some (record { addr = f.auth_api; token = f.token }) else old

unfoldable pub filter_of : InitFlags → SlashFilterConfig → SlashFilterConfig
filter_of f old = record old {
  kind = f.slash_filter;
  my_sql = record old.my_sql { conn = f.mysql_conn };
}

-- The function that `SetConfig` is given; the slash filter is a pointer.
change_filter :
    InitFlags → String → ℕ → MinerConfig → Option SlashFilterConfig → Result ConfigError MinerConfig
change_filter f ma block_delay cfg none = err nil_dereference
change_filter f ma block_delay cfg (some sf) = ok (record cfg {
  full_node = some (fullnode_of f);
  gateway = gateway_of f f.gateway_api cfg.gateway;
  auth = auth_of f cfg.auth;
  api_listen_address = ma;
  slash_filter = some (filter_of f sf);
  propagation_delay_secs = propagation_delay_of block_delay;
})

unfoldable pub change_config : InitFlags → String → ℕ → MinerConfig → Result ConfigError MinerConfig
unfolding change_filter
change_config f ma block_delay cfg = change_filter f ma block_delay cfg cfg.slash_filter

unfoldable pub listen_address : Resolver → InitFlags → Result InitError String
listen_address net f = do
  _ ←
      if f.slash_filter == "local" || f.slash_filter == "mysql"
      then ok (tt {0})
      else err wrong_slash_filter
  a ← wrap_err parsing_address (net.resolve_tcp_addr f.listen)
  wrap_err creating_multiaddress (net.from_net_addr a)

module _ {D : Type 0} (disk : Disk D) (codec : ConfigCodec) (default : MinerConfig) where
  version_set : Result RepoError (Unit {0}) × D → Result InitError (Unit {0}) × D
  version_set (err e, d) = (err (modify_config_failed e), d)
  version_set (ok u, d) =
      let (r, d') = set_file disk codec default fs_version true d build_version in
      (wrap_err setting_version_failed r, d')

  addressed : InitFlags → ℕ → D → Result InitError String → Result InitError (Unit {0}) × D
  unfolding version_set
  addressed f block_delay d (err e) = (err e, d)
  addressed f block_delay d (ok ma) =
      version_set (set_config disk codec default true d fs_config (change_config f ma block_delay))

  -- `storageMinerInit`, with what `Lock` returns.
  unfoldable pub storage_miner_init :
      Resolver → InitFlags → ℕ → Result RepoError (Unit {0}) → D → Result InitError (Unit {0}) × D
  unfolding addressed
  storage_miner_init net f block_delay (err e) d = (err (lock_failed e), d)
  storage_miner_init net f block_delay (ok u) d = addressed f block_delay d (listen_address net f)

-- What the action asks of the world: GetFullNodeAPI, homedir.Expand, whether the versions of the API
-- are the same, the delay of the network, the file lock and os.RemoveAll, whose error is logged.
pub record InitWorld (D : Type 0) : Type 0 where
  pub dial : Result ℕ (Unit {0})
  pub expand_home : Result ℕ (Unit {0})
  pub same_version : Result ℕ Bool
  pub block_delay_secs : Result ℕ ℕ
  pub lock_held : Result ℕ Bool
  pub lock_acquired : Result ℕ (Unit {0})
  pub remove_all : D → FilePath → D

module _ {D : Type 0} (disk : Disk D) (codec : ConfigCodec) (default : MinerConfig)
    (w : InitWorld D) (net : Resolver) (f : InitFlags) where
  -- The checks before anything is written.
  precheck : D → Result InitError (Unit {0})
  precheck d = do
    _ ← wrap_err dial_failed w.dial
    _ ← wrap_err no_home w.expand_home
    _ ← if exists disk codec default d then err already_initialized else ok (tt {0})
    same ← wrap_err node_failed w.same_version
    if same then ok tt else err version_mismatch

  cleaned_up : Result InitError (Unit {0}) × D → Result InitError (Unit {0}) × D
  cleaned_up (ok u, d) = (ok u, d)
  cleaned_up (err e, d) = (err (init_failed e), w.remove_all d directory)

  with_params : Result ℕ ℕ → D → Result InitError (Unit {0}) × D
  unfolding cleaned_up
  with_params (err e) d = (err (node_failed e), d)
  with_params (ok block_delay) d =
      cleaned_up (
        storage_miner_init disk codec default net f block_delay (lock w.lock_held w.lock_acquired)
          d)

  repo_made : Result RepoError (Unit {0}) × D → Result InitError (Unit {0}) × D
  unfolding with_params
  repo_made (err e, d) = (err (init_repo_failed e), d)
  repo_made (ok u, d) = with_params w.block_delay_secs d

  prechecked : Result InitError (Unit {0}) → D → Result InitError (Unit {0}) × D
  unfolding repo_made
  prechecked (err e) d = (err e, d)
  prechecked (ok u) d = repo_made (init disk codec default d fs_config)

  unfoldable pub init_action : D → Result InitError (Unit {0}) × D
  unfolding precheck prechecked
  init_action d = prechecked (precheck d) d
