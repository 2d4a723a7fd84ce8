-- ===== src/Tests/Cmd.antt =====
-- `init` of a fresh repository, with and without a gateway.
use sophon_miner.Cmd.Init.{
  InitFlags, Resolver, auth_of, change_config, filter_of, fullnode_of, gateway_of, listen_address,
  propagation_delay_of, storage_miner_init,
}
use sophon_miner.Cmd.Init.Laws.{ReadsBack, is_startable, storage_miner_init-startable}
use sophon_miner.Config.{MinerConfig, check, no_gateway}
use sophon_miner.Journal.Alerting.{alert_type_eq}
use sophon_miner.Journal.Rolling.{journal_file_eq}
use sophon_miner.Node.Options.{module_key_eq}
use sophon_miner.Prelude.{
  List, Option, String, [], arith, err, false, if◌then◌else◌, list_eq, nat_eq, none, ok, refl, some,
  string_eq, true, ◌==◌, ◌↔◌, ◌∷◌, ◌≡◌,
}
use sophon_miner.Prelude.Int.{int_eq, pos}
use sophon_miner.Repo.{ConfigCodec, load_config_from_disk, set_config, set_file}
use sophon_miner.SlashFilter.Local.{key_eq}
use sophon_miner.Tests.Records.{record_key_eq}
use sophon_miner.Tests.Repo.{RepoFiles, defaults, repo_files}
use sophon_miner.Types.{state_eq}

abbrev flags : Option (List String) → InitFlags
flags gateway = record {
  listen = "127.0.0.1:12308";
  api = "http://node";
  auth_api = "http://auth";
  gateway_api = gateway;
  token = "t";
  slash_filter = "local";
  mysql_conn = "";
}

abbrev net : Resolver
net = record { resolve_tcp_addr = λ s. ok s; from_net_addr = λ a. ok "/ip4/127.0.0.1/tcp/12308" }

abbrev made_with : Option (List String) → MinerConfig
made_with gateway = record defaults {
  full_node = some (record { addr = "http://node"; token = "t" });
  gateway = (elim gateway [
    | none ↦ defaults.gateway
    | some addrs ↦ some (record { listen_api = addrs; token = "t" })
  ]);
  auth = some (record { addr = "http://auth"; token = "t" });
  api_listen_address = "/ip4/127.0.0.1/tcp/12308";
  propagation_delay_secs = 12;
}

-- The text [1] is the defaults', any other that of the new configuration.
abbrev two_texts : Option (List String) → ConfigCodec
two_texts gateway = record {
  decode = λ b default. if b == 1 ∷ [] then ok default else ok (made_with gateway);
  decode_old = λ b. err no_gateway;
  encode = λ cfg. ok (9 ∷ []);
  config_comment = λ cfg. ok (1 ∷ []);
  atoi = λ b. pos 1210;
}

abbrev fresh : RepoFiles
fresh = (some (1 ∷ []), none, none)

made :
    (gateway : Option (List String))
    → change_config (flags gateway) "/ip4/127.0.0.1/tcp/12308" 30 defaults ≡ ok (made_with gateway)
unfolding change_config fullnode_of gateway_of auth_of filter_of propagation_delay_of
made none = refl
made (some addrs) = refl

resolved :
    (gateway : Option (List String))
    → listen_address net (flags gateway) ≡ ok "/ip4/127.0.0.1/tcp/12308"
unfolding listen_address
resolved gateway = refl

toml :
    (gateway : Option (List String)) (ma : String) (cfg : MinerConfig)
    → listen_address net (flags gateway) ≡ ok ma
    → change_config (flags gateway) ma 30 defaults ≡ ok cfg
    → ReadsBack (two_texts gateway) defaults cfg
toml gateway ma cfg at changed b text =
    let here : "/ip4/127.0.0.1/tcp/12308" ≡ ma = ground (arith, resolved gateway) in
    let is_made : made_with gateway ≡ cfg = ground (arith, made gateway, rw (← here) at changed) in
    let nine : 9 ∷ [] ≡ b = ground arith in rw (← nine, ← is_made) refl

storage_miner_init-startable_example :
    (ma : String) × (listen_address net (flags none) ≡ ok ma)
    × ((check (λ s. true) (made_with none) ≡ ok tt)
        ↔ (is_startable (λ s. true) (flags none) ma defaults ≡ true))
unfolding storage_miner_init listen_address set_config change_config load_config_from_disk set_file
storage_miner_init-startable_example =
    storage_miner_init-startable repo_files (two_texts none) defaults (λ s. true) net (flags none)
      30 (ok tt) fresh defaults (made_with none) (toml none) refl refl refl

-- With no gateway among the flags `init` succeeds, and `run` refuses the configuration.
not_startable : is_startable (λ s. true) (flags none) "/ip4/127.0.0.1/tcp/12308" defaults ≡ false
not_startable = refl

with_gateway :
    is_startable (λ s. true) (flags (some ("gateway" ∷ []))) "/ip4/127.0.0.1/tcp/12308" defaults
    ≡ true
with_gateway = refl
