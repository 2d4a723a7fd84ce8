-- ===== src/Tests/Run.antt =====
-- `run` on a disk whose configuration can be run, with a node that is already synced.
use sophon_miner.Cmd.Run.{
  RunWorld, SyncTurn, head_turn, loop_turns, run_action, serving, sync_turn, sync_wait,
}
use sophon_miner.Cmd.Run.Laws.{Served, run_action-Served}
use sophon_miner.Config.{
  check, check_auth, check_full_node, check_gateway, check_listen, check_slash_filter, no_gateway,
  to_miner_config,
}
use sophon_miner.Journal.Alerting.{alert_type_eq}
use sophon_miner.Journal.Rolling.{journal_file_eq}
use sophon_miner.Node.Builder.{
  config_miner_options, miner_api, miner_ops, new, repo, run_options, settings_of, share_ops,
}
use sophon_miner.Node.Options.{
  apply_if, error_option, if_option, module_key_eq, options, override, set_invoke,
}
use sophon_miner.Prelude.{
  [], err, false, list_eq, nat_eq, none, ok, refl, some, string_eq, true, ◌∷◌, ◌≡◌,
}
use sophon_miner.Prelude.Int.{int64, int_eq, pos, ◌-ℤ◌}
use sophon_miner.Prelude.Maps.{insert}
use sophon_miner.Repo.{
  ConfigCodec, exists, load_config_from_disk, lock, migrate, set_config, set_file,
  version180_upgrade,
}
use sophon_miner.SlashFilter.Local.{key_eq}
use sophon_miner.Tests.Records.{record_key_eq}
use sophon_miner.Tests.Repo.{RepoFiles, defaults, repo_files, runnable}
use sophon_miner.Types.{state_eq}

abbrev ready_codec : ConfigCodec
ready_codec = record {
  decode = λ b default. ok runnable;
  decode_old = λ b. err no_gateway;
  encode = λ cfg. ok (7 ∷ []);
  config_comment = λ cfg. ok (35 ∷ 10 ∷ []);
  atoi = λ b. pos 1210;
}

abbrev ready_repo : RepoFiles
ready_repo = (some (1 ∷ []), some (49 ∷ []), none)

abbrev second_turn : SyncTurn
second_turn = record {
  active_syncs = ok 1;
  head_timestamp = ok 990;
  now = pos 1000;
  is_done = false;
}

abbrev ready_world : RunWorld RepoFiles
ready_world = record {
  expand_home = ok tt;
  old_repo = err 0;
  lock_held = ok false;
  lock_acquired = ok tt;
  url_parses = λ s. true;
  dial = ok tt;
  local_token = ok (5 ∷ []);
  heads =
      record { height = ok (pos 0); is_done = false }
      ∷ record { height = ok (pos 8); is_done = false }
      ∷ [];
  network_name = ok "calibrationnet";
  same_api_version = ok true;
  nosync = false;
  network_params = ok 30;
  first_state = ok tt;
  syncs = record second_turn { active_syncs = ok 0 } ∷ second_turn ∷ [];
  listen = none;
  fx_start = λ ctors invokes. ok tt;
}

abbrev late_world : RunWorld RepoFiles
late_world = record ready_world {
  syncs = record second_turn { now = pos 4600; is_done = true } ∷ [];
}

-- Where the context is done, `SyncWait` returns nil with a head of an hour ago, and the node is served.
both_serve :
    (run_action repo_files ready_codec defaults ready_world ready_repo ≡ ok serving)
    × (run_action repo_files ready_codec defaults late_world ready_repo ≡ ok serving)
unfolding run_action exists lock load_config_from_disk check check_listen check_full_node check_auth
    check_gateway check_slash_filter set_file loop_turns head_turn sync_wait sync_turn int64 ◌-ℤ◌
    new config_miner_options sophon_miner.Node.Builder.defaults miner_api miner_ops repo run_options
    settings_of share_ops apply_if error_option if_option options override set_invoke insert migrate
    set_config version180_upgrade to_miner_config
both_serve = (refl, refl)

run_action-Served_example : Served repo_files ready_codec defaults ready_world ready_repo
run_action-Served_example =
    run_action-Served repo_files ready_codec defaults ready_world ready_repo both_serve.0
