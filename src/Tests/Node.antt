-- ===== src/Tests/Node.antt =====
-- The settings of a configuration that can be run.
use sophon_miner.Config.{SlashFilterConfig}
use sophon_miner.Journal.Alerting.{alert_type_eq}
use sophon_miner.Journal.Rolling.{journal_file_eq}
use sophon_miner.Node.Builder.{
  Constructor, build_repo_failed, defaults, miner_api, new, options_failed, repo, run_options,
  settings_of,
}
use sophon_miner.Node.Builder.Laws.{IsWired, run_options-IsWired}
use sophon_miner.Node.Options.{error_option, module_key_eq, options, override, set_invoke}
use sophon_miner.Prelude.{
  List, Result, err, list_eq, nat_eq, none, ok, refl, some, string_eq, true, ℕ, ◌≡◌,
}
use sophon_miner.Prelude.Int.{int_eq}
use sophon_miner.Prelude.Maps.{insert}
use sophon_miner.Repo.{repo_already_locked}
use sophon_miner.SlashFilter.Local.{key_eq}
use sophon_miner.Tests.Records.{record_key_eq}
use sophon_miner.Tests.Repo.{passes, runnable}
use sophon_miner.Types.{state_eq}

run_options-IsWired_example :
    (sf : SlashFilterConfig) × (runnable.slash_filter ≡ some sf)
    × IsWired runnable sf
        (some "/ip4/0.0.0.0/tcp/1")
        (settings_of (run_options (ok runnable) (some "/ip4/0.0.0.0/tcp/1")))
run_options-IsWired_example =
    run_options-IsWired (λ s. true) runnable (some "/ip4/0.0.0.0/tcp/1") passes

abbrev quiet_node : List Constructor → List Constructor → Result ℕ (Unit {0})
quiet_node ctors invokes = ok tt

-- A repository that is locked fails the build.
locked_out :
    new quiet_node (run_options (err repo_already_locked) none)
    ≡ err (options_failed (build_repo_failed repo_already_locked))
unfolding new run_options settings_of repo miner_api defaults options error_option override
    set_invoke insert
locked_out = refl
