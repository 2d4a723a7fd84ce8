-- ===== src/Tests/Lifecycle.antt =====
-- A miner that is started, stopped and ended; and the warm-up of a miner with one sector.
use sophon_miner.Journal.Alerting.{alert_type_eq}
use sophon_miner.Journal.Rolling.{journal_file_eq}
use sophon_miner.Miner.Lifecycle.{
  Reached, at_first, new_life, start_mining, starts, stop_mining, stops, then_happens,
}
use sophon_miner.Miner.Lifecycle.Laws.{IsOrderly, Reached-IsOrderly, ending_life, mining_life}
use sophon_miner.Miner.Warmup.{
  WarmupApi, bit, find_sector, first_in, no_bits_set, win_post_warmup_for_miner,
}
use sophon_miner.Node.Options.{module_key_eq}
use sophon_miner.Prelude.{
  [], if◌then◌else◌, list_eq, nat_eq, ok, refl, some, string_eq, ◌==◌, ◌∷◌, ◌≡◌,
}
use sophon_miner.Prelude.Int.{int_eq}
use sophon_miner.SlashFilter.Local.{key_eq}
use sophon_miner.Tests.Attempts.{base_4}
use sophon_miner.Tests.Records.{record_key_eq}
use sophon_miner.Types.{state_eq}

was_stopped : Reached ending_life
unfolding start_mining stop_mining
was_stopped =
    then_happens (then_happens at_first (starts new_life mining_life refl))
      (stops mining_life ending_life refl)

Reached-IsOrderly_example : IsOrderly ending_life
Reached-IsOrderly_example = Reached-IsOrderly ending_life was_stopped

abbrev pub one_sector : WarmupApi
one_sector = record {
  state_miner_deadlines = λ a. ok 2;
  state_miner_partitions =
      λ a idx. if idx == 0 then ok (no_bits_set ∷ []) else ok (no_bits_set ∷ bit 9 ∷ []);
  state_sector_get_info = λ a s. ok (some (1 ∷ []));
  chain_head = ok base_4.tipset;
  state_network_version = λ key. ok 20;
  compute_proof = λ s info h nv. ok ((1 ∷ []) ∷ []);
}

warms_up : win_post_warmup_for_miner one_sector 1000 ≡ ok (some 9)
unfolding win_post_warmup_for_miner find_sector first_in
warms_up = refl
