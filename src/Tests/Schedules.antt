-- ===== src/Tests/Schedules.antt =====
-- Broadcasts of two blocks of one miner at one height, over the local filter.
use sophon_miner.Datastore.Memory.{memory}
use sophon_miner.Journal.Alerting.{alert_type_eq}
use sophon_miner.Journal.Rolling.{journal_file_eq}
use sophon_miner.Miner.Broadcast.{SubmitAnswers}
use sophon_miner.Miner.Broadcast.Interleaved.{
  PoolEvent, Task, asked, judged, next_call, run_at, run_pool, run_schedule, spawns, step_pool,
  step_task, steps, submitted_headers, waiting_turn,
}
use sophon_miner.Miner.Broadcast.Pools.{NoOverlap, run_pool_apart}
use sophon_miner.Miner.Broadcast.Safety.{PairwiseApart}
use sophon_miner.Miner.Broadcast.Schedules.{AreBarred, run_schedule-AreBarred}
use sophon_miner.Node.Options.{module_key_eq}
use sophon_miner.Prelude.{List, [], inr, list_eq, nat_eq, none, refl, string_eq, true, ◌∷◌}
use sophon_miner.Prelude.Int.{int_eq, pos}
use sophon_miner.Prelude.Maps.{insert, lookup}
use sophon_miner.SlashFilter.Local.{
  check_fault, check_parent, has_block, key_eq, mined_block, put_block,
}
use sophon_miner.SlashFilter.Local.Guard.{local-Guards}
use sophon_miner.Tests.Attempts.{MemStore, base_4, filter}
use sophon_miner.Tests.Records.{record_key_eq}
use sophon_miner.Tests.SlashFilter.{block_5, codec, no_slashing, ticketed}
use sophon_miner.Types.{BlockHeader, state_eq, success}

abbrev taken_before : MemStore
taken_before = (filter.put_block [] block_5 (pos 4) none success).1

abbrev own_answer : SubmitAnswers
own_answer = record { own_node = true; submit_nodes = [] }

abbrev one_task : List Task
one_task =
    record { base = base_4; header = block_5; answers = own_answer; progress = waiting_turn } ∷ []

run_schedule-AreBarred_example :
    AreBarred filter
      (local-Guards codec memory)
      taken_before
      (run_schedule filter (0 ∷ 0 ∷ []) one_task taken_before).0
run_schedule-AreBarred_example =
    run_schedule-AreBarred filter (local-Guards codec memory) (0 ∷ 0 ∷ []) taken_before taken_before
      one_task (λ m h held. held) ((λ held. tt), tt)

abbrev other_5 : BlockHeader
other_5 = record block_5 { parents = 8 ∷ [] }

-- A second block of the same miner and height, after the first one is recorded.
abbrev one_after_another : List PoolEvent
one_after_another =
    spawns base_4 block_5 own_answer
    ∷ steps 0
    ∷ steps 0
    ∷ steps 0
    ∷ steps 0
    ∷ spawns base_4 other_5 own_answer
    ∷ steps 0
    ∷ []

no_overlap : NoOverlap filter (local-Guards codec memory) no_slashing one_after_another ([], [])
unfolding step_pool run_at step_task next_call asked judged has_block mined_block check_fault
    check_parent put_block lookup insert
no_overlap = (tt, ticketed, ((inr refl, tt), ticketed, tt))

run_pool_apart_example :
    PairwiseApart (submitted_headers (run_pool filter one_after_another ([], [])).0)
run_pool_apart_example =
    run_pool_apart filter (local-Guards codec memory) no_slashing one_after_another [] no_overlap
