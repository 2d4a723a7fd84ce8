-- ===== src/Tests/Rounds.antt =====
-- Two turns of the mining loop on one head: the second one mines nothing, while the broadcast of the
-- first goes on.
use sophon_miner.Datastore.Memory.{found, memory}
use sophon_miner.Journal.Alerting.{alert_type_eq}
use sophon_miner.Journal.Rolling.{journal_file_eq}
use sophon_miner.Miner.{TipSet}
use sophon_miner.Miner.Attempts.{collect}
use sophon_miner.Miner.Broadcast.{submit_any}
use sophon_miner.Miner.Broadcast.Interleaved.{
  Task, asked, judged, next_call, run_at, run_schedule, step_task, submitted_headers,
}
use sophon_miner.Miner.Broadcast.Safety.{PairwiseApart}
use sophon_miner.Miner.Candidate.{Turn, candidate, is_stable, latest_base}
use sophon_miner.Miner.Create.{
  BlockApi, BlockMsg, BlockTemplate, block_time, check_signed, create_block, create_blocks,
  header_of, keep_block, sign_block, signal_fork, template_of,
}
use sophon_miner.Miner.MineOne.{mine_one}
use sophon_miner.Miner.Randomness.{draw_randomness}
use sophon_miner.Miner.Round.{Loop, take_head, turn_loop}
use sophon_miner.Miner.Rounds.{
  Entrant, MineEvent, RoundInput, attempt_of, broadcast_round, calls, mine_all, mine_base,
  mine_entrant, mine_round, mine_rounds, mines, requests_of, spawn_all, step_mine, task_of,
  with_latest, with_miners,
}
use sophon_miner.Miner.Rounds.Safety.{NoMeeting, mine_rounds_apart}
use sophon_miner.Miner.Winner.{MineError, compute_ticket, compute_vrf, is_round_winner}
use sophon_miner.Node.Options.{module_key_eq}
use sophon_miner.Prelude.{
  Bool, List, Result, [], arith, false, length, list_eq, nat_eq, none, ok, refl, some, string_eq,
  true, ◌==◌, ◌∷◌, ◌≡◌,
}
use sophon_miner.Prelude.Int.{int64, int_eq, ◌+ℤ◌}
use sophon_miner.Prelude.Maps.{insert, lookup}
use sophon_miner.SlashFilter.Local.{
  check_fault, check_parent, has_block, key_eq, mined_block, put_block,
}
use sophon_miner.SlashFilter.Local.Guard.{local-Guards}
use sophon_miner.Tests.Attempts.{MemStore, base_4, filter, node, print, wallet}
use sophon_miner.Tests.Records.{record_key_eq}
use sophon_miner.Tests.SlashFilter.{answered, codec, no_slashing}
use sophon_miner.Types.{state_eq}

abbrev same_key : TipSet → TipSet → Bool
same_key a b = a.height == b.height

abbrev created : BlockTemplate → BlockMsg
created t = record { header = header_of t; block_sig = none; fork_signaling = 0 }

created-header_of :
    (t : BlockTemplate) (bm : BlockMsg)
    → ◌≡◌ {A = Result MineError BlockMsg} (ok (created t)) (ok bm)
    → bm.header ≡ header_of t
created-header_of t bm h = let same : created t ≡ bm = ground arith in rw (← same) refl

abbrev block_api : BlockApi
block_api = record {
  miner_create_block = λ t. ok (created t);
  signature_data = λ bm. ok (1 ∷ []);
  created_header = created-header_of;
}

abbrev head_turn : Turn
head_turn = record { head = some base_4.tipset; waited = true; beacon = true }

abbrev entrant : Entrant
entrant = record { addr = 1000; account = some "account"; in_time = true; meanwhile = 0 ∷ [] }

abbrev round : RoundInput
round = record {
  turns = head_turn ∷ head_turn ∷ [];
  miners = entrant ∷ [];
  node = node;
  now = none;
  head = some base_4.tipset;
  messages = ok [];
  accounts = λ a. some "account";
  answers = λ bh. answered;
}

abbrev started : Loop MemStore
started = record { last_work = none; last_base = none; filter = [] }

abbrev two_turns : List MineEvent
two_turns = mines round ∷ calls 0 ∷ calls 0 ∷ mines round ∷ calls 0 ∷ calls 0 ∷ []

abbrev two_rounds : List Task × Loop MemStore
two_rounds = mine_rounds filter same_key wallet print block_api 30 false two_turns ([], started)

no_meeting :
    NoMeeting filter
      (local-Guards codec memory)
      no_slashing
      same_key
      wallet
      print
      block_api
      30
      false
      two_turns
      ([], started)
unfolding mine_rounds step_mine spawn_all task_of mine_round with_miners with_latest mine_base
    broadcast_round requests_of mine_all mine_entrant attempt_of mine_one draw_randomness
    is_round_winner compute_vrf compute_ticket latest_base is_stable candidate turn_loop take_head
    collect create_blocks keep_block create_block template_of block_time check_signed sign_block
    signal_fork run_schedule run_at step_task next_call asked judged submitted_headers submit_any
    check_fault check_parent mined_block has_block put_block lookup insert found int64 ◌+ℤ◌
no_meeting = ((tt, tt), (tt, tt))

mine_rounds_apart_example : PairwiseApart (submitted_headers two_rounds.0)
mine_rounds_apart_example =
    mine_rounds_apart filter (local-Guards codec memory) no_slashing same_key wallet print block_api
      30 false two_turns started no_meeting

one_block : length (submitted_headers two_rounds.0) ≡ 1
unfolding mine_rounds step_mine spawn_all task_of mine_round with_miners with_latest mine_base
    broadcast_round requests_of mine_all mine_entrant attempt_of mine_one draw_randomness
    is_round_winner compute_vrf compute_ticket latest_base is_stable candidate turn_loop take_head
    collect create_blocks keep_block create_block template_of block_time check_signed sign_block
    signal_fork run_schedule run_at step_task next_call asked judged submitted_headers submit_any
    check_fault check_parent mined_block has_block put_block lookup insert found int64 ◌+ℤ◌
one_block = refl
