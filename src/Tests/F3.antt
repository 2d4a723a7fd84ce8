-- ===== src/Tests/F3.antt =====
-- A node that does not take part in F3, and one that answers every attempt with an error.
use sophon_miner.F3.Multi.{Participants, monitor, remove_participant, returned, started}
use sophon_miner.F3.Multi.Ticks.{TickDone, monitor-returned}
use sophon_miner.F3.Participant.{
  NodeErr, World, ended, f3_is_disabled, run, run_loop, still_running, try_get_ticket,
  try_participate, while_alive,
}
use sophon_miner.F3.Participant.Errors.{EndsWith, run-EndsWith}
use sophon_miner.F3.Participant.Retries.{try_participate-restarts}
use sophon_miner.Journal.Alerting.{alert_type_eq}
use sophon_miner.Journal.Rolling.{journal_file_eq}
use sophon_miner.MinerManager.{is_open_mining}
use sophon_miner.Node.Options.{module_key_eq}
use sophon_miner.Prelude.{
  Bool, List, [], err, false, list_eq, nat_eq, none, ok, refl, string_eq, suc, true, ℕ, ◌*◌, ◌+◌,
  ◌<◌, ◌∷◌, ◌≡◌, ◌≤◌,
}
use sophon_miner.Prelude.Int.{int_eq, pos}
use sophon_miner.Prelude.Maps.{delete, lookup}
use sophon_miner.SlashFilter.Local.{key_eq}
use sophon_miner.Tests.Records.{record_key_eq}
use sophon_miner.Types.{Address, MinerInfo, state_eq}

abbrev the_error : Bool → NodeErr
the_error disabled = record {
  is_f3_disabled = disabled;
  is_ticket_expired = false;
  is_start_before_existing = false;
  is_ticket_invalid = false;
  is_issuer_mismatch = false;
  is_f3_not_ready = false;
}

-- The state of the world is the count of the back-off.
abbrev world : Bool → World ℕ
world disabled = record {
  cancelled = λ w. false;
  get_or_renew_ticket = λ w old. (ok (1 ∷ []), w);
  participate = λ w t. (err (the_error disabled), w);
  get_manifest = λ w. (ok none, w);
  sleep = λ w d. w;
  now = λ w. pos 0;
  reset = λ w. 0;
  duration = λ w. (pos 500000000, w + 1);
  attempt = λ w. w;
  attempt_reset = λ w. refl;
  attempt_duration = λ w. refl;
  attempt_sleep = λ w d. refl;
  attempt_participate = λ w t. refl;
}

is_over : run (world true) 13 20 2 0 ≡ ended (err (f3_is_disabled (the_error true)))
unfolding run run_loop try_get_ticket while_alive try_participate
is_over = refl

run-EndsWith_example :
    EndsWith
      (world true)
      13
      20
      ((world true).cancelled (run_loop (world true) 13 20 2 0).1.1)
      (err (f3_is_disabled (the_error true)))
run-EndsWith_example =
    run-EndsWith (world true) 13 20 2 0 (err (f3_is_disabled (the_error true))) is_over

try_participate-restarts_example :
    (13 < 2 * 7 → (try_participate (world false) 13 20 (suc 7) (1 ∷ []) 0).0 ≡ ended (ok tt))
    × (2 * 7 ≤ 13 → (try_participate (world false) 13 20 (suc 7) (1 ∷ []) 0).0 ≡ still_running)
try_participate-restarts_example =
    try_participate-restarts (world false) 13 20 (1 ∷ []) (the_error false)
      (refl, refl, refl, refl, refl, refl) (λ w. refl) (λ w. refl) 7 0

abbrev entry_of : ℕ → Bool → Address × MinerInfo
entry_of a on = (a, record { addr = a; id = ""; name = ""; open_mining = on })

abbrev two_entries : List (Address × MinerInfo)
two_entries = entry_of 1 true ∷ entry_of 2 false ∷ []

abbrev three_running : Participants
three_running = (1, started) ∷ (2, started) ∷ (3, started) ∷ []

-- Miner 1 is open, 2 is closed and 3 is no longer listed: only 2 is removed.
monitored :
    monitor two_entries two_entries three_running ≡ returned ((1, started) ∷ (3, started) ∷ [])
unfolding monitor is_open_mining remove_participant lookup delete
monitored = refl

monitor-returned_example :
    TickDone two_entries two_entries 3 three_running ((1, started) ∷ (3, started) ∷ [])
monitor-returned_example =
    monitor-returned two_entries two_entries three_running ((1, started) ∷ (3, started) ∷ []) 3
      monitored
