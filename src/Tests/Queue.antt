-- ===== src/Tests/Queue.antt =====
-- Two events are sent; the goroutine writes the first, and ends after `Close` before the second.
use sophon_miner.Journal.{EventType, new_event_type}
use sophon_miner.Journal.Queue.{
  Entry, QueueStep, Tracked, close, closing, gives, opened_queue, record_event, recording,
  run_steps, run_turn, step_queue, turning,
}
use sophon_miner.Journal.Queue.Laws.{IsFaithful, close-loses, run_steps-IsFaithful}
use sophon_miner.Prelude.{List, [], false, refl, some, true, ◌++◌, ◌∷◌, ◌≡◌}
use sophon_miner.Tests.Journal.{all_well, one_line}

abbrev mined : EventType
mined = new_event_type "miner" "block_mined" true true

abbrev two_events : List QueueStep
two_events =
    recording mined (gives (some (8 ∷ []))) false
    ∷ recording mined (gives (some (9 ∷ []))) false
    ∷ turning all_well false
    ∷ closing
    ∷ []

run_steps-IsFaithful_example : IsFaithful one_line (run_steps two_events (opened_queue one_line))
run_steps-IsFaithful_example = run_steps-IsFaithful one_line two_events

abbrev ending : Tracked
ending = run_turn all_well true (run_steps two_events (opened_queue one_line))

ended_there : ending.queue.is_closed ≡ true
unfolding run_turn run_steps step_queue record_event close new_event_type
ended_there = refl

-- The event that `RecordEvent` sent before `Close` is still in the channel.
one_lost : ending.queue.incoming ≡ record { event_type = mined; json = some (9 ∷ []) } ∷ []
unfolding run_turn run_steps step_queue record_event close new_event_type
one_lost = refl

abbrev both_waiting : Tracked
both_waiting = record (opened_queue one_line) {
  queue = record (opened_queue one_line).queue {
    incoming =
        record { event_type = mined; json = some (8 ∷ []) }
        ∷ record { event_type = mined; json = some (9 ∷ []) }
        ∷ [];
  };
}

close-loses_example :
    let t' =
      run_steps (closing ∷ turning all_well true ∷ turning all_well false ∷ []) both_waiting in
    (t'.taken ≡ [])
    × (t'.queue.journal.files ≡ one_line.files)
    × ((rest : List Entry) × (t'.queue.incoming ≡ both_waiting.queue.incoming ++ rest))
close-loses_example = close-loses (turning all_well false ∷ []) all_well both_waiting refl
