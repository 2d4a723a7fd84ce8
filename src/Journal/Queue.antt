-- ===== src/Journal/Queue.antt =====
-- lib/journal/fsjournal/fs.go: the channel between `RecordEvent` and the goroutine that writes, as
-- sequences of steps of the callers, of the goroutine and of `Close`. A step that would block leaves
-- all as it was, and may come again later.
pub mod Laws
use sophon_miner.Journal.{EventType, is_enabled}
use sophon_miner.Journal.Rolling.{Answers, FsJournal, put_event}
use sophon_miner.Prelude.{
  Bool, List, Option, [], false, if◌then◌else◌, length, ltb, true, ℕ, ◌&&◌, ◌++◌, ◌∷◌,
}
use sophon_miner.Types.{Bytes}

-- What a supplier does: it panics, or gives data, whose JSON is `none` where it cannot be marshalled.
pub data Supplied : Type 0 where
  panics : Supplied
  gives : Option Bytes → Supplied

pub record Entry : Type 0 where
  pub event_type : EventType
  pub json : Option Bytes

-- The size of the buffer of `incoming`.
abbrev pub capacity : ℕ
capacity = 32

pub record Queue : Type 0 where
  -- The oldest first.
  pub incoming : List Entry
  pub is_closing : Bool
  pub is_closed : Bool
  pub journal : FsJournal

-- What the callers have sent and what the goroutine has taken, beside the state of the journal.
pub record Tracked : Type 0 where
  pub queue : Queue
  pub sent : List Entry
  pub taken : List (Answers × Entry)

abbrev pub opened_queue : FsJournal → Tracked
opened_queue f = record {
  queue = record { incoming = []; is_closing = false; is_closed = false; journal = f };
  sent = [];
  taken = [];
}

-- The send of the `select` in `RecordEvent`. Where the other case is ready too Go chooses either;
-- `prefers_closing` is its choice.
send : Entry → Bool → Tracked → Tracked
send e prefers_closing t =
    if t.queue.is_closing && prefers_closing
    then t
    else if ltb (length t.queue.incoming) capacity
    then record t {
      queue = record t.queue { incoming = t.queue.incoming ++ e ∷ [] };
      sent = t.sent ++ e ∷ [];
    }
    else t

-- `RecordEvent`: the supplier is called for an event that is enabled, and its panic is recovered.
unfoldable pub record_event : EventType → Supplied → Bool → Tracked → Tracked
unfolding send
record_event et panics prefers_closing t = t
record_event et (gives json) prefers_closing t =
    if is_enabled et then send (record { event_type = et; json = json }) prefers_closing t else t

-- `case je := <-f.incoming` of `runLoop`; an error of `putEvent` is logged.
take_next : Answers → List Entry → Tracked → Tracked
take_next ans [] t = t
take_next ans (e ∷ rest) t = record t {
  queue = record t.queue { incoming = rest; journal = (put_event ans e.json t.queue.journal).1 };
  taken = t.taken ++ (ans, e) ∷ [];
}

-- `case <-f.closing`: the file is closed, and the goroutine ends.
end_loop : Tracked → Tracked
end_loop t = record t {
  queue = record t.queue { is_closed = true; journal = record t.queue.journal { is_open = false } };
}

-- One turn of `runLoop`.
unfoldable pub run_turn : Answers → Bool → Tracked → Tracked
unfolding take_next end_loop
run_turn ans prefers_closing t =
    if t.queue.is_closed
    then t
    else if t.queue.is_closing && prefers_closing
    then end_loop t
    else take_next ans t.queue.incoming t

-- `Close` up to its wait; a second call panics, and is left out.
unfoldable pub close : Tracked → Tracked
close t = record t { queue = record t.queue { is_closing = true } }

pub data QueueStep : Type 0 where
  recording : EventType → Supplied → Bool → QueueStep
  turning : Answers → Bool → QueueStep
  closing : QueueStep

unfoldable pub step_queue : QueueStep → Tracked → Tracked
step_queue (recording et s prefers_closing) t = record_event et s prefers_closing t
step_queue (turning ans prefers_closing) t = run_turn ans prefers_closing t
step_queue closing t = close t

unfoldable pub run_steps : List QueueStep → Tracked → Tracked
run_steps [] t = t
run_steps (s ∷ steps) t = run_steps steps (step_queue s t)
