-- ===== src/Journal.antt =====
-- lib/journal: the types of events (types.go) and their registry (registry.go).
-- The functions of the strings package are parameters.
pub mod Laws
pub mod Alerting
pub mod Rolling
pub mod Queue
use sophon_miner.Prelude.{
  Bool, List, Option, Result, String, [], err, false, none, ok, some, string_eq, true, ◌&&◌, ◌>>=◌,
  ◌>>◌, ◌∷◌,
}
use sophon_miner.Prelude.Maps.{insert, lookup}
use sophon_miner.Prelude.Texts.{concat}

pub record EventType : Type 0 where
  pub system : String
  pub event : String
  pub enabled : Bool
  pub safe : Bool

-- The zero value of Go.
abbrev pub zero_event_type : EventType
zero_event_type = record { system = ""; event = ""; enabled = false; safe = false }

abbrev pub event_key : String → String → String
event_key system event = concat system (concat ":" event)

-- `String`
abbrev pub event_type_string : EventType → String
event_type_string et = event_key et.system et.event

-- `Enabled`
abbrev pub is_enabled : EventType → Bool
is_enabled et = et.safe && et.enabled

-- `NewEventType`: the last two arguments are not read.
unfoldable pub new_event_type : String → String → Bool → Bool → EventType
new_event_type sys evt enable is_safe = record {
  system = sys;
  event = evt;
  enabled = true;
  safe = true;
}

pub data JournalError : Type 0 where
  invalid_event_type : List String → JournalError

module _ (trim_space : String → String) (split : String → String → List String) where
  event_of : List String → Result JournalError EventType
  event_of (sys ∷ evt ∷ []) =
      ok (record { system = sys; event = evt; enabled = false; safe = false })
  event_of parts = err (invalid_event_type parts)

  parse_all : List String → Result JournalError (List EventType)
  unfolding event_of
  parse_all [] = ok []
  parse_all (evt ∷ evts) = do
    et ← event_of (split (trim_space evt) ":")
    rest ← parse_all evts
    ok (et ∷ rest)

  unfoldable pub parse_disabled_events : String → Result JournalError (List EventType)
  unfolding parse_all
  parse_disabled_events s = parse_all (split (trim_space s) ",")

abbrev pub Registry : Type 0
Registry = List (String × EventType)

abbrev pub suppressed : EventType → EventType
suppressed et = record et { enabled = false; safe = true }

-- `NewEventTypeRegistry`
unfoldable pub new_event_type_registry : List EventType → Registry → Registry
new_event_type_registry [] m = m
new_event_type_registry (et ∷ disabled) m =
    new_event_type_registry disabled (insert (event_key et.system et.event) (suppressed et) m)

-- `RegisterEventType`
register_found : String → String → Option EventType → Registry → EventType × Registry
register_found system event (some et) m = (et, m)
register_found system event none m =
    let et : EventType = record { system = system; event = event; enabled = true; safe = true } in
    (et, insert (event_key system event) et m)

unfoldable pub register_event_type : String → String → Registry → EventType × Registry
unfolding register_found
register_event_type system event m =
    register_found system event (lookup (event_key system event) m) m

-- The registry after the components have registered their types.
unfoldable pub register_all : List (String × String) → Registry → Registry
register_all [] m = m
register_all ((system, event) ∷ names) m = register_all names (register_event_type system event m).1
