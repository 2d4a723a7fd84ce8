-- ===== src/Journal/Alerting.antt =====
-- lib/journal/alerting/alerts.go: alerts that are raised and resolved, with an entry in the journal.
-- A message is its JSON text; the order of `GetAlerts` is that of the function it is given.
use sophon_miner.Journal.{EventType, Registry, is_enabled, register_event_type, zero_event_type}
use sophon_miner.Prelude.{
  Bool, Eq, List, Option, String, [], ap, arith, false, if◌then◌else◌, map, none, refl, some,
  string_eq, true, ℕ, ◌&&◌, ◌++◌, ◌==◌, ◌↔◌, ◌∙◌, ◌∷◌, ◌≡◌,
}
use sophon_miner.Prelude.Maps.{insert, lookup, lookup-insert, lookup-insert_self}

pub record AlertType : Type 0 where
  pub system : String
  pub subsystem : String

pub record AlertEvent : Type 0 where
  pub kind : String
  pub message : String
  pub time : ℕ

pub record Alert : Type 0 where
  pub type_of : AlertType
  pub active : Bool
  pub last_active : Option AlertEvent
  pub last_resolved : Option AlertEvent
  pub journal_type : EventType

abbrev pub alert_type_beq : AlertType → AlertType → Bool
alert_type_beq a b = a.system == b.system && a.subsystem == b.subsystem

pub alert_type_beq_iff : (a b : AlertType) → (alert_type_beq a b ≡ true) ↔ (a ≡ b)
alert_type_beq_iff a b =
    ground (arith, string_eq.beq_iff a.system b.system, string_eq.beq_iff a.subsystem b.subsystem)

instance abbrev pub alert_type_eq : Eq AlertType
alert_type_eq = record { beq = alert_type_beq; beq_iff = alert_type_beq_iff }

-- The alerts, the registry of the journal, and what the journal has recorded.
pub record Alerts : Type 0 where
  pub alerts : List (AlertType × Alert)
  pub registry : Registry
  pub recorded : List (EventType × AlertEvent)

-- The zero value of Go, which the map gives for an unknown alert.
abbrev pub zero_alert : Alert
zero_alert = record {
  type_of = record { system = ""; subsystem = "" };
  active = false;
  last_active = none;
  last_resolved = none;
  journal_type = zero_event_type;
}

-- `AddAlertType`
add_new : AlertType → Option Alert → Alerts → Alerts
add_new at (some alert) a = a
add_new at none a =
    let (et, registry) = register_event_type at.system at.subsystem a.registry in
    record a {
      alerts =
          insert at
            (record {
              type_of = at;
              active = false;
              last_active = none;
              last_resolved = none;
              journal_type = et;
            })
            a.alerts;
      registry = registry;
    }

unfoldable pub add_alert_type : AlertType → Alerts → Alerts
unfolding add_new
add_alert_type at a = add_new at (lookup at a.alerts) a

-- `RecordEvent`, for the events of a journal that is open.
unfoldable pub record_event : EventType → AlertEvent → Alerts → Alerts
record_event et e a =
    if is_enabled et then record a { recorded = a.recorded ++ (et, e) ∷ [] } else a

abbrev or_zero : Option Alert → Alert
or_zero none = zero_alert
or_zero (some alert) = alert

-- `Raise` at a time; a message that cannot be marshalled is its error, as JSON.
unfoldable pub raise : AlertType → String → ℕ → Alerts → Alerts
raise at message now a =
    let alert = or_zero (lookup at a.alerts) in
    let e : AlertEvent = record { kind = "raised"; message = message; time = now } in
    let a' = record_event alert.journal_type e a in
    record a' {
      alerts = insert at (record alert { active = true; last_active = some e }) a'.alerts;
    }

-- `Resolve`
unfoldable pub resolve : AlertType → String → ℕ → Alerts → Alerts
resolve at message now a =
    let alert = or_zero (lookup at a.alerts) in
    let e : AlertEvent = record { kind = "resolved"; message = message; time = now } in
    let a' = record_event alert.journal_type e a in
    record a' {
      alerts = insert at (record alert { active = false; last_resolved = some e }) a'.alerts;
    }

-- `GetAlerts`
unfoldable pub get_alerts : (List Alert → List Alert) → Alerts → List Alert
get_alerts sorted a = sorted (map (λ (e : AlertType × Alert). e.1) a.alerts)

alerts-record_event :
    (et : EventType) (e : AlertEvent) (a : Alerts) → (record_event et e a).alerts ≡ a.alerts
unfolding record_event
alerts-record_event et e a = ground arith

recorded_if :
    (et : EventType) (e : AlertEvent) (a : Alerts)
    → (record_event et e a).recorded
      ≡ (if is_enabled et then a.recorded ++ (et, e) ∷ [] else a.recorded)
unfolding record_event
recorded_if et e a = ground arith

-- What is there after an alert that was added is raised: it is active with the event, all else of it is
-- as before, the other alerts are as before, and the journal has the event where its type is enabled.
pub raise_lem :
    (at other : AlertType) (message : String) (now : ℕ) (a : Alerts) (alert : Alert)
    → lookup at a.alerts ≡ some alert
    → let e : AlertEvent = record { kind = "raised"; message = message; time = now } in
      (lookup at (raise at message now a).alerts
        ≡ some (record alert { active = true; last_active = some e }))
      × (alert_type_beq at other ≡ false
          → lookup other (raise at message now a).alerts ≡ lookup other a.alerts)
      × ((raise at message now a).recorded ≡ (
          if is_enabled alert.journal_type
          then a.recorded ++ (alert.journal_type, e) ∷ []
          else a.recorded))
unfolding raise
raise_lem at other message now a alert h =
    let e : AlertEvent = record { kind = "raised"; message = message; time = now } in
    let after : Alert = record alert { active = true; last_active = some e } in
    let rest = (record_event alert.journal_type e a).alerts in
    rw h (
      lookup-insert_self at after rest,
      λ apart.
          lookup-insert at other after rest
          ∙ rw apart (ap (lookup other) (alerts-record_event alert.journal_type e a)),
      recorded_if alert.journal_type e a,
    )

-- An alert that was never added is stored all the same when it is raised: active, but with no name and
-- with a type that the journal does not record.
pub raise-unknown :
    (at : AlertType) (message : String) (now : ℕ) (a : Alerts)
    → lookup at a.alerts ≡ none
    → (alert : Alert) × (lookup at (raise at message now a).alerts ≡ some alert)
      × (alert.active ≡ true)
      × (alert.type_of ≡ zero_alert.type_of)
      × ((raise at message now a).recorded ≡ a.recorded)
unfolding raise
raise-unknown at message now a h =
    let e : AlertEvent = record { kind = "raised"; message = message; time = now } in
    let after : Alert = record zero_alert { active = true; last_active = some e } in
    rw h (
      after,
      lookup-insert_self at after (record_event zero_event_type e a).alerts,
      refl,
      refl,
      recorded_if zero_event_type e a,
    )
