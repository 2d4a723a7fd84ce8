-- ===== src/Tests/Journal.antt =====
-- A registry with a disabled event, an alert that was never added, and a journal file.
use sophon_miner.Journal.{EventType}
use sophon_miner.Journal.Alerting.{
  Alert, AlertType, Alerts, alert_type_eq, raise, raise-unknown, zero_alert,
}
use sophon_miner.Journal.Rolling.{Answers, FsJournal, current_file, journal_file_eq, put_event}
use sophon_miner.Journal.Rolling.Laws.{Counted, put_event-Counted}
use sophon_miner.Node.Options.{module_key_eq}
use sophon_miner.Prelude.{
  [], arith, false, list_eq, nat_eq, none, refl, some, string_eq, true, ◌∷◌, ◌≡◌,
}
use sophon_miner.Prelude.Int.{int_eq, pos}
use sophon_miner.Prelude.Maps.{lookup}
use sophon_miner.SlashFilter.Local.{key_eq}
use sophon_miner.Tests.Records.{record_key_eq}
use sophon_miner.Types.{state_eq}

abbrev quiet : EventType
quiet = record { system = "miner"; event = "block"; enabled = false; safe = false }

abbrev no_alerts : Alerts
no_alerts = record { alerts = []; registry = []; recorded = [] }

abbrev disk_alert : AlertType
disk_alert = record { system = "disk"; subsystem = "full" }

raise-unknown_example :
    (alert : Alert) × (lookup disk_alert (raise disk_alert "m" 5 no_alerts).alerts ≡ some alert)
    × (alert.active ≡ true)
    × (alert.type_of ≡ zero_alert.type_of)
    × ((raise disk_alert "m" 5 no_alerts).recorded ≡ [])
unfolding lookup
raise-unknown_example = raise-unknown disk_alert "m" 5 no_alerts refl

abbrev pub one_line : FsJournal
one_line = record {
  size_limit = pos 1073741824;
  f_size = pos 2;
  is_open = true;
  files = (current_file, 9 ∷ 10 ∷ []) ∷ [];
}

abbrev pub all_well : Answers
all_well = record { write_fails_after = none; now = "t1"; renames = true; creates = true }

one_line-Counted : Counted one_line
unfolding lookup
one_line-Counted = record {
  content = 9 ∷ 10 ∷ [];
  held = refl;
  size = refl;
  within = omega arith;
  limit = refl;
}

put_event-Counted_example : Counted (put_event all_well (some (8 ∷ [])) one_line).1
put_event-Counted_example =
    put_event-Counted all_well (8 ∷ []) one_line refl refl refl (omega arith) one_line-Counted
