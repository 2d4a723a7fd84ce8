-- ===== src/Tests/Recorder.antt =====
-- The recorder over a store in memory.
use sophon_miner.Datastore.Memory.{found, memory}
use sophon_miner.Journal.Alerting.{alert_type_eq}
use sophon_miner.Journal.Rolling.{journal_file_eq}
use sophon_miner.Node.Options.{module_key_eq}
use sophon_miner.Prelude.{All, Any, [], arith, list_eq, nat_eq, none, ok, refl, string_eq, ◌∷◌, ◌≡◌}
use sophon_miner.Prelude.Int.{FitsInt64, int64, int_eq, pos, ◌+ℤ◌, ◌-ℤ◌, ◌<ℤ◌, ◌≤ℤ◌}
use sophon_miner.Prelude.Maps.{insert, lookup}
use sophon_miner.Recorder.{
  Recorder, Records, clean_before, clean_expire, cover_map, default_limits, delete_range, get, put,
  query, query_loop, write_record,
}
use sophon_miner.Recorder.Clean.{clean_before-keeps, clean_before-removes, view}
use sophon_miner.Recorder.Encoding.{from_bytes, into_bytes}
use sophon_miner.Recorder.Queried.{InRange, answer, query_complete, query_sound}
use sophon_miner.Recorder.Recorded.{or_else, record_reads_back, recorded}
use sophon_miner.Recorder.Store.{min_epoch_key, record_key}
use sophon_miner.SlashFilter.Local.{key_eq}
use sophon_miner.Tests.Printer.{marshal, printer, unmarshal}
use sophon_miner.Tests.Records.{MemRecords, keys_of, record_key_eq, records}
use sophon_miner.Types.{state_eq}

abbrev started : Records
started = ("start", "12:00") ∷ []

-- The record of epoch 5, below which the epochs from 2 on are not cleaned.
abbrev stored : MemRecords
stored = (record_key (pos 5) 1000, marshal started) ∷ (min_epoch_key, into_bytes (pos 2)) ∷ []

clean_before-keeps_example :
    view printer records (clean_before printer records (pos 3) stored).1 (record_key (pos 5) 1000)
    ≡ view printer records stored (record_key (pos 5) 1000)
clean_before-keeps_example =
    clean_before-keeps printer records (pos 3) (pos 5) 1000 stored (omega arith)

min_epoch_stored : memory.get stored min_epoch_key ≡ ok (into_bytes (pos 2))
unfolding lookup found
min_epoch_stored = refl

cleaned : (clean_before printer records (pos 6) stored).0 ≡ ok tt
unfolding clean_before delete_range lookup found from_bytes into_bytes int64 keys_of ◌-ℤ◌ ◌+ℤ◌
cleaned = refl

from_two : from_bytes (into_bytes (pos 2)) ≤ℤ pos 5
unfolding from_bytes into_bytes int64
from_two = omega arith

clean_before-removes_example :
    view printer records (clean_before printer records (pos 6) stored).1 (record_key (pos 5) 1000)
    ≡ none
clean_before-removes_example =
    clean_before-removes printer records (pos 6) (pos 5) 1000 stored (into_bytes (pos 2))
      min_epoch_stored from_two (omega arith) cleaned

abbrev at_5 : Recorder MemRecords
at_5 = record { ds = stored; latest_record_epoch = pos 5 }

abbrev ended : Records
ended = ("end", "12:01") ∷ []

abbrev both : Records
both = ("start", "12:00") ∷ ("end", "12:01") ∷ []

written : (write_record printer records default_limits at_5 1000 (pos 5) ended).0 ≡ ok tt
unfolding write_record get put clean_expire lookup insert found cover_map unmarshal marshal
written = refl

read_again :
    get printer records
      (write_record printer records default_limits at_5 1000 (pos 5) ended).1.ds
      1000
      (pos 5)
    ≡ ok both
unfolding write_record get put clean_expire lookup insert found cover_map unmarshal marshal
read_again = refl

record_reads_back_example :
    lookup "end" both
    ≡ or_else
        (lookup "end" ended)
        (lookup "end" (recorded (get printer records stored 1000 (pos 5))))
record_reads_back_example =
    record_reads_back printer records default_limits at_5 1000 (pos 5) ended both "end"
      (omega arith) (unfold ◌-ℤ◌ in ground arith) written read_again

abbrev with_names : Records
with_names = ("start", "12:00") ∷ ("epoch", "5") ∷ ("miner", "t01000") ∷ []

queried : query printer records default_limits stored 1000 (pos 5) 1 ≡ ok (with_names ∷ [])
unfolding query query_loop get lookup found cover_map unmarshal marshal int64 insert ◌-ℤ◌ ◌+ℤ◌
queried = refl

fits_6 : FitsInt64 (pos 5 +ℤ pos 1)
unfolding ◌+ℤ◌
fits_6 = ground arith

query_sound_example : All (InRange printer records 1 stored 1000 (pos 5)) (with_names ∷ [])
query_sound_example =
    query_sound printer records default_limits stored 1000 (pos 5) 1 (with_names ∷ []) fits_6
      queried

got : get printer records stored 1000 (pos 5) ≡ ok started
unfolding get lookup found unmarshal marshal
got = refl

above_5 : pos 5 <ℤ pos 5 +ℤ pos 1
unfolding ◌+ℤ◌
above_5 = omega arith

query_complete_example :
    Any (λ x. x ≡ answer printer records 1000 (pos 5) started) (with_names ∷ [])
query_complete_example =
    query_complete printer records default_limits stored 1000 (pos 5) (pos 5) 1 started
      (with_names ∷ []) fits_6 queried got (omega arith) above_5
