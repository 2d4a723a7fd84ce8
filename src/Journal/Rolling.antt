-- ===== src/Journal/Rolling.antt =====
-- lib/journal/fsjournal/fs.go: the journal in a file, which is renamed once it is too long.
-- The files of the directory are a map from names to contents; what the system answers is given with
-- each event. `RFC3339` times are texts of whole seconds.
pub mod Laws
use sophon_miner.Prelude.{
  Bool, Eq, List, Option, Result, String, [], arith, err, false, if◌then◌else◌, length, list_eq,
  nat_eq, none, ok, some, string_eq, take, true, ℕ, ◌++◌, ◌==◌, ◌↔◌, ◌∷◌, ◌≡◌,
}
use sophon_miner.Prelude.Int.{int64, int_eq, ltb_ℤ, pos, ℤ, ◌+ℤ◌}
use sophon_miner.Prelude.Maps.{delete, insert, lookup}
use sophon_miner.Types.{Bytes, state_eq}

-- "sophon-miner-journal.ndjson" is the current file, and a rolled one has a time in its name.
pub data JournalFile : Type 0 where
  current_file : JournalFile
  rolled_file : String → JournalFile

abbrev pub journal_file_beq : JournalFile → JournalFile → Bool
journal_file_beq current_file current_file = true
journal_file_beq current_file (rolled_file b) = false
journal_file_beq (rolled_file a) current_file = false
journal_file_beq (rolled_file a) (rolled_file b) = a == b

pub journal_file_beq_iff : (a b : JournalFile) → (journal_file_beq a b ≡ true) ↔ (a ≡ b)
journal_file_beq_iff current_file current_file = ground arith
journal_file_beq_iff current_file (rolled_file b) = ground arith
journal_file_beq_iff (rolled_file a) current_file = ground arith
journal_file_beq_iff (rolled_file a) (rolled_file b) = ground (arith, string_eq.beq_iff a b)

instance abbrev pub journal_file_eq : Eq JournalFile
journal_file_eq = record { beq = journal_file_beq; beq_iff = journal_file_beq_iff }

pub record FsJournal : Type 0 where
  pub size_limit : ℤ
  pub f_size : ℤ
  -- Whether `fi` is an open file.
  pub is_open : Bool
  pub files : List (JournalFile × Bytes)

-- The answers of the system while an event is put: after how many bytes the write fails, if it does,
-- the time, and whether a rename and a creation succeed.
pub record Answers : Type 0 where
  pub write_fails_after : Option ℕ
  pub now : String
  pub renames : Bool
  pub creates : Bool

pub data FsError : Type 0 where
  roll_failed create_failed write_failed marshal_failed : FsError

abbrev pub or_nothing : Option Bytes → Bytes
or_nothing none = []
or_nothing (some b) = b

-- os.Create, which empties a file that is there.
create_current : Answers → FsJournal → Result FsError (Unit {0}) × FsJournal
create_current ans f =
    if ans.creates
    then (
      ok tt,
      record f { f_size = pos 0; is_open = true; files = insert current_file [] f.files },
    )
    else (err create_failed, f)

-- os.Rename, which replaces a file of the new name.
rename_current : Answers → Option Bytes → FsJournal → Result FsError (Unit {0}) × FsJournal
unfolding create_current
rename_current ans none f = create_current ans f
rename_current ans (some old) f =
    if ans.renames
    then create_current ans
        (record f { files = insert (rolled_file ans.now) old (delete current_file f.files) })
    else (err roll_failed, f)

-- `rollJournalFile`: the file is closed first.
unfoldable pub roll_journal_file : Answers → FsJournal → Result FsError (Unit {0}) × FsJournal
unfolding rename_current
roll_journal_file ans f =
    rename_current ans (lookup current_file f.files) (record f { is_open = false })

-- What is appended to the current file.
appended : Bytes → FsJournal → FsJournal
appended b f = record f {
  files = insert current_file (or_nothing (lookup current_file f.files) ++ b) f.files;
}

-- A write that fails may have written the first bytes, which `fSize` does not count.
write_open : Option ℕ → Bytes → FsJournal → Result FsError (Unit {0}) × FsJournal
unfolding appended
write_open none b f = (ok tt, record (appended b f) { f_size = int64 (f.f_size +ℤ pos (length b)) })
write_open (some n) b f = (err write_failed, appended (take n b) f)

-- A write to a file that is closed fails.
write_current : Answers → Bytes → FsJournal → Result FsError (Unit {0}) × FsJournal
unfolding write_open
write_current ans b f =
    if f.is_open then write_open ans.write_fails_after b f else (err write_failed, f)

-- An error of the rolling is dropped.
roll_if_long :
    Answers → Result FsError (Unit {0}) × FsJournal → Result FsError (Unit {0}) × FsJournal
roll_if_long ans (err e, f) = (err e, f)
roll_if_long ans (ok u, f) =
    if ltb_ℤ f.f_size f.size_limit then (ok tt, f) else (ok tt, (roll_journal_file ans f).1)

-- `putEvent` of an event whose JSON is `b`, and the line's end.
unfoldable pub put_event :
    Answers → Option Bytes → FsJournal → Result FsError (Unit {0}) × FsJournal
unfolding write_current roll_if_long
put_event ans none f = (err marshal_failed, f)
put_event ans (some b) f = roll_if_long ans (write_current ans (b ++ 10 ∷ []) f)
