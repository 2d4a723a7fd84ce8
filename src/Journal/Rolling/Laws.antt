-- ===== src/Journal/Rolling/Laws.antt =====
-- lib/journal/fsjournal/fs.go: what a roll keeps, and the size of the current file.
-- What a roll does where the system fails at nothing.
use sophon_miner.Journal.Rolling.{
  Answers, FsJournal, appended, create_current, current_file, journal_file_eq, or_nothing,
  put_event, rename_current, roll_if_long, roll_journal_file, rolled_file, write_current,
  write_failed, write_open,
}
use sophon_miner.Prelude.{
  Bool, Bool-cases, String, [], ap, arith, err, false, if◌then◌else◌, inl, inr, length,
  length-append, list_eq, nat_eq, none, ok, refl, some, string_eq, true, ◌++◌, ◌<◌, ◌==◌, ◌∙◌, ◌∷◌,
  ◌≡◌, ◌≢◌,
}
use sophon_miner.Prelude.Int.{int64, int64-of_fits, int_eq, ltb_ℤ, pos, ◌+ℤ◌}
use sophon_miner.Prelude.Maps.{
  delete, insert, lookup, lookup-delete, lookup-insert, lookup-insert_self,
}
use sophon_miner.Types.{Bytes, state_eq}

roll_done :
    (ans : Answers) (f : FsJournal) (old : Bytes)
    → lookup current_file f.files ≡ some old
    → ans.renames ≡ true
    → ans.creates ≡ true
    → roll_journal_file ans f ≡ (
      ok tt,
      record f {
        f_size = pos 0;
        is_open = true;
        files =
            insert current_file [] (insert (rolled_file ans.now) old (delete current_file f.files));
      },
    )
unfolding roll_journal_file rename_current create_current
roll_done ans f old h renames creates = rw (h, renames, creates) refl

roll_answers :
    (ans : Answers) (f : FsJournal) (old : Bytes)
    → lookup current_file f.files ≡ some old
    → (roll_journal_file ans f).0 ≡ ok tt
    → (ans.renames ≡ true) × (ans.creates ≡ true)
unfolding roll_journal_file rename_current create_current
roll_answers ans f old h done = ground arith

-- A roll that succeeds keeps what the current file held, under the new name, and leaves an empty
-- current file; the files that were rolled before are kept, but for one of the same second.
pub roll_journal_file_lem :
    (ans : Answers) (f : FsJournal) (old : Bytes)
    → lookup current_file f.files ≡ some old
    → (roll_journal_file ans f).0 ≡ ok tt
    → let f' = (roll_journal_file ans f).1 in
      (lookup (rolled_file ans.now) f'.files ≡ some old)
      × (lookup current_file f'.files ≡ some [])
      × (f'.f_size ≡ pos 0)
      × ((name : String)
          → ans.now ≢ name
          → lookup (rolled_file name) f'.files ≡ lookup (rolled_file name) f.files)
roll_journal_file_lem ans f old h done =
    let (renames, creates) = roll_answers ans f old h done in
    let kept = delete current_file f.files in
    let moved = insert (rolled_file ans.now) old kept in
    rw (roll_done ans f old h renames creates) (
      lookup-insert current_file (rolled_file ans.now) [] moved
          ∙ lookup-insert_self (rolled_file ans.now) old kept,
      lookup-insert_self current_file [] moved,
      refl,
      λ name apart.
          lookup-insert current_file (rolled_file name) [] moved
          ∙ lookup-insert (rolled_file ans.now) (rolled_file name) old kept
          ∙ rw (beq_ne ans.now name apart) (lookup-delete current_file (rolled_file name) f.files),
    )
  where
    beq_ne : (a b : String) → a ≢ b → (a == b) ≡ false
    beq_ne a b ne = elim (Bool-cases (a == b)) [
      | inl same ↦ absurd (ne ((string_eq.beq_iff a b).0 same))
      | inr apart ↦ apart
    ]

-- The size that is counted is the length of the current file, and is within the limit of 1 GiB.
pub record Counted (f : FsJournal) : Type 0 where
  pub content : Bytes
  pub held : lookup current_file f.files ≡ some content
  pub size : f.f_size ≡ pos (length content)
  pub within : length content < 1073741824
  pub limit : f.size_limit ≡ pos 1073741824

rolled-Counted :
    (ans : Answers) (f : FsJournal) (old : Bytes)
    → lookup current_file f.files ≡ some old
    → ans.renames ≡ true
    → ans.creates ≡ true
    → f.size_limit ≡ pos 1073741824
    → Counted (roll_journal_file ans f).1
rolled-Counted ans f old h renames creates limit =
    rw (roll_done ans f old h renames creates) (record {
      content = [];
      held = lookup-insert_self current_file [] _;
      size = refl;
      within = omega arith;
      limit = limit;
    })

checked-Counted :
    (ans : Answers) (f : FsJournal) (content : Bytes)
    → lookup current_file f.files ≡ some content
    → f.f_size ≡ pos (length content)
    → ans.renames ≡ true
    → ans.creates ≡ true
    → f.size_limit ≡ pos 1073741824
    → Counted (roll_if_long ans (ok tt, f)).1
unfolding roll_if_long
checked-Counted ans f content h size renames creates limit =
    elim (Bool-cases (ltb_ℤ f.f_size f.size_limit)) [
      | inl short ↦ rw short (record {
        content = content;
        held = h;
        size = size;
        within =
            (let fits : ltb_ℤ (pos (length content)) (pos 1073741824) ≡ true =
                rw (size, limit) at short in
              ground arith);
        limit = limit;
      })
      | inr long ↦ rw long (rolled-Counted ans f content h renames creates limit)
    ]

if_true : {A : Type 0} (c : Bool) (x y : A) → c ≡ true → (if c then x else y) ≡ x
if_true true x y h = refl
if_true false x y h = cc

if_false : {A : Type 0} (c : Bool) (x y : A) → c ≡ false → (if c then x else y) ≡ y
if_false true x y h = cc
if_false false x y h = refl

write_current-ok :
    (ans : Answers) (line : Bytes) (f : FsJournal)
    → f.is_open ≡ true
    → ans.write_fails_after ≡ none
    → write_current ans line f ≡ (
      ok tt,
      record f {
        f_size = int64 (f.f_size +ℤ pos (length line));
        files = insert current_file (or_nothing (lookup current_file f.files) ++ line) f.files;
      },
    )
unfolding write_current write_open appended
write_current-ok ans line f here writes =
    if_true f.is_open _ _ here ∙ ap (λ o. write_open o line f) writes

write_current-closed :
    (ans : Answers) (line : Bytes) (f : FsJournal)
    → f.is_open ≡ false
    → write_current ans line f ≡ (err write_failed, f)
unfolding write_current
write_current-closed ans line f closed = if_false f.is_open _ _ closed

-- Putting an event keeps the count the length of the current file, within the limit, where the text of
-- the event is within the limit, and a write to an open file, a rename and a creation do not fail.
pub put_event-Counted :
    (ans : Answers) (b : Bytes) (f : FsJournal)
    → ans.write_fails_after ≡ none
    → ans.renames ≡ true
    → ans.creates ≡ true
    → length b < 1073741824
    → Counted f
    → Counted (put_event ans (some b) f).1
unfolding put_event
put_event-Counted ans b f writes renames creates small c =
    let line = b ++ 10 ∷ [] in
    let f1 : FsJournal = record f {
      f_size = int64 (f.f_size +ℤ pos (length line));
      files = insert current_file (or_nothing (lookup current_file f.files) ++ line) f.files;
    } in
    elim (Bool-cases f.is_open) [
      | inl here ↦ rw (write_current-ok ans line f here writes) (
          checked-Counted ans f1 (c.content ++ line)
            (lookup-insert_self current_file (or_nothing (lookup current_file f.files) ++ line)
                f.files
              ∙ rw c.held refl)
            (rw c.size (counted c.content b c.within small)) renames creates c.limit)
      | inr closed ↦ rw (write_current-closed ans line f closed, roll_if_long) c
    ]
  where
    counted :
        (xs ys : Bytes)
        → length xs < 1073741824
        → length ys < 1073741824
        → int64 (pos (length xs) +ℤ pos (length (ys ++ 10 ∷ [])))
          ≡ pos (length (xs ++ (ys ++ 10 ∷ [])))
    counted xs ys fx fy =
        let line = length-append ys (10 ∷ []) in
        let all = length-append xs (ys ++ 10 ∷ []) in
        let sum : pos (length xs) +ℤ pos (length (ys ++ 10 ∷ []))
            ≡ pos (length (xs ++ (ys ++ 10 ∷ []))) =
          unfold ◌+ℤ◌ in ground arith in
        rw sum (int64-of_fits _ (omega arith))
