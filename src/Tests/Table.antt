-- ===== src/Tests/Table.antt =====
-- A table in memory, as a list of rows, and the slash filter over it.
use sophon_miner.Prelude.{
  Bool-cases, List, Option, Result, [], arith, contains, err, false, if◌then◌else◌, inl, inr,
  list_beq_iff, list_eq, nat_eq, none, ok, refl, some, true, ◌&&◌, ◌==◌, ◌∷◌, ◌≡◌, ◌≢◌, ◌⊎◌,
}
use sophon_miner.Prelude.Int.{int_beq_iff, int_eq, pos}
use sophon_miner.SlashFilter.{DbError, Guards, failure, record_not_found}
use sophon_miner.SlashFilter.Mysql.{
  Columns, Table, check_same_parent_fault, is_empty, mined_block, mysql, new_row, put_block,
  update_row,
}
use sophon_miner.SlashFilter.Mysql.Guard.{mysql-Guards}
use sophon_miner.SlashFilter.Mysql.Rows.{mined_block-rows}
use sophon_miner.Tests.SlashFilter.{block_5, codec, read_byte}
use sophon_miner.Types.{Address, Bytes, ChainEpoch, Cid, MinedBlock, success}

find_row : Address → ChainEpoch → List MinedBlock → Option MinedBlock
find_row m h [] = none
find_row m h (r ∷ rows) = if r.miner == m && r.epoch == h then some r else find_row m h rows

find_parent_row : Address → Bytes → List MinedBlock → Option MinedBlock
find_parent_row m p [] = none
find_parent_row m p (r ∷ rows) =
    if r.miner == m && r.parent_key == p then some r else find_parent_row m p rows

update_rows : Address → ChainEpoch → Columns → List MinedBlock → List MinedBlock
update_rows m h u [] = []
update_rows m h u (r ∷ rows) =
    (if r.miner == m && r.epoch == h then update_row u r else r) ∷ update_rows m h u rows

or_absent : Option MinedBlock → Result DbError MinedBlock
or_absent none = err record_not_found
or_absent (some r) = ok r

-- INSERT fails on a key that is there.
create_row :
    List MinedBlock → MinedBlock → Option MinedBlock → Result DbError (Unit {0}) × List MinedBlock
create_row rows r none = (ok tt, r ∷ rows)
create_row rows r (some _) = (err failure, rows)

or_absent-ok : (o : Option MinedBlock) (r : MinedBlock) → or_absent o ≡ ok r → o ≡ some r
unfolding or_absent
or_absent-ok none r h = cc
or_absent-ok (some x) r h = ground arith

or_absent-err : (o : Option MinedBlock) → or_absent o ≡ err record_not_found → o ≡ none
unfolding or_absent
or_absent-err none h = refl
or_absent-err (some x) h = cc

parent_missing :
    (rows : List MinedBlock) (m : Address) (p : Bytes) (h : ChainEpoch) (r : MinedBlock)
    → find_parent_row m p rows ≡ none
    → find_row m h rows ≡ some r
    → r.parent_key ≢ p
unfolding find_parent_row find_row
parent_missing [] m p h r absent there same = cc
parent_missing (x ∷ rows) m p h r absent there same =
    ground (arith, list_beq_iff x.parent_key p, parent_missing rows m p h r)

create_self :
    (rows : List MinedBlock) (r : MinedBlock) (o : Option MinedBlock)
    → (create_row rows r o).0 ≡ ok tt
    → find_row r.miner r.epoch (create_row rows r o).1 ≡ some r
unfolding create_row find_row
create_self rows r none h = ground (arith, int_beq_iff r.epoch r.epoch)
create_self rows r (some x) h = cc

create-keeps :
    (rows : List MinedBlock) (r old : MinedBlock) (o : Option MinedBlock) (m : Address)
    (h : ChainEpoch)
    → find_row r.miner r.epoch rows ≡ o
    → find_row m h rows ≡ some old
    → find_row m h (create_row rows r o).1 ≡ some old
unfolding create_row find_row
create-keeps rows r old (some x) m h e there = there
create-keeps rows r old none m h e there = elim (Bool-cases (r.miner == m && r.epoch == h)) [
  | inl same ↦
      let em : r.miner ≡ m = ground arith in
      let eh : r.epoch ≡ h = ground (arith, int_beq_iff r.epoch h) in
      let absent : find_row m h rows ≡ none = rw (← em, ← eh) e in cc
  | inr other ↦ simp other there
]

update-any :
    (rows : List MinedBlock) (m n : Address) (h k : ChainEpoch) (u : Columns) (old : MinedBlock)
    → find_row n k rows ≡ some old
    → find_row n k (update_rows m h u rows)
      ≡ some (if old.miner == m && old.epoch == h then update_row u old else old)
unfolding find_row update_rows update_row
update-any [] m n h k u old there = cc
update-any (r ∷ rows) m n h k u old there = ground (arith, update-any rows m n h k u old)

found-key :
    (rows : List MinedBlock) (m : Address) (h : ChainEpoch) (r : MinedBlock)
    → find_row m h rows ≡ some r
    → (r.miner ≡ m) × (r.epoch ≡ h)
unfolding find_row
found-key [] m h r there = cc
found-key (x ∷ rows) m h r there = ground (arith, int_beq_iff x.epoch h, found-key rows m h r)

update_self :
    (rows : List MinedBlock) (m : Address) (h : ChainEpoch) (u : Columns) (old : MinedBlock)
    → find_row m h rows ≡ some old
    → find_row m h (update_rows m h u rows) ≡ some (update_row u old)
update_self rows m h u old there = ground (
  arith,
  found-key rows m h old there,
  update-any rows m m h h u old there,
  int_beq_iff old.epoch h,
)

update-either :
    (rows : List MinedBlock) (m n : Address) (h k : ChainEpoch) (u : Columns) (old : MinedBlock)
    → find_row n k rows ≡ some old
    → (find_row n k (update_rows m h u rows) ≡ some old)
      ⊎ (find_row n k (update_rows m h u rows) ≡ some (update_row u old))
update-either rows m n h k u old there = ground (arith, update-any rows m n h k u old there)

abbrev table : Table (List MinedBlock)
table = record {
  take_epoch = λ s m h. or_absent (find_row m h s);
  take_parent = λ s m p. or_absent (find_parent_row m p s);
  create = λ s r. create_row s r (find_row r.miner r.epoch s);
  update_columns = λ s m h u. (ok tt, update_rows m h u s);
  find = λ s miners from to. ok s;
  row = λ s m h. find_row m h s;
  take_row = λ s m h r q. or_absent-ok (find_row m h s) r q;
  take_absent = λ s m h q. or_absent-err (find_row m h s) q;
  parent_absent =
      λ s m p h r q there. parent_missing s m p h r (or_absent-err (find_parent_row m p s) q) there;
  create_row = λ s r done. create_self s r (find_row r.miner r.epoch s) done;
  create_keeps =
      λ s r old m h there. create-keeps s r old (find_row r.miner r.epoch s) m h refl there;
  update_columns_row = λ s m h u old done there. update_self s m h u old there;
  update_atomic = λ s m h u n k old there. update-either s m n h k u old there;
}

mysql-Guards_example : Guards (mysql codec table)
mysql-Guards_example = mysql-Guards codec table

abbrev no_rows : List MinedBlock
no_rows = []

no_row : or_absent (find_row 1000 (pos 5) no_rows) ≡ err record_not_found
unfolding or_absent find_row
no_row = refl

abbrev row_5 : MinedBlock
row_5 = new_row codec block_5 (pos 4) none success

abbrev rows_5 : List MinedBlock
rows_5 = row_5 ∷ []

row_taken : or_absent (find_row 1000 (pos 5) rows_5) ≡ ok row_5
unfolding or_absent find_row new_row
row_taken = refl

put_succeeds : (put_block codec table rows_5 block_5 (pos 4) none success).0 ≡ ok tt
unfolding put_block or_absent find_row new_row
put_succeeds = refl

block_accepted : mined_block codec table rows_5 block_5 (pos 4) ≡ ok tt
unfolding mined_block check_same_parent_fault or_absent find_row find_parent_row new_row
block_accepted = refl

mined_block-rows_example :
    ((r : MinedBlock)
      → or_absent (find_parent_row 1000 (7 ∷ []) rows_5) ≡ ok r
      → is_empty r.cid ≡ false
      → read_byte r.cid ≡ some 15)
    × ((r : MinedBlock)
        → find_row 1000 (pos 4) rows_5 ≡ some r
        → is_empty r.cid ≡ false
        → (c : Cid) × (read_byte r.cid ≡ some c) × (contains c (7 ∷ []) ≡ true))
mined_block-rows_example = mined_block-rows codec table rows_5 block_5 (pos 4) block_accepted
