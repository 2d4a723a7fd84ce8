-- ===== src/Tests/SlashFilter.antt =====
-- The slash filters over a store in memory.
use sophon_miner.Datastore.Memory.{found, memory}
use sophon_miner.Miner.{MiningBase}
use sophon_miner.Miner.Broadcast.{SubmitAnswers, broadcast, broadcast_all, submit_any}
use sophon_miner.Miner.Broadcast.Safety.{PairwiseApart, no_double_fork}
use sophon_miner.Prelude.{
  List, Option, [], ap, arith, contains, false, is_some, nat_eq, none, ok, refl, some, true, ◌+◌,
  ◌∷◌, ◌≡◌, ◌≢◌,
}
use sophon_miner.Prelude.Int.{int64, pos, pos_part, ◌+ℤ◌}
use sophon_miner.Prelude.Maps.{insert, lookup}
use sophon_miner.SlashFilter.{Guards}
use sophon_miner.SlashFilter.Local.{
  Key, by_epoch, by_parents, check_fault, check_parent, has_block, key_eq, local, mined_block,
  put_block,
}
use sophon_miner.SlashFilter.Local.Faults.{
  mined_block_complete, mined_block_sound, parent_grinding-refused, time_offset-refused,
}
use sophon_miner.SlashFilter.Local.Guard.{local-Guards}
use sophon_miner.Types.{BlockHeader, Bytes, ChainCodec, ChainEpoch, Cid, Ticket, Time, success}

-- A codec whose CID is made from the height of the header, in one byte.
abbrev pub height_cid : BlockHeader → Cid
height_cid bh = 10 + pos_part bh.height

abbrev pub one_byte : Cid → Bytes
one_byte c = c ∷ []

abbrev pub read_byte : Bytes → Option Cid
read_byte [] = none
read_byte (c ∷ _) = some c

pub one_byte_nonempty : (c : Cid) → one_byte c ≢ []
one_byte_nonempty c h = ground arith

abbrev pub codec : ChainCodec
codec = record {
  header_cid = height_cid;
  tipset_key = λ cids. cids;
  cid_bytes = one_byte;
  cid_from_bytes = read_byte;
  cid_string = one_byte;
  cid_decode = read_byte;
  from_bytes_bytes = λ c. refl;
  decode_string = λ c. refl;
  string_nonempty = one_byte_nonempty;
}

abbrev pub MemStore : Type 0
MemStore = List (Key × Bytes)

abbrev pub block_5 : BlockHeader
block_5 = record {
  miner = 1000;
  height = pos 5;
  parents = 7 ∷ [];
  ticket = some (record { vrf_proof = [] });
}

abbrev pub block_6 : BlockHeader
block_6 = record {
  miner = 1000;
  height = pos 6;
  parents = 7 ∷ [];
  ticket = some (record { vrf_proof = [] });
}

abbrev pub empty : MemStore
empty = []

put_succeeds : (put_block codec memory empty block_5 (pos 4) none success).0 ≡ ok tt
unfolding put_block insert
put_succeeds = refl

cids_differ : height_cid block_6 ≢ height_cid block_5
cids_differ = ground arith

pub no_slashing :
    (s : MemStore) (bh : BlockHeader) (parent_epoch : ChainEpoch) (t : Time)
    → (put_block codec memory s bh parent_epoch t success).0 ≡ ok tt
unfolding put_block
no_slashing s bh pe t = refl

pub ticketed : ◌≢◌ {A = Option Ticket} (some (record { vrf_proof = [] })) none
ticketed h = cc

time_offset-refused_example :
    mined_block codec memory
      (put_block codec memory empty block_5 (pos 4) none success).1
      block_6
      (pos 5)
    ≢ ok tt
time_offset-refused_example =
    time_offset-refused codec memory empty block_5 block_6 (pos 4) (pos 5) none put_succeeds refl
      refl cids_differ

parent_grinding-refused_example :
    mined_block codec memory
      (put_block codec memory empty block_5 (pos 4) none success).1
      block_6
      (pos 5)
    ≢ ok tt
parent_grinding-refused_example =
    parent_grinding-refused codec memory empty block_5 block_6 (pos 4) none put_succeeds refl refl

local-Guards_example : Guards (local codec memory)
local-Guards_example = local-Guards codec memory

-- A block on the one that was mined before it.
abbrev child_6 : BlockHeader
child_6 = record { miner = 1000; height = pos 6; parents = 15 ∷ []; ticket = none }

abbrev after_5 : MemStore
after_5 = (by_parents 1000 (7 ∷ []), 15 ∷ []) ∷ (by_epoch 1000 (pos 5), 15 ∷ []) ∷ []

child_accepted : mined_block codec memory after_5 child_6 (pos 5) ≡ ok tt
unfolding mined_block lookup found check_fault check_parent
child_accepted = refl

mined_block_sound_example :
    ((b : Bytes) → lookup (by_parents 1000 (15 ∷ [])) after_5 ≡ some b → read_byte b ≡ some 16)
    × ((b : Bytes)
        → lookup (by_epoch 1000 (pos 5)) after_5 ≡ some b
        → (c : Cid) × (read_byte b ≡ some c) × (contains c (15 ∷ []) ≡ true))
mined_block_sound_example = mined_block_sound codec memory after_5 child_6 (pos 5) child_accepted

absent_parents :
    (b : Bytes) → lookup (by_parents 1000 (15 ∷ [])) after_5 ≡ some b → read_byte b ≡ some 16
unfolding lookup
absent_parents b h = cc

parent_inside :
    (b : Bytes)
    → lookup (by_epoch 1000 (pos 5)) after_5 ≡ some b
    → (c : Cid) × (read_byte b ≡ some c) × (contains c (15 ∷ []) ≡ true)
unfolding lookup
parent_inside b h = (15, ground arith, refl)

reads_back : (k : Key) (b : Bytes) → lookup k after_5 ≡ some b → found (lookup k after_5) ≡ ok b
unfolding found
reads_back k b h = ground arith

has_none : lookup (by_parents 1000 (15 ∷ [])) after_5 ≡ none
unfolding lookup
has_none = refl

has_some : lookup (by_epoch 1000 (pos 5)) after_5 ≡ some (15 ∷ [])
unfolding lookup
has_some = refl

mined_block_complete_example : mined_block codec memory after_5 child_6 (pos 5) ≡ ok tt
mined_block_complete_example =
    mined_block_complete codec memory after_5 child_6 (pos 5) (ap (λ o. ok (is_some o)) has_none)
      (ap (λ o. ok (is_some o)) has_some) reads_back absent_parents parent_inside

abbrev base_4 : MiningBase
base_4 = record {
  tipset = record { key = 7 ∷ []; height = pos 4; min_timestamp = 120; min_ticket = [] };
  null_rounds = pos 0;
}

abbrev pub answered : SubmitAnswers
answered = record { own_node = false; submit_nodes = false ∷ true ∷ [] }

abbrev requests : List (MiningBase × BlockHeader × SubmitAnswers)
requests = (base_4, block_5, answered) ∷ (base_4, block_5, answered) ∷ []

no_double_fork_example : PairwiseApart (broadcast_all (local codec memory) requests empty).0
no_double_fork_example =
    no_double_fork (local codec memory) (local-Guards codec memory) requests empty
      (ticketed, (ticketed, tt)) no_slashing

-- The second request for the same block is not submitted.
submitted_once : (broadcast_all (local codec memory) requests empty).0 ≡ block_5 ∷ []
unfolding broadcast_all broadcast submit_any check_fault check_parent mined_block has_block
    put_block lookup insert found int64 ◌+ℤ◌
submitted_once = refl
