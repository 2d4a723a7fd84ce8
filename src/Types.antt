-- ===== src/Types.antt =====
-- types/miner.go: the values that the packages share, and the block header and tipset of the chain
-- library in the fields that this repository reads.
-- An address and a CID are opaque values that the code only compares: a number stands for one.
-- An epoch is Go's int64. Text and bytes that are stored are lists of byte values.
use sophon_miner.Prelude.{
  Bool, Eq, List, Option, String, [], arith, false, list_eq, nat_eq, some, string_eq, true, ℕ, ◌↔◌,
  ◌≡◌, ◌≢◌,
}
use sophon_miner.Prelude.Int.{int_eq, ℤ}

abbrev pub Address : Type 0
Address = ℕ

abbrev pub Cid : Type 0
Cid = ℕ

abbrev pub ChainEpoch : Type 0
ChainEpoch = ℤ

abbrev pub Bytes : Type 0
Bytes = List ℕ

-- A wall-clock instant, in nanoseconds; `none` is Go's zero `time.Time`.
abbrev pub Time : Type 0
Time = Option ℕ

pub record MinerInfo : Type 0 where
  pub addr : Address
  pub id : String
  pub name : String
  pub open_mining : Bool

pub record MinerState : Type 0 where
  pub addr : Address
  pub is_mining : Bool
  pub err : List String

pub record SimpleWinInfo : Type 0 where
  pub epoch : ChainEpoch
  pub win_count : ℤ
  pub msg : String

pub record CountWinners : Type 0 where
  pub miner : Address
  pub total_win_count : ℤ
  pub msg : String
  pub win_epoch_list : List SimpleWinInfo

pub data StateMining : Type 0 where
  mining success timeout chain_forked error : StateMining

abbrev state_beq : StateMining → StateMining → Bool
state_beq mining mining = true
state_beq success success = true
state_beq timeout timeout = true
state_beq chain_forked chain_forked = true
state_beq error error = true
state_beq _ _ = false

pub state_beq_iff : (a b : StateMining) → (state_beq a b ≡ true) ↔ (a ≡ b)
state_beq_iff a b = ground arith

instance abbrev pub state_eq : Eq StateMining
state_eq = record { beq = state_beq; beq_iff = state_beq_iff }

-- The five constants of `StateMining`, as they are printed.
pub state_string : StateMining → String
state_string mining = "Mining"
state_string success = "Success"
state_string timeout = "TimeOut"
state_string chain_forked = "ChainForked"
state_string error = "Error"

-- A row of the table miner_blocks. `cid` is the text of the CID, empty when none is known.
pub record MinedBlock : Type 0 where
  pub parent_epoch : ChainEpoch
  pub parent_key : Bytes
  pub epoch : ChainEpoch
  pub miner : Address
  pub cid : Bytes
  pub winning_at : Time
  pub mine_state : StateMining
  pub consuming : ℤ

pub record BlocksQueryParams : Type 0 where
  pub miners : List Address
  pub limit : ℤ
  pub offset : ℤ

pub record QueryRecordParams : Type 0 where
  pub miner : Address
  pub epoch : ChainEpoch
  pub limit : ℕ

pub data ErrorCode : Type 0 where
  connect_gateway_error call_node_rpc_error wallet_sign_error : ErrorCode

pub error_code_string : ErrorCode → String
error_code_string connect_gateway_error = "ConnectGatewayError"
error_code_string call_node_rpc_error = "CallNodeRPCError"
error_code_string wallet_sign_error = "WalletSignError"

-- The VRF output that a ticket is.
pub record Ticket : Type 0 where
  pub vrf_proof : Bytes

-- The header of a block, in the fields that this repository reads and writes.
pub record BlockHeader : Type 0 where
  pub miner : Address
  pub height : ChainEpoch
  pub parents : List Cid
  pub ticket : Option Ticket

-- The chain and CID libraries: the CID of a header, the key of a list of parents, and the two
-- encodings of a CID, each with its decoder.
pub record ChainCodec : Type 0 where
  pub header_cid : BlockHeader → Cid
  pub tipset_key : List Cid → Bytes
  pub cid_bytes : Cid → Bytes
  pub cid_from_bytes : Bytes → Option Cid
  pub cid_string : Cid → Bytes
  pub cid_decode : Bytes → Option Cid
  pub from_bytes_bytes : (c : Cid) → cid_from_bytes (cid_bytes c) ≡ some c
  pub decode_string : (c : Cid) → cid_decode (cid_string c) ≡ some c
  pub string_nonempty : (c : Cid) → cid_string c ≢ []
