-- ===== src/Miner/Create.antt =====
-- miner/multiminer.go, `createBlock`, and the blocks that `mine` makes for the winners of a round.
-- The node builds a block from a template; the wallet signs it where the node has not.
-- The uint64 of a time stamp has its wrap-around written out.
use sophon_miner.Miner.{MiningBase, next_height}
use sophon_miner.Miner.MineOne.{WinPoStRes}
use sophon_miner.Miner.Winner.{
  BeaconEntry, ElectionProof, MineError, Signature, Wallet, block_header, miner_not_exist,
}
use sophon_miner.Prelude.{
  Bool, List, Option, Result, String, [], err, if◌then◌else◌, is_some, nat_eq, none, not, ok, some,
  ℕ, ◌%◌, ◌&&◌, ◌*◌, ◌+◌, ◌-◌, ◌==◌, ◌>>=◌, ◌∷◌, ◌≡◌,
}
use sophon_miner.Prelude.Int.{negsuc, pos, ℤ}
use sophon_miner.Types.{Address, BlockHeader, Bytes, ChainEpoch, Cid, Ticket}

pub record BlockTemplate : Type 0 where
  pub miner : Address
  pub parents : List Cid
  pub ticket : Option Ticket
  pub eproof : Option ElectionProof
  pub beacon_values : List BeaconEntry
  pub messages : List Bytes
  pub epoch : ChainEpoch
  pub timestamp : ℕ
  pub winning_post_proof : List Bytes

pub record BlockMsg : Type 0 where
  pub header : BlockHeader
  pub block_sig : Option Signature
  pub fork_signaling : ℕ

-- The header of the block that a template asks for.
abbrev pub header_of : BlockTemplate → BlockHeader
header_of t = record { miner = t.miner; height = t.epoch; parents = t.parents; ticket = t.ticket }

-- MinerCreateBlock, and SignatureData of the header of a block. A block that is created has the
-- miner, the height, the parents and the ticket of its template.
pub record BlockApi : Type 0 where
  pub miner_create_block : BlockTemplate → Result MineError BlockMsg
  pub signature_data : BlockMsg → Result MineError Bytes
  pub created_header :
      (t : BlockTemplate) (bm : BlockMsg) → miner_create_block t ≡ ok bm → bm.header ≡ header_of t

-- address.Undef
abbrev pub undef : Address
undef = 0

abbrev or_undef : Option Address → Address
or_undef none = undef
or_undef (some a) = a

abbrev or_empty : {A : Type 0} → Option (List A) → List A
or_empty none = []
or_empty (some l) = l

-- base.TipSet.MinTimestamp() + BlockDelaySecs*(uint64(base.NullRounds)+1)
abbrev uint64_of : ℤ → ℕ
uint64_of (pos n) = n % 18446744073709551616
uint64_of (negsuc n) = 18446744073709551615 - n % 18446744073709551616

unfoldable pub block_time : ℕ → MiningBase → ℕ
block_time block_delay base =
    (base.tipset.min_timestamp + block_delay * (uint64_of base.null_rounds + 1))
    % 18446744073709551616

module _ (w : Wallet) (api : BlockApi) (block_delay : ℕ) (disable_fork_signaling : Bool) where
  unfoldable pub template_of : MiningBase → WinPoStRes → List Bytes → BlockTemplate
  template_of base res msgs = record {
    miner = res.addr;
    parents = base.tipset.key;
    ticket = res.ticket;
    eproof = res.winner;
    beacon_values = res.bvals;
    messages = msgs;
    epoch = next_height base;
    timestamp = block_time block_delay base;
    winning_post_proof = or_empty res.post_proof;
  }

  unfoldable pub signal_fork : BlockMsg → BlockMsg
  signal_fork bm =
      if not disable_fork_signaling && bm.fork_signaling == 0
      then record bm { fork_signaling = 1 }
      else bm

  -- A block that has no signature yet; `account` is that of the miner, `none` once it was removed.
  unfoldable pub sign_block : Option String → WinPoStRes → BlockMsg → Result MineError BlockMsg
  unfolding signal_fork
  sign_block none res bm = err (miner_not_exist res.addr)
  sign_block (some account) res bm = do
    let bm' = signal_fork bm
    nosig ← api.signature_data bm'
    sig ← w.sign (or_undef res.waddr) (account ∷ []) nosig block_header
    ok (record bm' { block_sig = some sig })

  unfoldable pub check_signed : Option String → WinPoStRes → BlockMsg → Result MineError BlockMsg
  unfolding sign_block
  check_signed account res bm = if is_some bm.block_sig then ok bm else sign_block account res bm

  unfoldable pub create_block :
      MiningBase → Option String → WinPoStRes → List Bytes → Result MineError BlockMsg
  unfolding check_signed
  create_block base account res msgs = do
    bm ← api.miner_create_block (template_of base res msgs)
    check_signed account res bm

  -- A block that was made is kept, an error is logged.
  unfoldable pub keep_block : Result MineError BlockMsg → List BlockMsg → List BlockMsg
  keep_block (ok bm) blks = bm ∷ blks
  keep_block (err e) blks = blks

  -- The loop over the winners: `msgs` are the messages that were selected for the winner at its
  -- place in the list, none where the selection failed or is too short.
  unfoldable pub create_blocks :
      MiningBase → (Address → Option String) → List WinPoStRes → List (List Bytes) → List BlockMsg
  unfolding keep_block
  create_blocks base accounts [] msgs = []
  create_blocks base accounts (res ∷ winners) [] =
      keep_block (create_block base (accounts res.addr) res [])
        (create_blocks base accounts winners [])
  create_blocks base accounts (res ∷ winners) (own ∷ msgs) =
      keep_block (create_block base (accounts res.addr) res own)
        (create_blocks base accounts winners msgs)

-- MpoolSelects: an error is logged, and the blocks go without messages.
abbrev pub selected : Result MineError (List (List Bytes)) → List (List Bytes)
selected (ok msgs) = msgs
selected (err e) = []
