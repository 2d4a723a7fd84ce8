-- ===== src/Miner/Winners.antt =====
-- miner/miningmgr.go, `winCountInRound` and `CountWinners`: the rounds that the miners of the set
-- won in a range of epochs. The goroutines of the epochs end in some order, which is a list.
-- The message that is given for an error is left out.
pub mod Asked
pub mod Laws
use sophon_miner.Miner.{TipSet}
use sophon_miner.Miner.Manage.{MinerWpp}
use sophon_miner.Miner.MineOne.{rbase_of}
use sophon_miner.Miner.Winner.{
  ElectionProof, MineError, MiningBaseInfo, Wallet, is_round_winner, sign_failed,
}
use sophon_miner.Prelude.{
  Bool, List, Option, Result, String, [], err, false, if◌then◌else◌, nat_eq, none, ok, some, suc,
  true, zero, ℕ, ◌++◌, ◌>>=◌, ◌>>◌, ◌||◌, ◌∷◌,
}
use sophon_miner.Prelude.Int.{int64, ltb_ℤ, pos, pos_part, ℤ, ◌+ℤ◌, ◌-ℤ◌}
use sophon_miner.Prelude.Maps.{insert, lookup}
use sophon_miner.Types.{Address, ChainEpoch, Cid, CountWinners, SimpleWinInfo}

-- What the count asks of the node.
pub record ChainApi : Type 0 where
  pub chain_head : Result MineError TipSet
  pub chain_get_tipset_by_height : ChainEpoch → Result MineError TipSet
  pub miner_get_base_info :
      Address → ChainEpoch → List Cid → Result MineError (Option MiningBaseInfo)

pub data CountError : Type 0 where
  -- An error of the node, wrapped with CallNodeRPCError.
  call_failed : MineError → CountError
  no_base_info : Address → CountError
  no_power : Address → CountError
  not_elected : MineError → CountError

abbrev pub wrap_call : {A : Type 0} → Result MineError A → Result CountError A
wrap_call (ok a) = ok a
wrap_call (err e) = err (call_failed e)

abbrev pub wrap_election : {A : Type 0} → Result MineError A → Result CountError A
wrap_election (ok a) = ok a
wrap_election (err e) = err (not_elected e)

-- errors.Is of ConnectGatewayError, WalletSignError and CallNodeRPCError; the signer wraps each of
-- its errors with one of them.
abbrev is_call : MineError → Bool
is_call (sign_failed n) = true
is_call _ = false

unfoldable pub is_reported : CountError → Bool
is_reported (call_failed e) = true
is_reported (not_elected e) = is_call e
is_reported _ = false

-- ts.Height() + nullRounds + 1
unfoldable pub round_of : TipSet → ChainEpoch → ChainEpoch
round_of ts epoch = int64 (
    int64 (ts.height +ℤ (if ltb_ℤ ts.height epoch then int64 (epoch -ℤ ts.height) else pos 0))
    +ℤ pos 1)

-- `for epoch := start; epoch <= end; epoch++`
epochs_from : ℕ → ChainEpoch → List ChainEpoch
epochs_from zero epoch = []
epochs_from (suc n) epoch = epoch ∷ epochs_from n (int64 (epoch +ℤ pos 1))

unfoldable pub epochs_of : ChainEpoch → ChainEpoch → List ChainEpoch
unfolding epochs_from
epochs_of start_epoch end_epoch =
    epochs_from (pos_part (end_epoch -ℤ start_epoch +ℤ pos 1)) start_epoch

pub data WinnersError : Type 0 where
  no_head : MineError → WinnersError
  above_head : ChainEpoch → WinnersError

module _ (w : Wallet) (api : ChainApi) where
  check_info :
      String
      → Address
      → ChainEpoch
      → Option MiningBaseInfo
      → Result CountError (Option ElectionProof)
  check_info account addr round none = err (no_base_info addr)
  check_info account addr round (some mbi) =
      if mbi.eligible_for_mining
      then wrap_election (is_round_winner w round account addr (rbase_of mbi) mbi)
      else err (no_power addr)

  unfoldable pub win_count_in_round :
      String → Address → ChainEpoch → Result CountError (Option ElectionProof)
  unfolding check_info
  win_count_in_round account addr epoch = do
    ts ← wrap_call (api.chain_get_tipset_by_height epoch)
    let round = round_of ts epoch
    mbi ← wrap_call (api.miner_get_base_info addr round ts.key)
    check_info account addr round mbi

  -- `totalWinCount` and `winInfo` of a miner.
  pub record Tally : Type 0 where
    pub total_win_count : ℤ
    pub win_info : List SimpleWinInfo

  -- What the goroutine of one epoch does.
  count_result :
      (CountError → String) → ChainEpoch → Result CountError (Option ElectionProof) → Tally → Tally
  count_result print epoch (err e) t =
      if is_reported e
      then record t {
        win_info =
            t.win_info
            ++ record { epoch = int64 (epoch +ℤ pos 1); win_count = pos 0; msg = print e } ∷ [];
      }
      else t
  count_result print epoch (ok none) t = t
  count_result print epoch (ok (some winner)) t = record {
    total_win_count = int64 (t.total_win_count +ℤ winner.win_count);
    win_info =
        t.win_info
        ++ record { epoch = int64 (epoch +ℤ pos 1); win_count = winner.win_count; msg = "" } ∷ [];
  }

  count_epochs : (CountError → String) → String → Address → List ChainEpoch → Tally → Tally
  unfolding count_result
  count_epochs print account addr [] t = t
  count_epochs print account addr (epoch ∷ rest) t =
      count_epochs print account addr rest
        (count_result print epoch (win_count_in_round account addr epoch) t)

  -- One miner: its epochs in the order in which their goroutines end.
  unfoldable pub count_miner :
      (CountError → String) → String → Address → List ChainEpoch → CountWinners
  unfolding count_epochs
  count_miner print account addr order =
      let t =
        count_epochs print account addr order (record { total_win_count = pos 0; win_info = [] }) in
      record {
        miner = addr;
        total_win_count = t.total_win_count;
        msg = "";
        win_epoch_list = t.win_info;
      }

  -- The miners, in the order in which their goroutines end; `order` is that of the epochs of each.
  count_all :
      (CountError → String)
      → List (Address × MinerWpp)
      → (Address → List ChainEpoch → List ChainEpoch)
      → List ChainEpoch
      → List CountWinners
  count_all print [] order epochs = []
  count_all print ((addr, wpp) ∷ rest) order epochs =
      count_miner print wpp.account addr (order addr epochs) ∷ count_all print rest order epochs

  -- The addresses that are asked for: those in the set, and a message for each of the others.
  select_wpps :
      List (Address × MinerWpp)
      → List Address
      → List (Address × MinerWpp)
      → List CountWinners × List (Address × MinerWpp)
  select_wpps wpps [] found = ([], found)
  select_wpps wpps (addr ∷ addrs) found = elim (lookup addr wpps) [
    | none ↦
        let (missing, all) = select_wpps wpps addrs found in
        (
          record {
            miner = addr;
            total_win_count = pos 0;
            msg = "miner not exist";
            win_epoch_list = [];
          }
              ∷ missing,
          all,
        )
    | some wpp ↦ select_wpps wpps addrs (insert addr wpp found)
  ]

  wpps_for :
      List (Address × MinerWpp) → List Address → List CountWinners × List (Address × MinerWpp)
  unfolding select_wpps
  wpps_for wpps [] = ([], wpps)
  wpps_for wpps (a ∷ addrs) = select_wpps wpps (a ∷ addrs) []

  count_found :
      (CountError → String)
      → (Address → List ChainEpoch → List ChainEpoch)
      → List ChainEpoch
      → List CountWinners × List (Address × MinerWpp)
      → List CountWinners
  unfolding count_all
  count_found print order epochs (missing, found) = missing ++ count_all print found order epochs

  count_on_head :
      (CountError → String)
      → (Address → List ChainEpoch → List ChainEpoch)
      → List (Address × MinerWpp)
      → List Address
      → ChainEpoch
      → ChainEpoch
      → Result MineError TipSet
      → Result WinnersError (List CountWinners)
  unfolding count_found wpps_for
  count_on_head print order wpps addrs start_epoch end_epoch (err e) = err (no_head e)
  count_on_head print order wpps addrs start_epoch end_epoch (ok ts) =
      if ltb_ℤ ts.height start_epoch || ltb_ℤ ts.height end_epoch
      then err (above_head ts.height)
      else ok (count_found print order (epochs_of start_epoch end_epoch) (wpps_for wpps addrs))

  -- `order` puts the epochs of a miner in the order in which their goroutines end.
  unfoldable pub count_winners :
      (CountError → String)
      → (Address → List ChainEpoch → List ChainEpoch)
      → List (Address × MinerWpp)
      → List Address
      → ChainEpoch
      → ChainEpoch
      → Result WinnersError (List CountWinners)
  unfolding count_on_head
  count_winners print order wpps addrs start_epoch end_epoch =
      count_on_head print order wpps addrs start_epoch end_epoch api.chain_head
