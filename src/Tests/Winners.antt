-- ===== src/Tests/Winners.antt =====
-- The count of the rounds that a miner won in two epochs.
use mathlib.Core.List.{Permᴰ}
use sophon_miner.Miner.{TipSet}
use sophon_miner.Miner.Winner.{compute_vrf, is_round_winner}
use sophon_miner.Miner.Winners.{ChainApi, CountError, count_miner, round_of, win_count_in_round}
use sophon_miner.Miner.Winners.Laws.{count_miner-perm}
use sophon_miner.Prelude.{String, [], arith, ok, refl, some, ◌∷◌, ◌≡◌}
use sophon_miner.Prelude.Int.{int64, pos, ◌+ℤ◌, ◌-ℤ◌, ◌≤ℤ◌}
use sophon_miner.Tests.Attempts.{base_4, info, proof, wallet}

abbrev pub chain : ChainApi
chain = record {
  chain_head = ok base_4.tipset;
  chain_get_tipset_by_height = λ h. ok (record base_4.tipset { height = pos 3 });
  miner_get_base_info = λ a h key. ok (some info);
}

won_4 : win_count_in_round wallet chain "account" 1000 (pos 4) ≡ ok (some proof)
unfolding win_count_in_round round_of is_round_winner compute_vrf
won_4 = refl

below_4 :
    (ts : TipSet)
    → chain.chain_get_tipset_by_height (pos 4) ≡ ok ts
    → (pos 0 ≤ℤ ts.height) × (ts.height ≤ℤ pos 4)
below_4 ts h = ground arith

abbrev pub print : CountError → String
print e = "failed"

count_miner-perm_example :
    ((count_miner wallet chain print "account" 1000 (pos 3 ∷ pos 4 ∷ [])).total_win_count
      ≡ (count_miner wallet chain print "account" 1000 (pos 4 ∷ pos 3 ∷ [])).total_win_count)
    × Permᴰ
        (count_miner wallet chain print "account" 1000 (pos 3 ∷ pos 4 ∷ [])).win_epoch_list
        (count_miner wallet chain print "account" 1000 (pos 4 ∷ pos 3 ∷ [])).win_epoch_list
count_miner-perm_example =
    count_miner-perm wallet chain print "account" 1000 (pos 3 ∷ pos 4 ∷ []) (pos 4 ∷ pos 3 ∷ [])
      (Permᴰ.swap refl refl)

-- Both epochs are won, twice each.
four_wins :
    (count_miner wallet chain print "account" 1000 (pos 3 ∷ pos 4 ∷ [])).total_win_count ≡ pos 4
unfolding count_miner win_count_in_round round_of is_round_winner compute_vrf int64 ◌+ℤ◌ ◌-ℤ◌
four_wins = refl
