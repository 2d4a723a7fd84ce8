-- ===== src/Miner/Winners/Laws.antt =====
-- miner/miningmgr.go, `CountWinners`: the count does not depend on the order in which the goroutines
-- end, and a listed win is the election of the round that it is listed at.
use mathlib.Core.List.Permᴰ
use mathlib.Core.List.{Permᴰ, append_assoc, append-nil}
use sophon_miner.Miner.{TipSet}
use sophon_miner.Miner.MineOne.{rbase_of}
use sophon_miner.Miner.Winner.{ElectionProof, MineError, MiningBaseInfo, Wallet, is_round_winner}
use sophon_miner.Miner.Winner.Laws.{is_round_winner-some}
use sophon_miner.Miner.Winners.{
  ChainApi, CountError, Tally, check_info, count_epochs, count_miner, count_result, is_reported,
  round_of, win_count_in_round, wrap_call, wrap_election,
}
use sophon_miner.Prelude.{
  >>=-eq-ok, Bool, Bool-cases, List, Option, Result, String, [], ap, arith, err, if◌then◌else◌, inl,
  inr, none, ok, refl, some, sym, true, ◌++◌, ◌∙◌, ◌∷◌, ◌≡◌,
}
use sophon_miner.Prelude.Int.{
  FitsInt64, int64, int64-of_fits, ltb_ℤ, negsuc, pos, ℤ, ◌+ℤ◌, ◌-ℤ◌, ◌≤ℤ◌,
}
use sophon_miner.Prelude.Sums.{sum_from, sum_from-perm}
use sophon_miner.Types.{Address, ChainEpoch, SimpleWinInfo}

keep_some : {A : Type 0} → Option A → List A → List A
keep_some none l = l
keep_some (some a) l = a ∷ l

pick : {A B : Type 0} → (A → Option B) → List A → List B
unfolding keep_some
pick f [] = []
pick f (x ∷ xs) = keep_some (f x) (pick f xs)

pick-perm :
    {A B : Type 0} (f : A → Option B) {xs ys : List A} → Permᴰ xs ys → Permᴰ (pick f xs) (pick f ys)
unfolding pick
pick-perm f Permᴰ.nil = Permᴰ.nil
pick-perm f (Permᴰ.cons {a = a} e p) = rw (← e) (keep (f a) (pick-perm f p))
  where
    keep :
        {B : Type 0} (o : Option B) {l m : List B}
        → Permᴰ l m
        → Permᴰ (keep_some o l) (keep_some o m)
    keep none p = p
    keep (some b) p = Permᴰ.cons refl p
pick-perm f (Permᴰ.swap {a = a} {b = b} {l = l} e d) =
    rw (← e, ← d) (swapped (f a) (f b) (pick f l))
  where
    swapped :
        {B : Type 0} (o q : Option B) (l : List B)
        → Permᴰ (keep_some o (keep_some q l)) (keep_some q (keep_some o l))
    swapped none none l = Permᴰ.refl l
    swapped none (some b) l = Permᴰ.refl (b ∷ l)
    swapped (some a) none l = Permᴰ.refl (a ∷ l)
    swapped (some a) (some b) l = Permᴰ.swap refl refl
pick-perm f (Permᴰ.trans p q) = Permᴰ.trans (pick-perm f p) (pick-perm f q)

then_branch : {A : Type 0} (b : Bool) (x y : A) → b ≡ true → (if b then x else y) ≡ x
then_branch b x y h = rw h refl

wrap_call-ok : {A : Type 0} (r : Result MineError A) (a : A) → wrap_call r ≡ ok a → r ≡ ok a
wrap_call-ok (ok b) a h = ap ok (ground arith)
wrap_call-ok (err e) a h = cc

wrap_election-ok : {A : Type 0} (r : Result MineError A) (a : A) → wrap_election r ≡ ok a → r ≡ ok a
wrap_election-ok (ok b) a h = ap ok (ground arith)
wrap_election-ok (err e) a h = cc

null_rounds_to :
    (h e : ℤ)
    → pos 0 ≤ℤ h
    → h ≤ℤ e
    → FitsInt64 (e +ℤ pos 1)
    → int64 (h +ℤ (if ltb_ℤ h e then int64 (e -ℤ h) else pos 0)) ≡ e
unfolding int64 ◌+ℤ◌ ◌-ℤ◌
null_rounds_to (pos h) (pos e) low high fits = ground arith
null_rounds_to (pos h) (negsuc e) low high fits = ground arith
null_rounds_to (negsuc h) e low high fits = ground arith

-- The round after an epoch, where the tipset is not above the epoch.
round_of_next :
    (ts : TipSet) (epoch : ChainEpoch)
    → pos 0 ≤ℤ ts.height
    → ts.height ≤ℤ epoch
    → FitsInt64 (epoch +ℤ pos 1)
    → round_of ts epoch ≡ epoch +ℤ pos 1
unfolding round_of
round_of_next ts epoch low high fits =
    rw (null_rounds_to ts.height epoch low high fits) (int64-of_fits _ fits)

module _ (w : Wallet) (api : ChainApi) where
  check_info-some :
      (account : String) (addr : Address) (round : ChainEpoch) (q : Option MiningBaseInfo)
      (ep : ElectionProof)
      → check_info w api account addr round q ≡ ok (some ep)
      → (mbi : MiningBaseInfo) × (q ≡ some mbi)
        × (mbi.eligible_for_mining ≡ true)
        × (is_round_winner w round account addr (rbase_of mbi) mbi ≡ ok (some ep))
  unfolding check_info
  check_info-some account addr round none ep h = cc
  check_info-some account addr round (some mbi) ep h = elim (Bool-cases mbi.eligible_for_mining) [
    | inl power ↦ (
      mbi,
      refl,
      power,
      wrap_election-ok _ (some ep) (sym (then_branch mbi.eligible_for_mining _ _ power) ∙ h),
    )
    | inr weak ↦ ground arith
  ]

  -- A win that is counted is the election of the round after the epoch: the base info is that of this
  -- round on the tipset of the epoch, the miner is eligible, and the win count is at least one.
  pub win_count_in_round-round :
      (account : String) (addr : Address) (epoch : ChainEpoch) (ep : ElectionProof)
      → ((ts : TipSet)
          → api.chain_get_tipset_by_height epoch ≡ ok ts
          → (pos 0 ≤ℤ ts.height) × (ts.height ≤ℤ epoch))
      → FitsInt64 (epoch +ℤ pos 1)
      → win_count_in_round w api account addr epoch ≡ ok (some ep)
      → (ts : TipSet) × (mbi : MiningBaseInfo) × (api.miner_get_base_info addr
            (epoch +ℤ pos 1)
            ts.key
          ≡ ok (some mbi))
        × (mbi.eligible_for_mining ≡ true)
        × (is_round_winner w (epoch +ℤ pos 1) account addr (rbase_of mbi) mbi ≡ ok (some ep))
        × (pos 1 ≤ℤ ep.win_count)
  unfolding win_count_in_round
  win_count_in_round-round account addr epoch ep not_above fits h =
      let (ts, found, h1) = >>=-eq-ok (wrap_call (api.chain_get_tipset_by_height epoch)) _ h in
      let (q, asked, h2) =
        >>=-eq-ok (wrap_call (api.miner_get_base_info addr (round_of ts epoch) ts.key)) _ h1 in
      let (low, high) = not_above ts (wrap_call-ok _ ts found) in
      let round = round_of_next ts epoch low high fits in
      let (mbi, is_mbi, power, won) = check_info-some account addr (round_of ts epoch) q ep h2 in
      (
        ts,
        mbi,
        rw (← round, ← is_mbi) (wrap_call-ok _ q asked),
        power,
        rw (← round) won,
        (is_round_winner-some w (round_of ts epoch) account addr (rbase_of mbi) mbi ep won).0,
      )

  module _ (print : CountError → String) (account : String) (addr : Address) where
    -- What is listed for an epoch.
    info_of_result : ChainEpoch → Result CountError (Option ElectionProof) → Option SimpleWinInfo
    info_of_result epoch (err e) =
        if is_reported e
        then some (record { epoch = int64 (epoch +ℤ pos 1); win_count = pos 0; msg = print e })
        else none
    info_of_result epoch (ok none) = none
    info_of_result epoch (ok (some winner)) =
        some (record { epoch = int64 (epoch +ℤ pos 1); win_count = winner.win_count; msg = "" })

    wins_of_result : Result CountError (Option ElectionProof) → Option ℤ
    wins_of_result (err e) = none
    wins_of_result (ok none) = none
    wins_of_result (ok (some winner)) = some winner.win_count

    info_at : ChainEpoch → Option SimpleWinInfo
    unfolding info_of_result
    info_at epoch = info_of_result epoch (win_count_in_round w api account addr epoch)

    wins_at : ChainEpoch → Option ℤ
    unfolding wins_of_result
    wins_at epoch = wins_of_result (win_count_in_round w api account addr epoch)

    total_step :
        (e : ChainEpoch) (r : Result CountError (Option ElectionProof)) (t : Tally w api)
        (l : List ℤ)
        → sum_from (count_result w api print e r t).total_win_count l
          ≡ sum_from t.total_win_count (keep_some (wins_of_result r) l)
    unfolding count_result keep_some sum_from wins_of_result
    total_step e (err x) t l = elim (Bool-cases (is_reported x)) [
      | inl told ↦ rw told refl
      | inr untold ↦ rw untold refl
    ]
    total_step e (ok none) t l = refl
    total_step e (ok (some winner)) t l = refl

    list_step :
        (e : ChainEpoch) (r : Result CountError (Option ElectionProof)) (t : Tally w api)
        (l : List SimpleWinInfo)
        → (count_result w api print e r t).win_info ++ l
          ≡ t.win_info ++ keep_some (info_of_result e r) l
    unfolding count_result keep_some info_of_result
    list_step e (err x) t l = elim (Bool-cases (is_reported x)) [
      | inl told ↦ rw told (
          append_assoc t.win_info
            (record { epoch = int64 (e +ℤ pos 1); win_count = pos 0; msg = print x } ∷ []) l)
      | inr untold ↦ rw untold refl
    ]
    list_step e (ok none) t l = refl
    list_step e (ok (some winner)) t l =
        append_assoc t.win_info
          (record { epoch = int64 (e +ℤ pos 1); win_count = winner.win_count; msg = "" } ∷ []) l

    count_epochs-total :
        (order : List ChainEpoch) (t : Tally w api)
        → (count_epochs w api print account addr order t).total_win_count
          ≡ sum_from t.total_win_count (pick wins_at order)
    unfolding count_epochs pick wins_at sum_from
    count_epochs-total [] t = refl
    count_epochs-total (e ∷ order) t =
        count_epochs-total order _ ∙ total_step e (win_count_in_round w api account addr e) t _

    count_epochs-list :
        (order : List ChainEpoch) (t : Tally w api)
        → (count_epochs w api print account addr order t).win_info
          ≡ t.win_info ++ pick info_at order
    unfolding count_epochs pick info_at
    count_epochs-list [] t = sym (append-nil t.win_info)
    count_epochs-list (e ∷ order) t =
        count_epochs-list order _ ∙ list_step e (win_count_in_round w api account addr e) t _

    -- The count of a miner does not depend on the order in which the goroutines of the epochs end:
    -- the total is the same, and the list has the same entries.
    pub count_miner-perm :
        (order other : List ChainEpoch)
        → Permᴰ order other
        → ((count_miner w api print account addr order).total_win_count
            ≡ (count_miner w api print account addr other).total_win_count)
          × Permᴰ
              (count_miner w api print account addr order).win_epoch_list
              (count_miner w api print account addr other).win_epoch_list
    unfolding count_miner
    count_miner-perm order other p =
        let start : Tally w api = record { total_win_count = pos 0; win_info = [] } in
        (
          count_epochs-total order start
              ∙ sum_from-perm (pick-perm wins_at p) (pos 0)
              ∙ sym (count_epochs-total other start),
          rw (count_epochs-list order start, count_epochs-list other start) (pick-perm info_at p),
        )
