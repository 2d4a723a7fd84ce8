-- ===== src/Miner/Winners/Asked.antt =====
-- miner/miningmgr.go, `CountWinners`: the miners in the answer are those that were asked for.
use sophon_miner.Datastore.Memory.{found}
use sophon_miner.Miner.{TipSet}
use sophon_miner.Miner.Manage.{MinerWpp}
use sophon_miner.Miner.Winner.{MineError, Wallet}
use sophon_miner.Miner.Winners.{
  ChainApi, CountError, count_all, count_found, count_miner, count_on_head, count_winners,
  epochs_of, select_wpps, wpps_for,
}
use sophon_miner.Prelude.{
  All, All-append, Bool-cases, List, Option-cases, Result, String, [], ap, arith, err, inl, inr,
  list_eq, map, nat_eq, ok, refl, string_eq, ◌==◌, ◌∷◌, ◌≡◌,
}
use sophon_miner.Prelude.Int.{int_eq}
use sophon_miner.Prelude.Maps.{insert, lookup}
use sophon_miner.Types.{Address, ChainEpoch, CountWinners, state_eq}

abbrev AllKeys : (Address → Type 0) → List (Address × MinerWpp) → Type 0
AllKeys P wpps = All (λ (e : Address × MinerWpp). P e.0) wpps

abbrev pub AllMiners : (Address → Type 0) → List CountWinners → Type 0
AllMiners P ws = All (λ (c : CountWinners). P c.miner) ws

insert-AllKeys :
    (P : Address → Type 0) (a : Address) (wpp : MinerWpp) (wpps : List (Address × MinerWpp))
    → P a
    → AllKeys P wpps
    → AllKeys P (insert a wpp wpps)
unfolding insert
insert-AllKeys P a wpp [] p h = (p, tt)
insert-AllKeys P a wpp ((b, old) ∷ rest) p h = elim (Bool-cases (b == a)) [
  | inl same ↦ rw same (p, h.1)
  | inr other ↦ rw other (h.0, insert-AllKeys P a wpp rest p h.1)
]

module _ (w : Wallet) (api : ChainApi) (P : Address → Type 0) where
  abbrev AreAsked : List CountWinners × List (Address × MinerWpp) → Type 0
  AreAsked (missing, found) = AllMiners P missing × AllKeys P found

  select_wpps-AreAsked :
      (wpps : List (Address × MinerWpp)) (addrs : List Address) (found : List (Address × MinerWpp))
      → All P addrs
      → AllKeys P found
      → AreAsked (select_wpps w api wpps addrs found)
  unfolding select_wpps
  select_wpps-AreAsked wpps [] found h keys = (tt, keys)
  select_wpps-AreAsked wpps (a ∷ addrs) found h keys = elim (Option-cases (lookup a wpps)) [
    | inl absent ↦
        let (missing, all) = select_wpps-AreAsked wpps addrs found h.1 keys in
        rw (absent, select_wpps) ((h.0, missing), all)
    | inr (wpp, there) ↦
        rw (there, select_wpps)
          (select_wpps-AreAsked wpps addrs (insert a wpp found) h.1
            (insert-AllKeys P a wpp found h.0 keys))
  ]

  count_all-AllMiners :
      (print : CountError → String) (found : List (Address × MinerWpp))
      (order : Address → List ChainEpoch → List ChainEpoch) (epochs : List ChainEpoch)
      → AllKeys P found
      → AllMiners P (count_all w api print found order epochs)
  unfolding count_all count_miner
  count_all-AllMiners print [] order epochs h = tt
  count_all-AllMiners print ((a, wpp) ∷ rest) order epochs h =
      (h.0, count_all-AllMiners print rest order epochs h.1)

  count_found-AllMiners :
      (print : CountError → String) (order : Address → List ChainEpoch → List ChainEpoch)
      (epochs : List ChainEpoch) (asked : List CountWinners × List (Address × MinerWpp))
      → AreAsked asked
      → AllMiners P (count_found w api print order epochs asked)
  unfolding count_found
  count_found-AllMiners print order epochs (missing, found) h =
      All-append (λ (c : CountWinners). P c.miner) missing _ h.0
        (count_all-AllMiners print found order epochs h.1)

  on_head-AllMiners :
      (print : CountError → String) (order : Address → List ChainEpoch → List ChainEpoch)
      (wpps : List (Address × MinerWpp)) (a : Address) (addrs : List Address) (from to : ChainEpoch)
      (head : Result MineError TipSet) (out : List CountWinners)
      → All P (a ∷ addrs)
      → count_on_head w api print order wpps (a ∷ addrs) from to head ≡ ok out
      → AllMiners P out
  unfolding count_on_head wpps_for
  on_head-AllMiners print order wpps a addrs from to (err e) out h q = cc
  on_head-AllMiners print order wpps a addrs from to (ok ts) out h q =
      let asked = select_wpps w api wpps (a ∷ addrs) [] in
      let counted = count_found w api print order (epochs_of from to) asked in
      let p : counted ≡ out = ground arith in
      rw (← p) (
        count_found-AllMiners print order (epochs_of from to) asked
          (select_wpps-AreAsked wpps (a ∷ addrs) [] h tt))

  -- `CountWinners` of some miners answers about no other one.
  pub count_winners-AllMiners :
      (print : CountError → String) (order : Address → List ChainEpoch → List ChainEpoch)
      (wpps : List (Address × MinerWpp)) (a : Address) (addrs : List Address) (from to : ChainEpoch)
      (out : List CountWinners)
      → All P (a ∷ addrs)
      → count_winners w api print order wpps (a ∷ addrs) from to ≡ ok out
      → AllMiners P out
  unfolding count_winners
  count_winners-AllMiners print order wpps a addrs from to out h q =
      on_head-AllMiners print order wpps a addrs from to api.chain_head out h q

module _ (w : Wallet) (api : ChainApi) where
  count_all-miners :
      (print : CountError → String) (wpps : List (Address × MinerWpp))
      (order : Address → List ChainEpoch → List ChainEpoch) (epochs : List ChainEpoch)
      → map (λ (c : CountWinners). c.miner) (count_all w api print wpps order epochs)
        ≡ map (λ (e : Address × MinerWpp). e.0) wpps
  unfolding count_all count_miner
  count_all-miners print [] order epochs = refl
  count_all-miners print ((a, wpp) ∷ rest) order epochs =
      ap (λ l. a ∷ l) (count_all-miners print rest order epochs)

  on_head-miners :
      (print : CountError → String) (order : Address → List ChainEpoch → List ChainEpoch)
      (wpps : List (Address × MinerWpp)) (from to : ChainEpoch) (head : Result MineError TipSet)
      (out : List CountWinners)
      → count_on_head w api print order wpps [] from to head ≡ ok out
      → map (λ (c : CountWinners). c.miner) out ≡ map (λ (e : Address × MinerWpp). e.0) wpps
  unfolding count_on_head wpps_for count_found
  on_head-miners print order wpps from to (err e) out h = cc
  on_head-miners print order wpps from to (ok ts) out h =
      let same : count_all w api print wpps order (epochs_of from to) ≡ out = ground arith in
      rw (← same) (count_all-miners print wpps order (epochs_of from to))

  -- `CountWinners` of no miner counts for every miner of the set, once each.
  pub count_winners-miners :
      (print : CountError → String) (order : Address → List ChainEpoch → List ChainEpoch)
      (wpps : List (Address × MinerWpp)) (from to : ChainEpoch) (out : List CountWinners)
      → count_winners w api print order wpps [] from to ≡ ok out
      → map (λ (c : CountWinners). c.miner) out ≡ map (λ (e : Address × MinerWpp). e.0) wpps
  unfolding count_winners
  count_winners-miners print order wpps from to out h =
      on_head-miners print order wpps from to api.chain_head out h
