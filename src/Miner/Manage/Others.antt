-- ===== src/Miner/Manage/Others.antt =====
-- miner/miningmgr.go: starting and stopping miners leaves alone every miner that is not named.
use sophon_miner.Miner.Manage.{
  Manager, MinerWpp, manual_start, manual_stop, new_wpp, start_opened, stop_closed,
}
use sophon_miner.Miner.Manage.Laws.{
  Consistent, start-Consistent, start_opened-miners, stop_closed-miners,
}
use sophon_miner.MinerManager.{AuthClient, ManagerError, Miners, close_mining, open_mining}
use sophon_miner.MinerManager.Laws.{IsKeyed, open_mining-addr}
use sophon_miner.MinerManager.Others.{close_mining-other, open_mining-other}
use sophon_miner.Prelude.{
  All, Bool, List, Result, [], arith, err, false, list_eq, nat_eq, ok, refl, string_eq, ◌==◌, ◌∙◌,
  ◌∷◌, ◌≡◌,
}
use sophon_miner.Prelude.Int.{int_eq}
use sophon_miner.Prelude.Maps.{lookup, lookup-delete, lookup-insert}
use sophon_miner.Types.{Address, MinerInfo, state_eq}

-- Neither the manager's entry of the miner nor its place in the set has changed.
pub record Untouched (a : Address) (m m' : Manager) : Type 0 where
  pub entry : lookup a m'.miners ≡ lookup a m.miners
  pub place : lookup a m'.wpps ≡ lookup a m.wpps

Untouched-trans :
    {a : Address} {m n k : Manager} → Untouched a m n → Untouched a n k → Untouched a m k
Untouched-trans u v = record { entry = v.entry ∙ u.entry; place = v.place ∙ u.place }

abbrev pub AreOthers : Address → List Address → Type 0
AreOthers a addrs = All (λ b. (b == a) ≡ false) addrs

module _ (auth : AuthClient) (new_prover : Address → Bool) (a : Address) where
  started-place :
      (wpps : List (Address × MinerWpp)) (b : Address) (r : Result ManagerError MinerInfo)
      (miners : Miners)
      → ((info : MinerInfo) → r ≡ ok info → info.addr ≡ b)
      → (b == a) ≡ false
      → lookup a (start_opened new_prover wpps (r, miners)).wpps ≡ lookup a wpps
  unfolding start_opened
  started-place wpps b (ok info) miners own other =
      let same : info.addr ≡ b = own info refl in
      let away : (info.addr == a) ≡ false = rw same other in
      ground (arith, lookup-insert info.addr a (new_wpp info) wpps)
  started-place wpps b (err e) miners own other = refl

  stopped-place :
      (wpps : List (Address × MinerWpp)) (b : Address) (r : Result ManagerError (Unit {0}))
      (miners : Miners)
      → (b == a) ≡ false
      → lookup a (stop_closed b wpps (r, miners)).wpps ≡ lookup a wpps
  unfolding stop_closed
  stopped-place wpps b (ok u) miners other = ground (arith, lookup-delete b a wpps)
  stopped-place wpps b (err e) miners other = refl

  start_one-Untouched :
      (m : Manager) (b : Address)
      → IsKeyed m.miners
      → (b == a) ≡ false
      → Untouched a m (start_opened new_prover m.wpps (open_mining auth m.miners b))
  start_one-Untouched m b keyed other =
      let (r, ms) = open_mining auth m.miners b in
      record {
        entry =
            rw (start_opened-miners auth new_prover m.wpps r ms)
              (open_mining-other auth m.miners b a other);
        place =
            started-place m.wpps b r ms (λ info q. open_mining-addr auth m.miners keyed b info q)
              other;
      }

  stop_one-Untouched :
      (m : Manager) (b : Address)
      → (b == a) ≡ false
      → Untouched a m (stop_closed b m.wpps (close_mining auth m.miners b))
  stop_one-Untouched m b other =
      let (r, ms) = close_mining auth m.miners b in
      record {
        entry =
            rw (stop_closed-miners auth new_prover b m.wpps r ms)
              (close_mining-other auth m.miners b a other);
        place = stopped-place m.wpps b r ms other;
      }

  pub manual_start-Untouched :
      (addrs : List Address) (m : Manager)
      → Consistent m
      → AreOthers a addrs
      → Untouched a m (manual_start auth new_prover addrs m)
  unfolding manual_start
  manual_start-Untouched [] m c others = record { entry = refl; place = refl }
  manual_start-Untouched (b ∷ addrs) m c others =
      Untouched-trans (start_one-Untouched m b c.keyed others.0)
        (manual_start-Untouched addrs _ (start-Consistent auth new_prover m b c) others.1)

  pub manual_stop-Untouched :
      (addrs : List Address) (m : Manager)
      → AreOthers a addrs
      → Untouched a m (manual_stop auth new_prover addrs m)
  unfolding manual_stop
  manual_stop-Untouched [] m others = record { entry = refl; place = refl }
  manual_stop-Untouched (b ∷ addrs) m others =
      Untouched-trans (stop_one-Untouched m b others.0) (manual_stop-Untouched addrs _ others.1)
