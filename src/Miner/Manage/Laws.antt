-- ===== src/Miner/Manage/Laws.antt =====
-- miner/miningmgr.go: the set of miners that mine, and the miners that are open in the manager.
use sophon_miner.Miner.Manage.{
  Manager, MinerWpp, add_provers, manual_start, manual_stop, new_wpp, replace_wpps, start_opened,
  stop_closed, update_address,
}
use sophon_miner.MinerManager.{
  AuthClient, ManagerError, Miners, close_mining, is_open_mining, open_mining, update,
}
use sophon_miner.MinerManager.Laws.{
  IsKeyed, close_mining-IsKeyed, close_mining_lem, open_mining-IsKeyed, open_mining-addr,
  open_mining_lem, set_mining_failed, update-IsKeyed, update_failed,
}
use sophon_miner.Prelude.{
  Bool, List, Result, Result-cases, [], arith, err, if◌then◌else◌, inl, inr, is_some, nat_beq_iff,
  nat_eq, none, ok, refl, some, true, ◌&&◌, ◌==◌, ◌∷◌, ◌≡◌,
}
use sophon_miner.Prelude.Int.{ℤ}
use sophon_miner.Prelude.Maps.{insert, lookup, lookup-delete, lookup-insert}
use sophon_miner.Types.{Address, MinerInfo}

pub record Consistent (m : Manager) : Type 0 where
  pub keyed : IsKeyed m.miners
  pub mines_open :
      (a : Address) → is_some (lookup a m.wpps) ≡ true → is_open_mining m.miners a ≡ true

module _ (auth : AuthClient) (new_prover : Address → Bool) where
  started-open :
      (wpps : List (Address × MinerWpp)) (miners : Miners) (info : MinerInfo) (a b : Address)
      (r : Result ManagerError MinerInfo) (miners' : Miners)
      → r ≡ ok info
      → info.addr ≡ a
      → is_open_mining miners' a ≡ true
      → lookup b miners' ≡ (if a == b then some info else lookup b miners)
      → (is_some (lookup b wpps) ≡ true → is_open_mining miners b ≡ true)
      → is_some (lookup b (start_opened new_prover wpps (r, miners')).wpps) ≡ true
      → is_open_mining miners' b ≡ true
  unfolding start_opened is_open_mining
  started-open wpps miners info a b r miners' e own opened after before mining_now =
      ground (arith, lookup-insert info.addr b (new_wpp info) wpps, nat_beq_iff a b)

  pub start_opened-miners :
      (wpps : List (Address × MinerWpp)) (r : Result ManagerError MinerInfo) (miners : Miners)
      → (start_opened new_prover wpps (r, miners)).miners ≡ miners
  unfolding start_opened
  start_opened-miners wpps (ok info) miners = refl
  start_opened-miners wpps (err e) miners = refl

  start_opened-err :
      (wpps : List (Address × MinerWpp)) (r : Result ManagerError MinerInfo) (e : ManagerError)
      (miners : Miners)
      → r ≡ err e
      → (start_opened new_prover wpps (r, miners)).wpps ≡ wpps
  unfolding start_opened
  start_opened-err wpps r e miners q = ground arith

  pub start-Consistent :
      (m : Manager) (a : Address)
      → Consistent m
      → Consistent (start_opened new_prover m.wpps (open_mining auth m.miners a))
  start-Consistent m a c = record {
    keyed =
        rw
          (start_opened-miners m.wpps (open_mining auth m.miners a).0
            (open_mining auth m.miners a).1)
          (open_mining-IsKeyed auth m.miners c.keyed a);
    mines_open = λ b h.
        let (r, ms) = open_mining auth m.miners a in
        rw (start_opened-miners m.wpps r ms) (elim (Result-cases (open_mining auth m.miners a).0) [
          | inl (info, q) ↦
              let (opened, after) = open_mining_lem auth m.miners a info b q in
              started-open m.wpps m.miners info a b r ms q
                (open_mining-addr auth m.miners c.keyed a info q) opened after (c.mines_open b) h
          | inr (e, q) ↦
              rw ((set_mining_failed auth m.miners a e).0 q)
                (c.mines_open b (rw (start_opened-err m.wpps r e ms q) at h))
        ]);
  }

  pub stop_closed-miners :
      (a : Address) (wpps : List (Address × MinerWpp)) (r : Result ManagerError (Unit {0}))
      (miners : Miners)
      → (stop_closed a wpps (r, miners)).miners ≡ miners
  unfolding stop_closed
  stop_closed-miners a wpps (ok u) miners = refl
  stop_closed-miners a wpps (err e) miners = refl

  stop_closed-err :
      (a : Address) (wpps : List (Address × MinerWpp)) (r : Result ManagerError (Unit {0}))
      (e : ManagerError) (miners : Miners)
      → r ≡ err e
      → (stop_closed a wpps (r, miners)).wpps ≡ wpps
  unfolding stop_closed
  stop_closed-err a wpps r e miners q = ground arith

  stop_closed-ok :
      (a b : Address) (wpps : List (Address × MinerWpp)) (r : Result ManagerError (Unit {0}))
      (miners : Miners)
      → r ≡ ok tt
      → lookup b (stop_closed a wpps (r, miners)).wpps ≡ (if a == b then none else lookup b wpps)
  unfolding stop_closed
  stop_closed-ok a b wpps r miners q = ground (arith, lookup-delete a b wpps)

  stop-Consistent :
      (m : Manager) (a : Address)
      → Consistent m
      → Consistent (stop_closed a m.wpps (close_mining auth m.miners a))
  stop-Consistent m a c = record {
    keyed =
        rw
          (stop_closed-miners a m.wpps (close_mining auth m.miners a).0
            (close_mining auth m.miners a).1)
          (close_mining-IsKeyed auth m.miners c.keyed a);
    mines_open = λ b h.
        let (r, ms) = close_mining auth m.miners a in
        rw (stop_closed-miners a m.wpps r ms)
          (elim (Result-cases (close_mining auth m.miners a).0) [
            | inl (u, q) ↦
                let closed = close_mining_lem auth m.miners a b q in
                let left = stop_closed-ok a b m.wpps r ms q in ground (arith, c.mines_open b)
            | inr (e, q) ↦
                rw ((set_mining_failed auth m.miners a e).1 q)
                  (c.mines_open b (rw (stop_closed-err a m.wpps r e ms q) at h))
          ]);
  }

  add_provers-open :
      (miners : Miners) (entries : List (Address × MinerInfo)) (wpps : List (Address × MinerWpp))
      → ((b : Address) → is_some (lookup b wpps) ≡ true → is_open_mining miners b ≡ true)
      → (b : Address) → is_some (lookup b (add_provers new_prover miners entries wpps)) ≡ true
      → is_open_mining miners b ≡ true
  unfolding add_provers
  add_provers-open miners [] wpps before b h = before b h
  add_provers-open miners ((a, info) ∷ rest) wpps before b h =
      add_provers-open miners rest
        (if is_open_mining miners info.addr && new_prover info.addr
          then insert info.addr (new_wpp info) wpps
          else wpps)
        (λ d k.
          ground (
            arith,
            lookup-insert info.addr d (new_wpp info) wpps,
            nat_beq_iff info.addr d,
            before d,
          ))
        b h

  replace_wpps-Consistent :
      (m : Manager) (r : Result ManagerError Miners) (miners : Miners)
      → Consistent m
      → IsKeyed miners
      → ((e : ManagerError) → r ≡ err e → miners ≡ m.miners)
      → Consistent (replace_wpps new_prover m (r, miners)).1
  unfolding replace_wpps
  replace_wpps-Consistent m (ok entries) miners c keyed same = record {
    keyed = keyed;
    mines_open = add_provers-open miners entries [] (λ b h. unfold lookup in cc);
  }
  replace_wpps-Consistent m (err e) miners c keyed same = record {
    keyed = keyed;
    mines_open = λ b h. rw (same e refl) (c.mines_open b h);
  }

  starts :
      (addrs : List Address) (m : Manager)
      → Consistent m
      → Consistent (manual_start auth new_prover addrs m)
  unfolding manual_start
  starts [] m c = c
  starts (a ∷ addrs) m c = starts addrs _ (start-Consistent m a c)

  stops :
      (addrs : List Address) (m : Manager)
      → Consistent m
      → Consistent (manual_stop auth new_prover addrs m)
  unfolding manual_stop
  stops [] m c = c
  stops (a ∷ addrs) m c = stops addrs _ (stop-Consistent m a c)

  -- The operations on the set of miners keep it within the miners that are open in the manager,
  -- whatever sophon-auth answers and whichever provers cannot be made.
  pub manage-Consistent :
      (m : Manager) (addrs : List Address) (skip limit : ℤ)
      → Consistent m
      → Consistent (manual_start auth new_prover addrs m)
        × Consistent (manual_stop auth new_prover addrs m)
        × Consistent (update_address auth new_prover skip limit m).1
  unfolding update_address
  manage-Consistent m addrs skip limit c = (
    starts addrs m c,
    stops addrs m c,
    replace_wpps-Consistent m (update auth m.miners skip limit).0
        (update auth m.miners skip limit).1 c (update-IsKeyed auth m.miners skip limit c.keyed)
        (λ e q. update_failed auth m.miners skip limit e q),
  )
