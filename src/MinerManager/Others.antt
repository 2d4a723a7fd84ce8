-- ===== src/MinerManager/Others.antt =====
-- auth_manager.go: opening and closing one miner leaves the entries of the others alone.
use sophon_miner.MinerManager.{
  AuthClient, ManagerError, Miners, close_mining, open_mining, set_mining, set_opened,
}
use sophon_miner.Prelude.{
  Bool, Option, Result, arith, err, false, list_eq, nat_eq, none, ok, refl, some, string_eq, true,
  ◌==◌, ◌≡◌,
}
use sophon_miner.Prelude.Int.{int_eq}
use sophon_miner.Prelude.Maps.{lookup, lookup-insert}
use sophon_miner.Types.{Address, MinerInfo, state_eq}

module _ (auth : AuthClient) (miners : Miners) (a j : Address) (other : (a == j) ≡ false) where
  set_opened-other :
      (b : Bool) (info : MinerInfo) (r : Result ManagerError (Unit {0}))
      → lookup j (set_opened auth b miners a info r).1 ≡ lookup j miners
  unfolding set_opened
  set_opened-other b info (ok u) =
      ground (arith, lookup-insert a j (record info { open_mining = b }) miners)
  set_opened-other b info (err e) = refl

  set_mining-other :
      (b : Bool) (q : Option MinerInfo)
      → lookup j (set_mining auth b miners a q).1 ≡ lookup j miners
  unfolding set_mining
  set_mining-other b none = refl
  set_mining-other b (some info) = set_opened-other b info _

  pub open_mining-other : lookup j (open_mining auth miners a).1 ≡ lookup j miners
  unfolding open_mining
  open_mining-other = set_mining-other true (lookup a miners)

  pub close_mining-other : lookup j (close_mining auth miners a).1 ≡ lookup j miners
  unfolding close_mining
  close_mining-other = set_mining-other false (lookup a miners)
