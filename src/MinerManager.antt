-- ===== src/MinerManager.antt =====
-- node/modules/miner-manager/auth_manager.go: the miners that sophon-auth lists, kept in a map.
-- The client of sophon-auth is a parameter: each call's answer is a function of its arguments.
pub mod Laws
pub mod Others
use sophon_miner.Prelude.{
  Bool, List, Option, Result, String, [], err, false, if◌then◌else◌, is_some, nat_eq, none, ok,
  some, true, ℕ, ◌==◌, ◌∷◌,
}
use sophon_miner.Prelude.Int.{int_eq, pos, ℤ}
use sophon_miner.Prelude.Maps.{insert, lookup}
use sophon_miner.Types.{Address, MinerInfo}

pub record UserMiner : Type 0 where
  pub miner : Address
  pub user : String
  pub open_mining : Bool

pub record User : Type 0 where
  pub id : String
  pub name : String
  pub state : ℤ
  pub miners : List UserMiner

pub data ManagerError : Type 0 where
  not_found : ManagerError
  auth_failed : ℕ → ManagerError

-- jwtclient.IAuthClient, in the calls that are made.
pub record AuthClient : Type 0 where
  pub upsert_miner : String → Address → Bool → Result ManagerError (Unit {0})
  pub list_users_with_miners : ℤ → ℤ → Result ManagerError (List User)

abbrev pub Miners : Type 0
Miners = List (Address × MinerInfo)

abbrev pub co_miners_limit : ℤ
co_miners_limit = pos 20000

-- `has`, `get`, `is_open_mining` and `list` read the map under the lock.
unfoldable pub has : Miners → Address → Bool
has miners addr = is_some (lookup addr miners)

or_not_found : Option MinerInfo → Result ManagerError MinerInfo
or_not_found none = err not_found
or_not_found (some info) = ok info

unfoldable pub get : Miners → Address → Result ManagerError MinerInfo
unfolding or_not_found
get miners addr = or_not_found (lookup addr miners)

unfoldable pub is_open_mining : Miners → Address → Bool
is_open_mining miners addr = elim (lookup addr miners) [
  | none ↦ false
  | some info ↦ info.open_mining
]

pub list : Miners → Result ManagerError Miners
list miners = ok miners

-- The inner loop of `Update`, over the miners of one user.
abbrev info_of : User → UserMiner → MinerInfo
info_of user m = record { addr = m.miner; id = user.id; name = m.user; open_mining = m.open_mining }

add_miners : User → List UserMiner → Miners → Miners
add_miners user [] miners = miners
add_miners user (m ∷ ms) miners = add_miners user ms (insert m.miner (info_of user m) miners)

-- The outer loop: a user whose state is not 1 is passed over.
add_users : List User → Miners → Miners
unfolding add_miners
add_users [] miners = miners
add_users (user ∷ users) miners =
    add_users users (if user.state == pos 1 then add_miners user user.miners miners else miners)

module _ (auth : AuthClient) where
  set_opened :
      Bool
      → Miners
      → Address
      → MinerInfo
      → Result ManagerError (Unit {0})
      → Result ManagerError MinerInfo × Miners
  set_opened open_mining miners addr info (err e) = (err e, miners)
  set_opened open_mining miners addr info (ok _) =
      let info' = record info { open_mining = open_mining } in (ok info', insert addr info' miners)

  -- `OpenMining` and `CloseMining` tell sophon-auth first, and write the entry that the map shares
  -- with its readers once that succeeded.
  set_mining : Bool → Miners → Address → Option MinerInfo → Result ManagerError MinerInfo × Miners
  unfolding set_opened
  set_mining open_mining miners addr none = (err not_found, miners)
  set_mining open_mining miners addr (some info) =
      set_opened open_mining miners addr info (auth.upsert_miner info.name info.addr open_mining)

  unfoldable pub open_mining : Miners → Address → Result ManagerError MinerInfo × Miners
  unfolding set_mining
  open_mining miners addr = set_mining true miners addr (lookup addr miners)

  abbrev discard : Result ManagerError MinerInfo → Result ManagerError (Unit {0})
  discard (ok _) = ok tt
  discard (err e) = err e

  unfoldable pub close_mining : Miners → Address → Result ManagerError (Unit {0}) × Miners
  unfolding set_mining
  close_mining miners addr =
      let (r, miners') = set_mining false miners addr (lookup addr miners) in (discard r, miners')

  replace_with : Miners → Result ManagerError (List User) → Result ManagerError Miners × Miners
  unfolding add_users
  replace_with miners (err e) = (err e, miners)
  replace_with miners (ok users) = (ok (add_users users []), add_users users [])

  -- A limit of 0 asks for `co_miners_limit` users.
  unfoldable pub update : Miners → ℤ → ℤ → Result ManagerError Miners × Miners
  unfolding replace_with
  update miners skip limit =
      replace_with miners
        (auth.list_users_with_miners skip (if limit == pos 0 then co_miners_limit else limit))

  -- `NewMinerManager`
  pub new_miner_manager : Result ManagerError Miners
  unfolding update
  new_miner_manager = (update [] (pos 0) (pos 0)).0
