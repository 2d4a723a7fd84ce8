-- ===== src/Miner/Manage/Asked.antt =====
-- miner/miningmgr.go, `StatesForMining`: the states in the answer are of the miners that were asked
-- for.
use sophon_miner.Miner.Manage.{Manager, state_of, states_for_mining}
use sophon_miner.Prelude.{
  All, List, Option-cases, [], inl, inr, list_eq, map, nat_eq, string_eq, ◌∷◌, ◌≡◌,
}
use sophon_miner.Prelude.Int.{int_eq}
use sophon_miner.Prelude.Maps.{lookup}
use sophon_miner.Types.{Address, MinerState, state_eq}

state_of-addr : (m : Manager) (a : Address) → (state_of m a).addr ≡ a
unfolding state_of
state_of-addr m a = elim (Option-cases (lookup a m.wpps)) [
  | inl absent ↦ rw (absent, state_of)
  | inr (wpp, there) ↦ rw (there, state_of)
]

states_of-All :
    (m : Manager) (P : Address → Type 0) (addrs : List Address)
    → All P addrs
    → All (λ (r : MinerState). P r.addr) (map (state_of m) addrs)
states_of-All m P [] h = tt
states_of-All m P (a ∷ addrs) h = (rw (state_of-addr m a) h.0, states_of-All m P addrs h.1)

pub states_for_mining-All :
    (m : Manager) (P : Address → Type 0) (a : Address) (addrs : List Address)
    → All P (a ∷ addrs)
    → All (λ (r : MinerState). P r.addr) (states_for_mining m (a ∷ addrs))
unfolding states_for_mining
states_for_mining-All m P a addrs h = states_of-All m P (a ∷ addrs) h
