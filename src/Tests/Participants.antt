-- ===== src/Tests/Participants.antt =====
-- The map of miners and the participants at a small list of miners.
use sophon_miner.F3.Multi.{Participants}
use sophon_miner.Miner.Manage.{Manager, manual_start, manual_stop, update_address}
use sophon_miner.Miner.Manage.Laws.{Consistent, manage-Consistent}
use sophon_miner.MinerManager.{
  AuthClient, Miners, User, close_mining, is_open_mining, open_mining, update,
}
use sophon_miner.MinerManager.Laws.{IsKeyed}
use sophon_miner.Prelude.{
  Bool-cases, List, [], arith, inl, inr, nat_beq, nat_beq_iff, nat_eq, none, ok, refl, some, true,
  ◌∷◌, ◌≡◌,
}
use sophon_miner.Prelude.Int.{pos}
use sophon_miner.Prelude.Maps.{insert, lookup}
use sophon_miner.Types.{MinerInfo}

abbrev answer : List User
answer =
    record {
      id = "u";
      name = "a";
      state = pos 1;
      miners = record { miner = 1000; user = "a"; open_mining = true } ∷ [];
    }
    ∷ []

abbrev pub auth : AuthClient
auth = record {
  upsert_miner = λ name miner is_open. ok tt;
  list_users_with_miners = λ skip limit. ok answer;
}

abbrev pub info : MinerInfo
info = record { addr = 1000; id = "u"; name = "a"; open_mining = true }

abbrev miners : Miners
miners = (1000, info) ∷ []

abbrev none_running : Participants
none_running = []

is_open : is_open_mining miners 1000 ≡ true
unfolding is_open_mining lookup
is_open = refl

no_participant : lookup 1000 none_running ≡ none
unfolding lookup
no_participant = refl

updated : lookup 1000 (update auth miners (pos 0) (pos 0)).1 ≡ some info
unfolding update lookup insert
updated = refl

opened : (open_mining auth miners 1000).0 ≡ ok info
unfolding open_mining lookup
opened = refl

closed : (close_mining auth miners 1000).0 ≡ ok tt
unfolding close_mining lookup
closed = refl

miners-IsKeyed : IsKeyed miners
unfolding lookup
miners-IsKeyed a i h = elim (Bool-cases (nat_beq 1000 a)) [
  | inl e ↦ ground (arith, nat_beq_iff 1000 a)
  | inr e ↦ ground arith
]

abbrev stopped : Manager
stopped = record { miners = miners; wpps = [] }

stopped-Consistent : Consistent stopped
unfolding lookup
stopped-Consistent = record { keyed = miners-IsKeyed; mines_open = λ a h. ground arith }

manage-Consistent_example :
    Consistent (manual_start auth (λ a. true) (1000 ∷ []) stopped)
    × Consistent (manual_stop auth (λ a. true) (1000 ∷ []) stopped)
    × Consistent (update_address auth (λ a. true) (pos 0) (pos 0) stopped).1
manage-Consistent_example =
    manage-Consistent auth (λ a. true) stopped (1000 ∷ []) (pos 0) (pos 0) stopped-Consistent
