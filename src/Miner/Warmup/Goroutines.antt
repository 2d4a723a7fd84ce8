-- ===== src/Miner/Warmup/Goroutines.antt =====
-- miner/warmup.go, `winPoStWarmup`: a goroutine for each miner of the set, in the order in which they
-- end. The text of an error, which starts with the time, is a parameter.
use sophon_miner.Miner.Manage.{MinerWpp}
use sophon_miner.Miner.Warmup.{WarmupApi, WarmupError, win_post_warmup_for_miner}
use sophon_miner.Prelude.{
  List, Option, Result, String, [], err, list_eq, nat_eq, none, ok, some, string_eq, ℕ, ◌++◌, ◌∷◌,
}
use sophon_miner.Prelude.Int.{int_eq}
use sophon_miner.Prelude.Maps.{insert, lookup}
use sophon_miner.Types.{Address, state_eq}

pub data Warmed : Type 0 where
  warmed : List (Address × MinerWpp) → Warmed
  -- The entry is a nil pointer, since the miner has left the set.
  nil_entry : Address → Warmed

unfoldable pub add_error : Address → String → Option MinerWpp → List (Address × MinerWpp) → Warmed
add_error addr text none wpps = nil_entry addr
add_error addr text (some w) wpps =
    warmed (insert addr (record w { errors = w.errors ++ text ∷ [] }) wpps)

module _ (api : WarmupApi) (error_text : WarmupError → String) where
  unfoldable pub noted :
      Address → Result WarmupError (Option ℕ) → List (Address × MinerWpp) → Warmed
  unfolding add_error
  noted addr (ok sector) wpps = warmed wpps
  noted addr (err e) wpps = add_error addr (error_text e) (lookup addr wpps) wpps

  unfoldable pub goroutine_ends : Address → List (Address × MinerWpp) → Warmed
  unfolding noted
  goroutine_ends addr wpps = noted addr (win_post_warmup_for_miner api addr) wpps

  unfoldable pub win_post_warmup : List Address → List (Address × MinerWpp) → Warmed
  win_post_warmup [] wpps = warmed wpps
  win_post_warmup (addr ∷ order) wpps = elim (goroutine_ends addr wpps) [
    | warmed wpps' ↦ win_post_warmup order wpps'
    | nil_entry a ↦ nil_entry a
  ]
