-- ===== src/Miner/Warmup.antt =====
-- miner/warmup.go: a first proof, over the first active sector of the miner.
-- The random challenge is left out; `compute_proof` of the prover is a function of the sector.
pub mod Goroutines
pub mod Laws
pub mod Texts
use sophon_miner.Miner.{TipSet}
use sophon_miner.Miner.Manage.{Manager, MinerWpp}
use sophon_miner.Miner.Winner.{MineError}
use sophon_miner.Prelude.{
  List, Option, Result, [], err, if◌then◌else◌, list_eq, nat_eq, none, ok, some, string_eq, suc,
  wrap_err, zero, ℕ, ◌==◌, ◌>>=◌, ◌>>◌, ◌∷◌,
}
use sophon_miner.Prelude.Int.{int_eq}
use sophon_miner.Prelude.Maps.{lookup}
use sophon_miner.Types.{Address, Bytes, ChainEpoch, Cid, state_eq}

-- `ActiveSectors.First`: the lowest bit, or that there is none.
pub data FirstBit : Type 0 where
  no_bits_set : FirstBit
  bit : ℕ → FirstBit
  bit_failed : ℕ → FirstBit

pub data WarmupError : Type 0 where
  deadlines_failed : MineError → WarmupError
  partitions_failed : ℕ → MineError → WarmupError
  bitfield_failed : ℕ → WarmupError
  sector_failed : MineError → WarmupError
  sector_not_found : ℕ → WarmupError
  no_chain_head : WarmupError
  no_network_version : WarmupError
  no_proof : MineError → WarmupError
  not_in_set : Address → WarmupError

pub record WarmupApi : Type 0 where
  -- How many deadlines there are.
  pub state_miner_deadlines : Address → Result MineError ℕ
  pub state_miner_partitions : Address → ℕ → Result MineError (List FirstBit)
  pub state_sector_get_info : Address → ℕ → Result MineError (Option Bytes)
  pub chain_head : Result MineError TipSet
  pub state_network_version : List Cid → Result MineError ℕ
  pub compute_proof : ℕ → Bytes → ChainEpoch → ℕ → Result MineError (List Bytes)

-- math.MaxUint64, the sector before one is found.
abbrev pub max_uint64 : ℕ
max_uint64 = 18446744073709551615

-- The partitions of a deadline: the first that has a bit ends the search.
unfoldable pub first_in : List FirstBit → Result WarmupError (Option ℕ)
first_in [] = ok none
first_in (no_bits_set ∷ partitions) = first_in partitions
first_in (bit b ∷ partitions) = ok (some b)
first_in (bit_failed e ∷ partitions) = err (bitfield_failed e)

or_later :
    Result WarmupError (Option ℕ) → Result WarmupError (Option ℕ) → Result WarmupError (Option ℕ)
or_later (err e) later = err e
or_later (ok none) later = later
or_later (ok (some b)) later = ok (some b)

partitions_of : ℕ → Result MineError (List FirstBit) → Result WarmupError (Option ℕ)
partitions_of idx (err e) = err (partitions_failed idx e)
partitions_of idx (ok partitions) = first_in partitions

module _ (api : WarmupApi) (addr : Address) where
  -- The loop over `n` deadlines from an index on.
  unfoldable pub find_sector : ℕ → ℕ → Result WarmupError (Option ℕ)
  unfolding or_later partitions_of
  find_sector zero idx = ok none
  find_sector (suc n) idx =
      let later = find_sector n (suc idx) in
      or_later (partitions_of idx (api.state_miner_partitions addr idx)) later

  -- Whether a proof was computed, for which sector; `none` where there is no sector.
  with_info : ℕ → Option Bytes → Result WarmupError (Option ℕ)
  with_info sector none = err (sector_not_found sector)
  with_info sector (some info) = do
    ts ← wrap_err (λ e. no_chain_head) api.chain_head
    nv ← wrap_err (λ e. no_network_version) (api.state_network_version ts.key)
    _ ← wrap_err no_proof (api.compute_proof sector info ts.height nv)
    ok (some sector)

  prove_sector : Option ℕ → Result WarmupError (Option ℕ)
  unfolding with_info
  prove_sector none = ok none
  prove_sector (some sector) =
      if sector == max_uint64
      then ok none
      else (wrap_err sector_failed (api.state_sector_get_info addr sector) >>= with_info sector)

  unfoldable pub win_post_warmup_for_miner : Result WarmupError (Option ℕ)
  unfolding prove_sector
  win_post_warmup_for_miner = do
    n ← wrap_err deadlines_failed (api.state_miner_deadlines addr)
    found_sector ← find_sector n 0
    prove_sector found_sector

-- `WarmupForMiner`
warmup_found : WarmupApi → Address → Option MinerWpp → Result WarmupError (Option ℕ)
warmup_found api addr none = err (not_in_set addr)
warmup_found api addr (some wpp) = win_post_warmup_for_miner api addr

unfoldable pub warmup_for_miner : WarmupApi → Manager → Address → Result WarmupError (Option ℕ)
unfolding warmup_found
warmup_for_miner api m addr = warmup_found api addr (lookup addr m.wpps)
