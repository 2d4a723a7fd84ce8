-- ===== src/Miner/Reorg.antt =====
-- miner/util.go, `ReorgOps`: the two branches from a common ancestor. `parent` is the loader of a
-- tipset's parents, which may fail, and `same` is the chain library's `Equals`.
pub mod Laws
use sophon_miner.Miner.{TipSet}
use sophon_miner.Prelude.{Bool, List, Option, [], false, none, some, suc, true, zero, ℕ, ◌++◌, ◌∷◌}
use sophon_miner.Prelude.Int.{ltb_ℤ}

abbrev pub Chain : Type 0
Chain = List TipSet

-- The result of the loop: the two chains, an error of the loader, or no end within the fuel.
pub data Branches : Type 0 where
  branches : Chain → Chain → Branches
  load_failed : Branches
  out_of_fuel : Branches

module _ (parent : TipSet → Option TipSet) (same : TipSet → TipSet → Bool) where
  unfoldable pub reorg_ops : ℕ → TipSet → TipSet → Chain → Chain → Branches
  reorg_ops zero left right left_chain right_chain = out_of_fuel
  reorg_ops (suc fuel) left right left_chain right_chain = elim (same left right) [
    | true ↦ branches left_chain right_chain
    | false ↦ elim (ltb_ℤ right.height left.height) [
      | true ↦ elim (parent left) [
        | none ↦ load_failed
        | some par ↦ reorg_ops fuel par right (left_chain ++ left ∷ []) right_chain
      ]
      | false ↦ elim (parent right) [
        | none ↦ load_failed
        | some par ↦ reorg_ops fuel left par left_chain (right_chain ++ right ∷ [])
      ]
    ]
  ]
