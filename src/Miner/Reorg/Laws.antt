-- ===== src/Miner/Reorg/Laws.antt =====
-- miner/util.go, `ReorgOps`: its end and its results.
use mathlib.Core.List.{append-nil, append_assoc}
use sophon_miner.Miner.{TipSet}
use sophon_miner.Miner.Reorg.{Chain, branches, out_of_fuel, reorg_ops}
use sophon_miner.Prelude.{
  Bool, Bool-cases, Option, Option-cases, [], arith, inl, inr, refl, some, suc, sym, true, zero, ℕ,
  ◌++◌, ◌+◌, ◌<◌, ◌∙◌, ◌∷◌, ◌≡◌, ◌≢◌, ◌⊎◌,
}
use sophon_miner.Prelude.Int.{ltb_ℤ, pos, pos_part, ◌<ℤ◌, ◌≤ℤ◌}

-- The chain from a tipset down to the one below its last element: each is the parent of the one
-- before it.
abbrev pub Leads : (TipSet → Option TipSet) → TipSet → Chain → TipSet → Type 0
Leads parent t [] x = t ≡ x
Leads parent t (y ∷ ys) x = (y ≡ t) × ((p : TipSet) × (parent t ≡ some p) × Leads parent p ys x)

module _ (parent : TipSet → Option TipSet) (same : TipSet → TipSet → Bool) where
  -- One turn of a loop that returns the chains.
  reorg_ops-turn :
      (fuel : ℕ) (left right : TipSet) (lc rc lc' rc' : Chain)
      → reorg_ops parent same (suc fuel) left right lc rc ≡ branches lc' rc'
      → ((same left right ≡ true) × (lc' ≡ lc) × (rc' ≡ rc))
        ⊎ ((p : TipSet) × (parent left ≡ some p)
            × (reorg_ops parent same fuel p right (lc ++ left ∷ []) rc ≡ branches lc' rc'))
        ⊎ ((p : TipSet) × (parent right ≡ some p)
            × (reorg_ops parent same fuel left p lc (rc ++ right ∷ []) ≡ branches lc' rc'))
  unfolding reorg_ops
  reorg_ops-turn fuel left right lc rc lc' rc' h = elim (Bool-cases (same left right)) [
    | inl met ↦ inl (ground arith)
    | inr apart ↦ elim (Bool-cases (ltb_ℤ right.height left.height)) [
      | inl above ↦ elim (Option-cases (parent left)) [
        | inl e ↦ ground arith
        | inr (p, e) ↦ inr (inl (p, e, ground arith))
      ]
      | inr below ↦ elim (Option-cases (parent right)) [
        | inl e ↦ ground arith
        | inr (p, e) ↦ inr (inr (p, e, ground arith))
      ]
    ]
  ]

  reorg_ops-extends :
      (fuel : ℕ) (left right : TipSet) (lc rc lc' rc' : Chain)
      → reorg_ops parent same fuel left right lc rc ≡ branches lc' rc'
      → (l r : Chain) × (x y : TipSet) × (lc' ≡ lc ++ l)
        × (rc' ≡ rc ++ r)
        × (same x y ≡ true)
        × Leads parent left l x
        × Leads parent right r y
  unfolding reorg_ops
  reorg_ops-extends zero left right lc rc lc' rc' h = cc
  reorg_ops-extends (suc fuel) left right lc rc lc' rc' h =
      elim (reorg_ops-turn fuel left right lc rc lc' rc' h) [
        | inl (met, el, er) ↦ (
          [],
          [],
          left,
          right,
          el ∙ sym (append-nil lc),
          er ∙ sym (append-nil rc),
          met,
          refl,
          refl,
        )
        | inr (inl (p, e, q)) ↦
            let (l, r, x, y, el, er, met, down, across) =
              reorg_ops-extends fuel p right (lc ++ left ∷ []) rc lc' rc' q in
            (
              left ∷ l,
              r,
              x,
              y,
              el ∙ append_assoc lc (left ∷ []) l,
              er,
              met,
              (refl, (p, e, down)),
              across,
            )
        | inr (inr (p, e, q)) ↦
            let (l, r, x, y, el, er, met, down, across) =
              reorg_ops-extends fuel left p lc (rc ++ right ∷ []) lc' rc' q in
            (
              l,
              right ∷ r,
              x,
              y,
              el,
              er ∙ append_assoc rc (right ∷ []) r,
              met,
              down,
              (refl, (p, e, across)),
            )
      ]

  -- The two chains run from the given tipsets down to two that are the same, each element followed
  -- by its parent: the common ancestor is the parent of the last elements, and not one of the chain's
  -- own positions.
  pub reorg_ops-chains :
      (fuel : ℕ) (a b : TipSet) (lc rc : Chain)
      → reorg_ops parent same fuel a b [] [] ≡ branches lc rc
      → (x y : TipSet) × (same x y ≡ true) × Leads parent a lc x × Leads parent b rc y
  reorg_ops-chains fuel a b lc rc h =
      let (l, r, x, y, el, er, met, down, across) = reorg_ops-extends fuel a b [] [] lc rc h in
      (x, y, met, rw el down, rw er across)

module _ (parent : TipSet → Option TipSet) (same : TipSet → TipSet → Bool)
    (lower : (t p : TipSet)
      → parent t ≡ some p
      → (pos 0 ≤ℤ p.height) × (p.height <ℤ t.height)) where
  -- Parents are lower and no height is negative: with fuel above the sum of the two heights the loop
  -- ends, with the chains or with an error of the loader.
  pub reorg_ops-ends :
      (fuel : ℕ) (left right : TipSet) (lc rc : Chain)
      → pos 0 ≤ℤ left.height
      → pos 0 ≤ℤ right.height
      → pos_part left.height + pos_part right.height < fuel
      → reorg_ops parent same fuel left right lc rc ≢ out_of_fuel
  unfolding reorg_ops
  reorg_ops-ends zero left right lc rc hl hr enough = absurd (omega arith)
  reorg_ops-ends (suc fuel) left right lc rc hl hr enough = elim (Bool-cases (same left right)) [
    | inl met ↦ ground arith
    | inr apart ↦ elim (Bool-cases (ltb_ℤ right.height left.height)) [
      | inl above ↦ elim (Option-cases (parent left)) [
        | inl e ↦ ground arith
        | inr (p, e) ↦
            let (low, less) = lower left p e in
            let rest = reorg_ops-ends fuel p right (lc ++ left ∷ []) rc low hr (ground arith) in
            λ h. rest (ground arith)
      ]
      | inr below ↦ elim (Option-cases (parent right)) [
        | inl e ↦ ground arith
        | inr (p, e) ↦
            let (low, less) = lower right p e in
            let rest = reorg_ops-ends fuel left p lc (rc ++ right ∷ []) hl low (ground arith) in
            λ h. rest (ground arith)
      ]
    ]
  ]
