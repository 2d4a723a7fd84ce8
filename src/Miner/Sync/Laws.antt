-- ===== src/Miner/Sync/Laws.antt =====
-- miner/multiminer.go, `SyncStatus`: the index of the working sync is in range.
use sophon_miner.Miner.{TipSet}
use sophon_miner.Miner.Sync.{
  ActiveSync, Checked, SyncTurn, answered, check_sync, is_at_work, last_working, or_last,
  out_of_range, status_at, with_head, working,
}
use sophon_miner.Miner.Winner.{MineError}
use sophon_miner.Prelude.{
  Bool-cases, List, Option, Result, [], arith, err, get_elem?, inl, inr, length, none, ok, refl,
  some, suc, zero, ℕ, ◌+◌, ◌<◌, ◌∷◌, ◌≡◌, ◌≢◌, ◌≤◌,
}
use sophon_miner.Prelude.Int.{ℤ}

last_working_lt :
    (i : ℕ) (syncs : List ActiveSync) (found : Option ℕ) (n : ℕ)
    → ((j : ℕ) → found ≡ some j → j < n)
    → i + length syncs ≤ n
    → (j : ℕ) → last_working i syncs found ≡ some j
    → j < n
unfolding last_working is_at_work
last_working_lt i [] found n below fits j h = below j h
last_working_lt i (ss ∷ syncs) found n below fits j h =
    last_working_lt (suc i) syncs _ n
      (λ k q. elim (Bool-cases (is_at_work ss.stage)) [
        | inl at_work ↦ let e : some i ≡ some k = rw at_work at q in ground arith
        | inr idle ↦ below k (rw idle at q)
      ])
      (omega arith) j h

or_last_lt :
    (o : Option ℕ) (ss : ActiveSync) (syncs : List ActiveSync)
    → ((j : ℕ) → o ≡ some j → j < length (ss ∷ syncs))
    → or_last o (ss ∷ syncs) < length (ss ∷ syncs)
unfolding or_last
or_last_lt none ss syncs below = omega arith
or_last_lt (some j) ss syncs below = below j refl

pub working_lt :
    (ss : ActiveSync) (syncs : List ActiveSync) → working (ss ∷ syncs) < length (ss ∷ syncs)
unfolding working
working_lt ss syncs =
    or_last_lt _ ss syncs
      (last_working_lt 0 (ss ∷ syncs) none (length (ss ∷ syncs)) (λ j h. cc) (omega arith))

found_below :
    {A : Type 0} (xs : List A) (i : ℕ) → i < length xs → (x : A) × (get_elem? xs i ≡ some x)
found_below [] i h = absurd (omega arith)
found_below (x ∷ xs) zero h = (x, refl)
found_below (x ∷ xs) (suc i) h = found_below xs i (omega arith)

module _ (block_delay : ℕ) where
  with_head_safe :
      (ss : ActiveSync) (syncs : List ActiveSync) (head : Result MineError TipSet) (unix : ℤ)
      → with_head block_delay (ss ∷ syncs) head unix ≢ out_of_range
  unfolding with_head status_at
  with_head_safe ss syncs (err e) unix h = cc
  with_head_safe ss syncs (ok head) unix h =
      let (x, found) = found_below (ss ∷ syncs) (working (ss ∷ syncs)) (working_lt ss syncs) in
      let got : status_at block_delay (some x) head unix ≡ out_of_range = rw found at h in cc

  answered_safe :
      (r : Result MineError (List ActiveSync)) (head : Result MineError TipSet) (unix : ℤ)
      (later : Checked)
      → later ≢ out_of_range
      → answered block_delay r head unix later ≢ out_of_range
  unfolding answered
  answered_safe (err e) head unix later safe h = cc
  answered_safe (ok []) head unix later safe h = safe h
  answered_safe (ok (ss ∷ syncs)) head unix later safe h = with_head_safe ss syncs head unix h

  -- Whatever the node answers, a tick never reads a sync out of range.
  pub check_sync_safe : (turns : List SyncTurn) → check_sync block_delay turns ≢ out_of_range
  unfolding check_sync
  check_sync_safe [] h = cc
  check_sync_safe (t ∷ turns) h =
      answered_safe t.state t.head t.unix (check_sync block_delay turns) (check_sync_safe turns) h
