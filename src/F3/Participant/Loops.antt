-- ===== src/F3/Participant/Loops.antt =====
-- f3participant/participation.go: what the end of a loop of a participant says.
use sophon_miner.F3.Participant.{
  Failure, Step, context_done, ended, leave, loop_again, no_end, still_running, while_alive,
}
use sophon_miner.Prelude.{
  Bool, Bool-cases, Result, arith, err, inl, inr, refl, suc, true, zero, ℕ, ◌≡◌, ◌≢◌, ◌⊎◌,
}

Step-cases :
    {A : Type 0} (s : Step A)
    → ((r : Result Failure A) × (s ≡ leave r)) ⊎ (s ≡ loop_again) ⊎ (s ≡ no_end)
Step-cases (leave r) = inl (r, refl)
Step-cases loop_again = inr (inl refl)
Step-cases no_end = inr (inr refl)

-- A loop that ends does so with what one of its turns returned, or because the context was done.
pub while_alive-ended :
    {A X : Type 0} (P : Result Failure A → X → Type 0) (halted : X → Bool) (body : X → Step A × X)
    → ((x : X) → halted x ≡ true → P (err context_done) x)
    → ((x : X) (r : Result Failure A) → (body x).0 ≡ leave r → P r (body x).1)
    → (fuel : ℕ) (x : X) (r : Result Failure A) → (while_alive halted body fuel x).0 ≡ ended r
    → P r (while_alive halted body fuel x).1
unfolding while_alive
while_alive-ended {A} P halted body at_end turn zero x r h = cc
while_alive-ended {A} P halted body at_end turn (suc fuel) x r h = elim (Bool-cases (halted x)) [
  | inl yes_halted ↦
      let e : ended (err context_done) ≡ ended r = rw (yes_halted, while_alive) at h in
      let same : err context_done ≡ r = ground arith in
      rw (yes_halted, while_alive, ← same) (at_end x yes_halted)
  | inr alive ↦ elim (Step-cases (body x).0) [
    | inl (r', left) ↦
        let e : ended r' ≡ ended r = rw (alive, left, while_alive) at h in
        let same : r' ≡ r = ground arith in rw (alive, left, while_alive, ← same) (turn x r' left)
    | inr (inl again) ↦
        rw (alive, again, while_alive)
          (while_alive-ended P halted body at_end turn fuel (body x).1 r
            (rw (alive, again, while_alive) at h))
    | inr (inr stuck) ↦ absurd (never_ended r (rw (alive, stuck, while_alive) at h))
  ]
]
  where
    never_ended : (r : Result Failure A) → still_running ≢ ended r
    never_ended r h = cc
