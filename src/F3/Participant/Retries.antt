-- ===== src/F3/Participant/Retries.antt =====
-- f3participant/participation.go: how long an unexpected error is retried.
use sophon_miner.F3.Participant.{
  Held, Manifest, NodeErr, Run, Step, World, ended, held_cancelled, leave, log_and_wait, loop_again,
  on_error, participate_turn, participation_answered, still_running, try_participate, while_alive,
}
use sophon_miner.Prelude.{
  Bool, Bool-cases, Option, ap, arith, err, false, inl, inr, leb, leb→le, none, ok, refl, suc, zero,
  ℕ, ◌*◌, ◌+◌, ◌<◌, ◌∙◌, ◌≡◌, ◌≤◌,
}
use sophon_miner.Types.{Bytes}

while_alive-again :
    {A X : Type 0} (halted : X → Bool) (body : X → Step A × X) (fuel : ℕ) (x : X)
    → halted x ≡ false
    → (body x).0 ≡ loop_again
    → while_alive halted body (suc fuel) x ≡ while_alive halted body fuel (body x).1
unfolding while_alive
while_alive-again halted body fuel x alive again = rw (alive, again, while_alive)

-- An error that none of the cases before the last one names.
abbrev pub Unexpected : NodeErr → Type 0
Unexpected e =
    (e.is_f3_disabled ≡ false)
    × (e.is_ticket_expired ≡ false)
    × (e.is_start_before_existing ≡ false)
    × (e.is_ticket_invalid ≡ false)
    × (e.is_issuer_mismatch ≡ false)
    × (e.is_f3_not_ready ≡ false)

module _ {W : Type 0} (n : World W) (max_attempts lease_term : ℕ) (ticket : Bytes) (e : NodeErr)
    (unexpected : Unexpected e) (alive : (w : W) → n.cancelled w ≡ false)
    (fails : (w : W) → (n.participate w ticket).0 ≡ err e) where
  -- The log call counts one attempt, the wait another.
  attempt-log_and_wait : (w : W) → n.attempt (log_and_wait n w) ≡ n.attempt w + 2
  unfolding log_and_wait
  attempt-log_and_wait w = omega (arith, n.attempt_sleep, n.attempt_duration)

  turn-last :
      (fuel : ℕ) (m : Option Manifest) (w : W)
      → max_attempts < n.attempt w
      → (participate_turn n max_attempts lease_term fuel ticket (m, w)).0 ≡ leave (ok tt)
  unfolding participate_turn on_error participation_answered
  turn-last fuel m w over =
      ground (
        arith,
        unexpected,
        alive (n.participate w ticket).1,
        fails w,
        n.attempt_participate w ticket,
      )

  turn-again :
      (fuel : ℕ) (m : Option Manifest) (w : W)
      → n.attempt w ≤ max_attempts
      → (participate_turn n max_attempts lease_term fuel ticket (m, w))
        ≡ (loop_again, (m, log_and_wait n (n.participate w ticket).1))
  unfolding participate_turn on_error participation_answered
  turn-again fuel m w under =
      ground (
        arith,
        unexpected,
        alive (n.participate w ticket).1,
        fails w,
        n.attempt_participate w ticket,
      )

  abbrev failing : ℕ → ℕ → Held n → Run (Unit {0}) × Held n
  failing fuel k x =
      while_alive (held_cancelled n max_attempts lease_term)
        (participate_turn n max_attempts lease_term fuel ticket) k x

  failing-again :
      (fuel k : ℕ) (m : Option Manifest) (w : W)
      → n.attempt w ≤ max_attempts
      → failing fuel (suc k) (m, w) ≡ failing fuel k (m, log_and_wait n (n.participate w ticket).1)
  failing-again fuel k m w under =
      let turn = turn-again fuel m w under in
      while_alive-again (held_cancelled n max_attempts lease_term)
        (participate_turn n max_attempts lease_term fuel ticket) k (m, w) (alive w)
        (ap (λ p. p.0) turn)
      ∙ ap (λ p. failing fuel k p.1) turn

  failing-last :
      (fuel k : ℕ) (m : Option Manifest) (w : W)
      → max_attempts < n.attempt w
      → (failing fuel (suc k) (m, w)).0 ≡ ended (ok tt)
  unfolding while_alive
  failing-last fuel k m w over = rw (alive w, turn-last fuel m w over, while_alive)

  attempt_next : (w : W) → n.attempt (log_and_wait n (n.participate w ticket).1) ≡ n.attempt w + 2
  attempt_next w = omega (arith, attempt-log_and_wait, n.attempt_participate w ticket)

  failing-ends :
      (fuel k : ℕ) (m : Option Manifest) (w : W)
      → max_attempts < n.attempt w + 2 * k
      → (failing fuel (suc k) (m, w)).0 ≡ ended (ok tt)
  failing-ends fuel zero m w h = failing-last fuel 0 m w (omega arith)
  failing-ends fuel (suc k) m w h = elim (Bool-cases (leb (n.attempt w) max_attempts)) [
    | inl under ↦ rw (failing-again fuel (suc k) m w (leb→le _ _ under)) (
        failing-ends fuel k m (log_and_wait n (n.participate w ticket).1)
          (omega (arith, attempt_next w)))
    | inr over ↦ failing-last fuel (suc k) m w (ground arith)
  ]

  failing-runs :
      (fuel k : ℕ) (m : Option Manifest) (w : W)
      → n.attempt w + 2 * k ≤ max_attempts + 2
      → (failing fuel k (m, w)).0 ≡ still_running
  failing-runs fuel zero m w h = unfold while_alive in refl
  failing-runs fuel (suc k) m w h = rw (failing-again fuel k m w (omega arith)) (
      failing-runs fuel k m (log_and_wait n (n.participate w ticket).1)
        (omega (arith, attempt_next w)))

  -- Where every attempt to participate meets an unexpected error, the participation is given up, for
  -- a new ticket, at the attempt whose number, from 0, is more than half the maximum, and not
  -- before: a failure counts twice, once for its log line and once for its wait.
  pub try_participate-restarts :
      (k : ℕ) (w : W)
      → (max_attempts < 2 * k
          → (try_participate n max_attempts lease_term (suc k) ticket w).0 ≡ ended (ok tt))
        × (2 * k ≤ max_attempts
            → (try_participate n max_attempts lease_term (suc k) ticket w).0 ≡ still_running)
  unfolding try_participate
  try_participate-restarts k w = (
    λ h. failing-ends (suc k) k none (n.reset w) (omega (arith, n.attempt_reset w)),
    λ h. failing-runs (suc k) (suc k) none (n.reset w) (omega (arith, n.attempt_reset w)),
  )
