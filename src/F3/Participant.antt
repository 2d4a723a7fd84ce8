-- ===== src/F3/Participant.antt =====
-- f3participant/participation.go: the loop of one participant, which gets a ticket from the node,
-- takes part with it as long as its lease holds, and begins again.
-- The node, the context, the clock and the back-off of jpillora are a record over a state of the
-- world. A loop that need not end runs on fuel, and says so when the fuel is used up.
pub mod Errors
pub mod Loops
pub mod Retries
use sophon_miner.Prelude.{
  Bool, Option, Result, String, [], err, false, if◌then◌else◌, leb, list_eq, ltb, nat_eq, none, ok,
  some, string_eq, suc, true, zero, ℕ, ◌+◌, ◌-◌, ◌/◌, ◌==◌, ◌≡◌,
}
use sophon_miner.Prelude.Int.{int64, int_eq, ltb_ℤ, pos, ℤ, ◌*ℤ◌, ◌-ℤ◌}
use sophon_miner.Types.{Bytes, state_eq}

-- The text of an error of the node, by what `strings.Contains` finds in it.
pub record NodeErr : Type 0 where
  pub is_f3_disabled : Bool
  pub is_ticket_expired : Bool
  pub is_start_before_existing : Bool
  pub is_ticket_invalid : Bool
  pub is_issuer_mismatch : Bool
  pub is_f3_not_ready : Bool

-- What the lease says: the network, and the instances that it is still valid for.
pub record Lease : Type 0 where
  pub network : String
  pub validity_term : ℕ

-- A duration is in nanoseconds.
pub record Manifest : Type 0 where
  pub network_name : String
  pub catch_up_alignment : ℤ

pub record World (W : Type 0) : Type 0 where
  -- ctx.Err() != nil
  pub cancelled : W → Bool
  pub get_or_renew_ticket : W → Bytes → Result NodeErr Bytes × W
  pub participate : W → Bytes → Result NodeErr Lease × W
  pub get_manifest : W → Result NodeErr (Option Manifest) × W
  -- The end of a timer, or of the context.
  pub sleep : W → ℤ → W
  pub now : W → ℤ
  -- backoff.Reset, Duration and Attempt
  pub reset : W → W
  pub duration : W → ℤ × W
  pub attempt : W → ℕ
  -- `Duration` counts an attempt, and nothing but `Reset` takes the count back.
  pub attempt_reset : (w : W) → attempt (reset w) ≡ 0
  pub attempt_duration : (w : W) → attempt (duration w).1 ≡ attempt w + 1
  pub attempt_sleep : (w : W) (d : ℤ) → attempt (sleep w d) ≡ attempt w
  pub attempt_participate : (w : W) (t : Bytes) → attempt (participate w t).1 ≡ attempt w

pub data Failure : Type 0 where
  context_done : Failure
  f3_is_disabled : NodeErr → Failure

-- What one turn of a loop does.
pub data Step (A : Type 0) : Type 0 where
  leave : Result Failure A → Step A
  loop_again : Step A
  no_end : Step A

pub data Run (A : Type 0) : Type 0 where
  ended : Result Failure A → Run A
  still_running : Run A

-- `for ctx.Err() == nil { ... } return ctx.Err()`
unfoldable pub while_alive : {A X : Type 0} → (X → Bool) → (X → Step A × X) → ℕ → X → Run A × X
while_alive stopped body zero x = (still_running, x)
while_alive stopped body (suc fuel) x = elim (stopped x) [
  | true ↦ (ended (err context_done), x)
  | false ↦
      let (step, x') = body x in
      elim step [
        | leave r ↦ (ended r, x')
        | loop_again ↦ while_alive stopped body fuel x'
        | no_end ↦ (still_running, x')
      ]
]

-- 500 ms and 100 ms
abbrev pub min_period : ℤ
min_period = pos 500000000

abbrev pub min_wait : ℤ
min_wait = pos 100000000

module _ {W : Type 0} (n : World W) where
  -- The argument `p.backoff.Duration()` of a log call.
  unfoldable pub log_backoff : W → W
  log_backoff w = (n.duration w).1

  unfoldable pub back_off : W → W
  back_off w = let (d, w') = n.duration w in n.sleep w' d

  -- A failure that is logged with its back-off, and waited for.
  unfoldable pub log_and_wait : W → W
  unfolding log_backoff back_off
  log_and_wait w = back_off (log_backoff w)

  -- `tryGetF3ParticipationTicket`, one turn.
  ticket_answered : Result NodeErr Bytes → W → Step Bytes × W
  ticket_answered (ok ticket) w = (leave (ok ticket), w)
  ticket_answered (err e) w =
      if e.is_f3_disabled then (leave (err (f3_is_disabled e)), w) else (loop_again, log_and_wait w)

  ticket_turn : Bytes → W → Step Bytes × W
  unfolding ticket_answered
  ticket_turn previous w =
      let (r, w') = n.get_or_renew_ticket w previous in
      if n.cancelled w' then (leave (err context_done), w') else ticket_answered r w'

  unfoldable pub try_get_ticket : ℕ → Bytes → W → Run Bytes × W
  unfolding ticket_turn
  try_get_ticket fuel previous w = while_alive n.cancelled (ticket_turn previous) fuel (n.reset w)

  -- `getManifest`
  manifest_answered : Result NodeErr (Option Manifest) → W → Step Manifest × W
  manifest_answered (ok (some m)) w = (leave (ok m), w)
  manifest_answered (ok none) w = (loop_again, log_and_wait w)
  manifest_answered (err e) w =
      if e.is_f3_disabled then (leave (err (f3_is_disabled e)), w) else (loop_again, log_and_wait w)

  manifest_turn : W → Step Manifest × W
  unfolding manifest_answered
  manifest_turn w = let (r, w') = n.get_manifest w in manifest_answered r w'

  unfoldable pub await_manifest : ℕ → W → Run Manifest × W
  unfolding manifest_turn
  await_manifest fuel w = while_alive n.cancelled manifest_turn fuel (n.reset w)

  -- `tryParticipate`: the manifest is the loop's variable.
  abbrev pub Held : Type 0
  Held = Option Manifest × W

  module _ (max_attempts lease_term : ℕ) where
    on_error : NodeErr → Option Manifest → W → Step (Unit {0}) × Held
    on_error e m w =
        if e.is_f3_disabled
        then (leave (err (f3_is_disabled e)), (m, w))
        else if e.is_ticket_expired
        then (leave (ok tt), (m, w))
        else if e.is_start_before_existing
        then (leave (ok tt), (m, w))
        else if e.is_ticket_invalid
        then (leave (ok tt), (m, log_and_wait w))
        else if e.is_issuer_mismatch
        then (loop_again, (m, log_and_wait w))
        else if e.is_f3_not_ready
        then (loop_again, (m, log_and_wait w))
        else if ltb max_attempts (n.attempt w)
        then (leave (ok tt), (m, w))
        else (loop_again, (m, log_and_wait w))

    -- time.Duration(lease.ValidityTerm-renewLeaseWithin) * manifest.CatchUpAlignment
    unfoldable pub wait_time : Lease → Manifest → ℤ
    wait_time lease m =
        let t =
          int64 (int64 (pos (lease.validity_term - lease_term / 2)) *ℤ m.catch_up_alignment) in
        if t == pos 0 then min_wait else t

    wait_for_lease : Lease → Manifest → W → Step (Unit {0}) × Held
    wait_for_lease lease m w = (loop_again, (some m, n.sleep w (wait_time lease m)))

    manifest_fetched : Lease → Option Manifest → Run Manifest × W → Step (Unit {0}) × Held
    unfolding wait_for_lease
    manifest_fetched lease old (still_running, w) = (no_end, (old, w))
    manifest_fetched lease old (ended (err e), w) = (leave (err e), (none, w))
    manifest_fetched lease old (ended (ok m), w) =
        if m.network_name == lease.network
        then wait_for_lease lease m w
        else (leave (ok tt), (some m, w))

    on_lease : ℕ → Lease → Option Manifest → W → Step (Unit {0}) × Held
    unfolding manifest_fetched
    on_lease fuel lease none w = manifest_fetched lease none (await_manifest fuel w)
    on_lease fuel lease (some m) w =
        if lease.network == m.network_name
        then wait_for_lease lease m w
        else manifest_fetched lease (some m) (await_manifest fuel w)

    participation_answered : ℕ → Result NodeErr Lease → Option Manifest → W → Step (Unit {0}) × Held
    unfolding on_error on_lease
    participation_answered fuel (err e) m w = on_error e m w
    participation_answered fuel (ok lease) m w =
        if leb lease.validity_term (lease_term / 2)
        then (leave (ok tt), (m, w))
        else on_lease fuel lease m (n.reset w)

    participate_turn : ℕ → Bytes → Held → Step (Unit {0}) × Held
    unfolding participation_answered
    participate_turn fuel ticket (m, w) =
        let (r, w') = n.participate w ticket in
        if n.cancelled w'
        then (leave (err context_done), (m, w'))
        else participation_answered fuel r m w'

    abbrev held_cancelled : Held → Bool
    held_cancelled (m, w) = n.cancelled w

    unfoldable pub try_participate : ℕ → Bytes → W → Run (Unit {0}) × Held
    unfolding participate_turn
    try_participate fuel ticket w =
        while_alive held_cancelled (participate_turn fuel ticket) fuel (none, n.reset w)

    -- `run`: a loop on the last ticket. A turn lasts half a second at least; if the context ends
    -- during that wait, the test of the loop finds it ended.
    participated : Bytes → ℤ → Run (Unit {0}) × Held → Step (Unit {0}) × Bytes × W
    participated ticket started_at (still_running, (m, w)) = (no_end, ticket, w)
    participated ticket started_at (ended (err e), (m, w)) = (leave (err e), ticket, w)
    participated ticket started_at (ended (ok u), (m, w)) =
        let elapsed = n.now w -ℤ started_at in
        (
          loop_again,
          ticket,
          (if ltb_ℤ elapsed min_period then n.sleep w (min_period -ℤ elapsed) else w),
        )

    with_f3_ticket : ℕ → ℤ → Run Bytes × W → Bytes → Step (Unit {0}) × Bytes × W
    unfolding participated
    with_f3_ticket fuel started_at (still_running, w) old = (no_end, old, w)
    with_f3_ticket fuel started_at (ended (err e), w) old = (leave (err e), [], w)
    with_f3_ticket fuel started_at (ended (ok ticket), w) old =
        participated ticket started_at (try_participate fuel ticket w)

    run_turn : ℕ → Bytes × W → Step (Unit {0}) × (Bytes × W)
    unfolding with_f3_ticket
    run_turn fuel (ticket, w) =
        let (step, ticket', w') =
          with_f3_ticket fuel (n.now w) (try_get_ticket fuel ticket w) ticket in
        (step, (ticket', w'))

    abbrev run_cancelled : Bytes × W → Bool
    run_cancelled (ticket, w) = n.cancelled w

    -- The deferred function: an error is dropped where the context is done.
    unless_cancelled : Run (Unit {0}) × (Bytes × W) → Run (Unit {0})
    unless_cancelled (still_running, (t, w)) = still_running
    unless_cancelled (ended r, (t, w)) = ended (if n.cancelled w then ok tt else r)

    unfoldable pub run_loop : ℕ → W → Run (Unit {0}) × (Bytes × W)
    unfolding run_turn
    run_loop fuel w = while_alive run_cancelled (run_turn fuel) fuel ([], w)

    unfoldable pub run : ℕ → W → Run (Unit {0})
    unfolding run_loop unless_cancelled
    run fuel w = unless_cancelled (run_loop fuel w)
