-- ===== src/F3/Multi/Ticks.antt =====
-- f3participant/multiparticipation.go: the participants after the ticks of the monitor that return.
use sophon_miner.F3.Multi.{
  Added, Participants, Running, Tick, add_participant, context_ended, monitor, monitor_miner,
  monitor_one, panicked, remove_participant, returned, start_all, started, ticked,
}
use sophon_miner.MinerManager.{Miners, is_open_mining}
use sophon_miner.Prelude.{
  Bool, Bool-cases, List, Option, Option-cases, [], ap, arith, err, false, if◌then◌else◌, inl, inr,
  list_eq, nat_eq, none, not, ok, refl, some, string_eq, true, ◌&&◌, ◌==◌, ◌||◌, ◌∙◌, ◌∷◌, ◌≡◌, ◌≢◌,
}
use sophon_miner.Prelude.Int.{int_eq}
use sophon_miner.Prelude.Maps.{lookup, lookup-delete}
use sophon_miner.Types.{Address, MinerInfo, state_eq}

-- The address is in the manager's list.
unfoldable pub is_listed : Address → List (Address × MinerInfo) → Bool
is_listed b [] = false
is_listed b ((a, info) ∷ rest) = (info.addr == b) || is_listed b rest

lookup-remove_participant :
    (a b : Address) (ps : Participants)
    → lookup b (remove_participant a ps) ≡ (if a == b then none else lookup b ps)
unfolding remove_participant
lookup-remove_participant a b ps = elim (Option-cases (lookup a ps)) [
  | inl absent ↦ ground (arith, absent)
  | inr (p, there) ↦ ground (arith, there, lookup-delete a b ps)
]

add_participant-returned :
    (a : Address) (ps ps' : Participants)
    → add_participant a ps ≡ returned ps'
    → (ps' ≡ ps) × (lookup a ps ≢ none)
unfolding add_participant
add_participant-returned a ps ps' h = elim (Option-cases (lookup a ps)) [
  | inl absent ↦ ground (arith, absent)
  | inr (p, there) ↦ ground (arith, there)
]

-- What one miner of the list does to the entry of any address.
abbrev OneDone : Miners → Address → Address → Participants → Participants → Type 0
OneDone miners a b ps ps' =
    (lookup b ps' ≡ (if (a == b) && not (is_open_mining miners b) then none else lookup b ps))
    × (a == b ≡ true → is_open_mining miners b ≡ true → lookup b ps ≢ none)

open_done :
    (miners : Miners) (a b : Address) (ps ps' : Participants)
    → is_open_mining miners a ≡ true
    → (p : Running) → lookup a ps ≡ some p
    → ps' ≡ ps
    → OneDone miners a b ps ps'
open_done miners a b ps ps' on p there same = elim (Bool-cases (a == b)) [
  | inl eq ↦
      let q : a ≡ b = (nat_eq.beq_iff a b).0 eq in
      let on_b : is_open_mining miners b ≡ true = cc in
      let there_b : lookup b ps ≡ some p = cc in (ground (arith, on_b, same), λ e o n. cc)
  | inr ne ↦ (ground (arith, ne, same), λ e. cc)
]

closed_done :
    (miners : Miners) (a b : Address) (ps : Participants)
    → is_open_mining miners a ≡ false
    → OneDone miners a b ps (remove_participant a ps)
closed_done miners a b ps off = elim (Bool-cases (a == b)) [
  | inl eq ↦
      let q : a ≡ b = (nat_eq.beq_iff a b).0 eq in
      let off_b : is_open_mining miners b ≡ false = cc in
      (ground (arith, off_b, eq, lookup-remove_participant a b ps), λ e o. cc)
  | inr ne ↦ (ground (arith, ne, lookup-remove_participant a b ps), λ e. cc)
]

monitor_one-returned :
    (miners : Miners) (a b : Address) (ps ps' : Participants)
    → monitor_one miners a ps ≡ returned ps'
    → OneDone miners a b ps ps'
unfolding monitor_one
monitor_one-returned miners a b ps ps' h = elim (Bool-cases (is_open_mining miners a)) [
  | inl on ↦ elim (Option-cases (lookup a ps)) [
    | inl absent ↦
        absurd ((add_participant-returned a ps ps' (ground (arith, on, absent))).1 absent)
    | inr (p, there) ↦ open_done miners a b ps ps' on p there (ground (arith, on, there))
  ]
  | inr off ↦
      let same : remove_participant a ps ≡ ps' = ground (arith, off) in
      rw (← same) (closed_done miners a b ps off)
]

-- Two removals, one after the other, of an address that is closed.
both_done :
    (x y z : Bool) (before between after : Option Running)
    → between ≡ (if x && not z then none else before)
    → (x ≡ true → z ≡ true → before ≢ none)
    → after ≡ (if y && not z then none else between)
    → (y ≡ true → z ≡ true → between ≢ none)
    → (after ≡ (if (x || y) && not z then none else before))
      × (x || y ≡ true → z ≡ true → before ≢ none)
both_done true y true before between after p one q later = (ground arith, one)
both_done true y false before between after p one q later = (ground arith, one)
both_done false y z before between after p one q later =
    let kept = rw p at q in (kept, λ h g n. later h g (p ∙ n))

-- What a tick that returns does to the entry of an address.
abbrev pub TickDone :
    Miners → List (Address × MinerInfo) → Address → Participants → Participants → Type 0
TickDone miners listed b ps ps' =
    (lookup b ps'
      ≡ (if is_listed b listed && not (is_open_mining miners b) then none else lookup b ps))
    × (is_listed b listed ≡ true → is_open_mining miners b ≡ true → lookup b ps ≢ none)

-- A tick of the monitor that returns removes the participant of a miner that the manager lists and that
-- is closed, leaves every other entry as it is, and adds none: a listed miner that is open had its
-- participant before.
pub monitor-returned :
    (miners : Miners) (listed : List (Address × MinerInfo)) (ps ps' : Participants) (b : Address)
    → monitor miners listed ps ≡ returned ps'
    → TickDone miners listed b ps ps'
unfolding monitor is_listed
monitor-returned miners [] ps ps' b h = (ground arith, λ l. cc)
monitor-returned miners ((a, info) ∷ rest) ps ps' b h =
    first (λ ps1 h'. monitor-returned miners rest ps1 ps' b h') (monitor_one miners info.addr ps)
      refl h
  where
    first :
        ((ps1 : Participants)
          → monitor miners rest ps1 ≡ returned ps'
          → TickDone miners rest b ps1 ps')
        → (r : Added) → monitor_one miners info.addr ps ≡ r
        → (elim r [ returned ps1 ↦ monitor miners rest ps1 | panicked ps1 ↦ panicked ps1 ])
          ≡ returned ps'
        → TickDone miners ((a, info) ∷ rest) b ps ps'
    first later_ticks (panicked ps1) one h' = cc
    first later_ticks (returned ps1) one h' =
        let now = monitor_one-returned miners info.addr b ps ps1 one in
        let later = later_ticks ps1 h' in
        unfold is_listed in
        both_done (info.addr == b) (is_listed b rest) (is_open_mining miners b) (lookup b ps)
          (lookup b ps1) (lookup b ps') now.0 now.1 later.0 later.1

lookup-start_all :
    (b : Address) (ps : Participants) (r : Running) → lookup b (start_all ps) ≡ some r → r ≡ started
unfolding start_all lookup
lookup-start_all b [] r h = cc
lookup-start_all b ((a, p) ∷ ps) r h = elim (Bool-cases (a == b)) [
  | inl eq ↦ ground (arith, rw eq at h)
  | inr ne ↦ lookup-start_all b ps r (rw ne at h)
]

-- An entry is as it was, or gone.
monitor_miner-keeps :
    (ticks : List Tick) (ps ps' : Participants) (b : Address) (r : Running)
    → monitor_miner ticks ps ≡ returned ps'
    → lookup b ps' ≡ some r
    → lookup b ps ≡ some r
unfolding monitor_miner
monitor_miner-keeps [] ps ps' b r h there = ground (arith, h, there)
monitor_miner-keeps (context_ended ∷ ticks) ps ps' b r h there = ground (arith, h, there)
monitor_miner-keeps (ticked miners (err e) ∷ ticks) ps ps' b r h there =
    monitor_miner-keeps ticks ps ps' b r h there
monitor_miner-keeps (ticked miners (ok listed) ∷ ticks) ps ps' b r h there =
    one_tick (λ ps1 h'. monitor_miner-keeps ticks ps1 ps' b r h' there) (monitor miners listed ps)
      refl h
  where
    one_tick :
        ((ps1 : Participants) → monitor_miner ticks ps1 ≡ returned ps' → lookup b ps1 ≡ some r)
        → (a : Added) → monitor miners listed ps ≡ a
        → (elim a [ returned ps1 ↦ monitor_miner ticks ps1 | panicked ps1 ↦ panicked ps1 ])
          ≡ returned ps'
        → lookup b ps ≡ some r
    one_tick later_ticks (panicked ps1) one h' = cc
    one_tick later_ticks (returned ps1) one h' =
        let kept = later_ticks ps1 h' in
        let done = (monitor-returned miners listed ps ps1 b one).0 in ground (arith, kept, done)

-- After `Start`, as long as `MonitorMiner` has not panicked, every participant in the map is one that
-- was there at `Start`, and it is started.
pub monitor_miner-started :
    (ticks : List Tick) (ps ps' : Participants) (b : Address) (r : Running)
    → monitor_miner ticks (start_all ps) ≡ returned ps'
    → lookup b ps' ≡ some r
    → (r ≡ started) × (lookup b (start_all ps) ≡ some started)
monitor_miner-started ticks ps ps' b r h there =
    let before = monitor_miner-keeps ticks (start_all ps) ps' b r h there in
    let is_started = lookup-start_all b ps r before in (is_started, before ∙ ap some is_started)
