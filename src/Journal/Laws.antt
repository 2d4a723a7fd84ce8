-- ===== src/Journal/Laws.antt =====
-- lib/journal/registry.go: which types of events are enabled.
-- Once a key is in the registry it stays as it is.
use sophon_miner.Journal.{
  EventType, Registry, event_key, is_enabled, new_event_type_registry, register_all,
  register_event_type, register_found, suppressed,
}
use sophon_miner.Prelude.{
  Any, Bool-cases, List, Option, String, [], false, inl, inr, none, refl, some, string_eq, true,
  ◌==◌, ◌∷◌, ◌≡◌,
}
use sophon_miner.Prelude.Maps.{lookup, lookup-insert, lookup-insert_self}

register-keeps :
    (system event k : String) (m : Registry) (et : EventType)
    → lookup k m ≡ some et
    → lookup k (register_event_type system event m).1 ≡ some et
unfolding register_event_type
register-keeps system event k m et h = kept (lookup (event_key system event) m) refl
  where
    kept :
        (o : Option EventType)
        → lookup (event_key system event) m ≡ o
        → lookup k (register_found system event o m).1 ≡ some et
    kept (some x) q = h
    kept none q =
        rw
          (lookup-insert (event_key system event) k
            (record { system = system; event = event; enabled = true; safe = true }) m)
          (elim (Bool-cases (event_key system event == k)) [
            | inl e ↦
                let same : event_key system event ≡ k = (string_eq.beq_iff _ k).0 e in
                let missing : lookup k m ≡ none = rw same at q in cc
            | inr e ↦ rw e h
          ])

register_all-keeps :
    (names : List (String × String)) (k : String) (m : Registry) (et : EventType)
    → lookup k m ≡ some et
    → lookup k (register_all names m) ≡ some et
unfolding register_all
register_all-keeps [] k m et h = h
register_all-keeps ((system, event) ∷ names) k m et h =
    register_all-keeps names k _ et (register-keeps system event k m et h)

abbrev pub HasKey : String → List EventType → Type 0
HasKey k disabled = Any (λ et. event_key et.system et.event ≡ k) disabled

-- Every type in a registry of disabled events alone is suppressed.
abbrev AllOff : Registry → String → Type 0
AllOff m k = (et : EventType) × (lookup k m ≡ some et) × (is_enabled et ≡ false)

new_registry-keeps :
    (disabled : List EventType) (m : Registry) (k : String)
    → AllOff m k
    → AllOff (new_event_type_registry disabled m) k
unfolding new_event_type_registry
new_registry-keeps [] m k off = off
new_registry-keeps (et ∷ disabled) m k off = new_registry-keeps disabled _ k (
    rw (lookup-insert (event_key et.system et.event) k (suppressed et) m)
      (elim (Bool-cases (event_key et.system et.event == k)) [
        | inl e ↦ (suppressed et, rw e refl, refl)
        | inr e ↦ rw e off
      ]))

new_registry-off :
    (disabled : List EventType) (m : Registry) (k : String)
    → HasKey k disabled
    → AllOff (new_event_type_registry disabled m) k
unfolding new_event_type_registry
new_registry-off [] m k x = elim x [ ]
new_registry-off (et ∷ disabled) m k (inl here) =
    new_registry-keeps disabled _ k
      (suppressed et, rw (← here) (lookup-insert_self _ (suppressed et) m), refl)
new_registry-off (et ∷ disabled) m k (inr there) = new_registry-off disabled _ k there

-- An event that is disabled when the journal is made stays disabled: whatever was registered before,
-- registering it gives a type that is not enabled.
pub disabled_stays :
    (disabled : List EventType) (names : List (String × String)) (system event : String)
    → HasKey (event_key system event) disabled
    → is_enabled
        (register_event_type system event
          (register_all names (new_event_type_registry disabled []))).0
      ≡ false
unfolding register_event_type
disabled_stays disabled names system event listed =
    let (et, held, off) = new_registry-off disabled [] (event_key system event) listed in
    rw (register_all-keeps names (event_key system event) _ et held) off
