-- ===== src/Tests/Miner.antt =====
-- The mining loop and the branches of a reorganisation on small chains.
use sophon_miner.Datastore.Memory.{memory}
use sophon_miner.Journal.Alerting.{alert_type_eq}
use sophon_miner.Journal.Rolling.{journal_file_eq}
use sophon_miner.Miner.{MiningBase, TipSet}
use sophon_miner.Miner.Candidate.{Turn, candidate, chosen, is_stable, latest_base}
use sophon_miner.Miner.Candidate.Laws.{latest_base-stable}
use sophon_miner.Miner.Reorg.{branches, out_of_fuel, reorg_ops}
use sophon_miner.Miner.Reorg.Laws.{Leads, reorg_ops-chains, reorg_ops-ends}
use sophon_miner.Miner.Round.{Loop, mined, repeated, turn_loop}
use sophon_miner.Miner.Round.Laws.{turn_loop-repeats}
use sophon_miner.Node.Options.{module_key_eq}
use sophon_miner.Prelude.{
  Bool, Bool-cases, List, Option, [], arith, if◌then◌else◌, inl, inr, list_eq, nat_eq, none, refl,
  some, string_eq, true, ◌==◌, ◌∷◌, ◌≡◌, ◌≢◌,
}
use sophon_miner.Prelude.Int.{int_beq_iff, int_eq, pos, ◌<ℤ◌, ◌≤ℤ◌}
use sophon_miner.SlashFilter.{SlashFilterApi}
use sophon_miner.SlashFilter.Local.{Key, key_eq, local}
use sophon_miner.Tests.Records.{record_key_eq}
use sophon_miner.Tests.SlashFilter.{codec}
use sophon_miner.Types.{Bytes, state_eq}

abbrev genesis : TipSet
genesis = record { key = 1 ∷ []; height = pos 0; min_timestamp = 0; min_ticket = [] }

abbrev upper : TipSet
upper = record { key = 2 ∷ []; height = pos 1; min_timestamp = 30; min_ticket = [] }

abbrev same_height : TipSet → TipSet → Bool
same_height a b = a.height == b.height

same_height_refl : (t : TipSet) → same_height t t ≡ true
same_height_refl t = (int_beq_iff t.height t.height).1 refl

abbrev good_turn : Turn
good_turn = record { head = some upper; waited = true; beacon = true }

latest_base-stable_example :
    latest_base same_height (good_turn ∷ good_turn ∷ []) none none
    ≡ (chosen (candidate same_height none upper), some (candidate same_height none upper))
latest_base-stable_example =
    latest_base-stable same_height same_height_refl good_turn good_turn [] none none upper refl refl
      refl refl

abbrev base_1 : MiningBase
base_1 = record { tipset = upper; null_rounds = pos 0 }

chooses : (latest_base same_height (good_turn ∷ good_turn ∷ []) none none).0 ≡ chosen base_1
unfolding latest_base is_stable candidate
chooses = refl

abbrev parent : TipSet → Option TipSet
parent t = if t.height == pos 1 then some genesis else none

goes_down : reorg_ops parent same_height 3 upper genesis [] [] ≡ branches (upper ∷ []) []
unfolding reorg_ops
goes_down = refl

reorg_ops-chains_example :
    (x y : TipSet) × (same_height x y ≡ true)
    × Leads parent upper (upper ∷ []) x
    × Leads parent genesis [] y
reorg_ops-chains_example =
    reorg_ops-chains parent same_height 3 upper genesis (upper ∷ []) [] goes_down

parent_lower : (t p : TipSet) → parent t ≡ some p → (pos 0 ≤ℤ p.height) × (p.height <ℤ t.height)
parent_lower t p h = elim (Bool-cases (t.height == pos 1)) [
  | inl e ↦ let at : t.height ≡ pos 1 = (int_beq_iff t.height (pos 1)).0 e in ground arith
  | inr e ↦ ground arith
]

reorg_ops-ends_example : reorg_ops parent same_height 3 upper genesis [] [] ≢ out_of_fuel
reorg_ops-ends_example =
    reorg_ops-ends parent same_height parent_lower 3 upper genesis [] [] (omega arith) (omega arith)
      (omega arith)

abbrev MemStore : Type 0
MemStore = List (Key × Bytes)

abbrev filter : SlashFilterApi MemStore
filter = local codec memory

abbrev at_start : Loop MemStore
at_start = record { last_work = none; last_base = none; filter = [] }

mines_first : (turn_loop filter same_height base_1 (1000 ∷ []) none at_start).0 ≡ mined base_1
unfolding turn_loop
mines_first = refl

turn_loop-repeats_example :
    let l' = (turn_loop filter same_height base_1 (1000 ∷ []) none at_start).1 in
    turn_loop filter same_height (candidate same_height l'.last_work upper) (1000 ∷ []) none l'
    ≡ (repeated base_1, record l' { last_work = some base_1 })
turn_loop-repeats_example =
    turn_loop-repeats filter same_height same_height_refl base_1 base_1 1000 [] (1000 ∷ []) none
      none at_start upper mines_first refl

idle_first : (turn_loop filter same_height base_1 [] none at_start).0 ≡ mined base_1
unfolding turn_loop
idle_first = refl
