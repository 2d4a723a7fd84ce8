-- ===== src/Node/Options.antt =====
-- node/options.go: the options that change the settings of the node, one after another.
-- A constructor is a value `C` that fx runs; `as` gives it the type that it is for.
use sophon_miner.Config.{check}
use sophon_miner.Prelude.{
  Bool, Eq, List, Option, Result, String, [], arith, err, false, if◌then◌else◌, list_eq,
  nat_beq_iff, nat_eq, none, ok, some, string_eq, suc, true, zero, ℕ, ◌==◌, ◌↔◌, ◌∷◌, ◌≡◌,
}
use sophon_miner.Prelude.Int.{int_eq}
use sophon_miner.Prelude.Maps.{delete, insert}
use sophon_miner.Types.{state_eq}

-- Invokes are called in the order of their positions; a type stands for the value that it has.
pub data TypeKey : Type 0 where
  invoke : ℕ → TypeKey
  special : ℕ → TypeKey
  type_of : String → TypeKey

-- The keys of `modules`: a special key, or a reflect.Type.
pub data ModuleKey : Type 0 where
  by_special : ℕ → ModuleKey
  by_type : String → ModuleKey

abbrev module_key_beq : ModuleKey → ModuleKey → Bool
module_key_beq (by_special a) (by_special b) = a == b
module_key_beq (by_special a) (by_type t) = false
module_key_beq (by_type t) (by_special b) = false
module_key_beq (by_type t) (by_type u) = t == u

pub module_key_beq_iff : (a b : ModuleKey) → (module_key_beq a b ≡ true) ↔ (a ≡ b)
module_key_beq_iff (by_special a) (by_special b) = ground (arith, nat_beq_iff a b)
module_key_beq_iff (by_special a) (by_type t) = ground arith
module_key_beq_iff (by_type t) (by_special b) = ground arith
module_key_beq_iff (by_type t) (by_type u) = ground (arith, string_eq.beq_iff t u)

instance abbrev pub module_key_eq : Eq ModuleKey
module_key_eq = record { beq = module_key_beq; beq_iff = module_key_beq_iff }

pub record Settings (C : Type 0) : Type 0 where
  pub modules : List (ModuleKey × C)
  -- A position is `none` until an option fills it.
  pub invokes : List (Option C)

-- An error leaves the settings as far as they were changed.
abbrev pub NodeOption : Type 0 → Type 0 → Type 0
NodeOption E C = Settings C → Result E (Unit {0}) × Settings C

-- s.invokes[i] = v; past the end it panics, and the positions that are declared are below it.
unfoldable pub set_invoke : {C : Type 0} → ℕ → Option C → List (Option C) → List (Option C)
set_invoke i v [] = []
set_invoke zero v (x ∷ xs) = v ∷ xs
set_invoke (suc i) v (x ∷ xs) = x ∷ set_invoke i v xs

module _ {E C : Type 0} where
  -- One option after another, until one fails.
  and_then : NodeOption E C → Result E (Unit {0}) × Settings C → Result E (Unit {0}) × Settings C
  and_then rest (ok u, s) = rest s
  and_then rest (err e, s) = (err e, s)

  unfoldable pub options : List (NodeOption E C) → NodeOption E C
  unfolding and_then
  options [] s = (ok tt, s)
  options (opt ∷ opts) s = and_then (options opts) (opt s)

  unfoldable pub error_option : E → NodeOption E C
  error_option e s = (err e, s)

  unfoldable pub apply_if : (Settings C → Bool) → List (NodeOption E C) → NodeOption E C
  apply_if check opts s = if check s then options opts s else (ok tt, s)

  unfoldable pub if_option : Bool → List (NodeOption E C) → NodeOption E C
  if_option b opts = apply_if (λ s. b) opts

  unfoldable pub override : TypeKey → C → NodeOption E C
  override (invoke i) c s = (ok tt, record s { invokes = set_invoke i (some c) s.invokes })
  override (special k) c s = (ok tt, record s { modules = insert (by_special k) c s.modules })
  override (type_of t) c s = (ok tt, record s { modules = insert (by_type t) c s.modules })

  unfoldable pub unset : TypeKey → NodeOption E C
  unset (invoke i) s = (ok tt, record s { invokes = set_invoke i none s.invokes })
  unset (special k) s = (ok tt, record s { modules = delete (by_special k) s.modules })
  unset (type_of t) s = (ok tt, record s { modules = delete (by_type t) s.modules })
