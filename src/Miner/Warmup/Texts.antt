-- ===== src/Miner/Warmup/Texts.antt =====
-- miner/warmup.go, `winPoStWarmup`: what the goroutines leave in the set, in whatever order they end.
use mathlib.Core.List.{append-nil, append_assoc}
use sophon_miner.Miner.Manage.{MinerWpp}
use sophon_miner.Miner.Warmup.{WarmupApi, WarmupError, win_post_warmup_for_miner}
use sophon_miner.Miner.Warmup.Goroutines.{goroutine_ends, noted, warmed, win_post_warmup}
use sophon_miner.Prelude.{
  All, Bool, Bool-cases, List, Option, Option-cases, Result, String, [], ap, arith, err, false,
  if◌then◌else◌, inl, inr, list_eq, nat_eq, none, ok, refl, some, string_eq, sym, true, ℕ, ◌++◌,
  ◌==◌, ◌∙◌, ◌∷◌, ◌≡◌, ◌≢◌,
}
use sophon_miner.Prelude.Int.{int_eq}
use sophon_miner.Prelude.Maps.{insert, lookup, lookup-insert}
use sophon_miner.Types.{Address, state_eq}

abbrev with_errors : List String → Option MinerWpp → Option MinerWpp
with_errors texts none = none
with_errors texts (some w) = some (record w { errors = w.errors ++ texts })

with_no_errors : (o : Option MinerWpp) → with_errors [] o ≡ o
with_no_errors none = refl
with_no_errors (some w) = ap (λ texts. some (record w { errors = texts })) (append-nil w.errors)

with_errors_twice :
    (first second : List String) (o : Option MinerWpp)
    → with_errors second (with_errors first o) ≡ with_errors (first ++ second) o
with_errors_twice first second none = refl
with_errors_twice first second (some w) =
    ap (λ texts. some (record w { errors = texts })) (append_assoc w.errors first second)

with_errors-none :
    (texts : List String) (o : Option MinerWpp) → with_errors texts o ≡ none → o ≡ none
with_errors-none texts none h = refl
with_errors-none texts (some w) h = cc

if_append :
    (c : Bool) (first rest : List String)
    → (if c then first else []) ++ rest ≡ (if c then first ++ rest else rest)
if_append true first rest = refl
if_append false first rest = refl

still_there :
    (wpps wpps' : List (Address × MinerWpp)) (texts : Address → List String)
    → ((b : Address) → lookup b wpps' ≡ with_errors (texts b) (lookup b wpps))
    → (order : List Address) → All (λ a. lookup a wpps ≢ none) order
    → All (λ a. lookup a wpps' ≢ none) order
still_there wpps wpps' texts after [] h = tt
still_there wpps wpps' texts after (a ∷ order) (here, there) = (
  (λ gone. here (with_errors-none (texts a) (lookup a wpps) (sym (after a) ∙ gone))),
  still_there wpps wpps' texts after order there,
)

error_added :
    (a b : Address) (text : String) (w : MinerWpp) (wpps : List (Address × MinerWpp))
    → lookup a wpps ≡ some w
    → lookup b (insert a (record w { errors = w.errors ++ text ∷ [] }) wpps)
      ≡ with_errors (if a == b then text ∷ [] else []) (lookup b wpps)
error_added a b text w wpps there = elim (Bool-cases (a == b)) [
  | inl eq ↦
      let q : a ≡ b = (nat_eq.beq_iff a b).0 eq in
      let there_b : lookup b wpps ≡ some w = cc in
      ground
        (arith, eq, there_b, lookup-insert a b (record w { errors = w.errors ++ text ∷ [] }) wpps)
  | inr ne ↦ ground (
    arith,
    ne,
    with_no_errors (lookup b wpps),
    lookup-insert a b (record w { errors = w.errors ++ text ∷ [] }) wpps,
  )
]

module _ (api : WarmupApi) (error_text : WarmupError → String) where
  -- The text of a miner's failed warm-up.
  unfoldable pub failure_of : Result WarmupError (Option ℕ) → List String
  failure_of (ok sector) = []
  failure_of (err e) = error_text e ∷ []

  -- What the goroutines of an address add to its errors.
  unfoldable pub errors_for : Address → List Address → List String
  errors_for b [] = []
  errors_for b (a ∷ order) =
      let rest = errors_for b order in
      if a == b then failure_of (win_post_warmup_for_miner api a) ++ rest else rest

  abbrev Kept : Address → List (Address × MinerWpp) → List (Address × MinerWpp) → Type 0
  Kept a wpps wpps' =
      (b : Address)
      → lookup b wpps'
        ≡ with_errors (if a == b then failure_of (win_post_warmup_for_miner api a) else [])
            (lookup b wpps)

  -- The set after a goroutine with this result.
  abbrev NotedWith : Address → Result WarmupError (Option ℕ) → List (Address × MinerWpp) → Type 0
  NotedWith a r wpps =
      (wpps' : List (Address × MinerWpp)) × (noted api error_text a r wpps ≡ warmed wpps')
      × ((b : Address)
          → lookup b wpps' ≡ with_errors (if a == b then failure_of r else []) (lookup b wpps))

  noted-warmed :
      (a : Address) (r : Result WarmupError (Option ℕ)) (w : MinerWpp)
      (wpps : List (Address × MinerWpp))
      → lookup a wpps ≡ some w
      → NotedWith a r wpps
  unfolding noted failure_of
  noted-warmed a (ok sector) w wpps there =
      (wpps, refl, λ b. ground (arith, with_no_errors (lookup b wpps)))
  noted-warmed a (err e) w wpps there = (
    insert a (record w { errors = w.errors ++ error_text e ∷ [] }) wpps,
    ground (arith, there),
    λ b. error_added a b (error_text e) w wpps there,
  )

  -- Each goroutine finds its miner in the set. Then the warm-up leaves the set with the same miners, and
  -- the errors of each grow by the text of its own failure, whatever the order in which they end.
  pub win_post_warmup-warmed :
      (order : List Address) (wpps : List (Address × MinerWpp))
      → All (λ a. lookup a wpps ≢ none) order
      → (wpps' : List (Address × MinerWpp)) × (win_post_warmup api error_text order wpps
          ≡ warmed wpps')
        × ((b : Address) → lookup b wpps' ≡ with_errors (errors_for b order) (lookup b wpps))
  unfolding win_post_warmup goroutine_ends errors_for
  win_post_warmup-warmed [] wpps there = (wpps, refl, λ b. sym (with_no_errors (lookup b wpps)))
  win_post_warmup-warmed (a ∷ order) wpps (here, there) = elim (Option-cases (lookup a wpps)) [
    | inl absent ↦ absurd (here absent)
    | inr (w, found_wpp) ↦
        let (wpps1, one, after) =
          noted-warmed a (win_post_warmup_for_miner api a) w wpps found_wpp in
        let first : Address → List String =
          λ b. if a == b then failure_of (win_post_warmup_for_miner api a) else [] in
        let (wpps2, later, end) =
          win_post_warmup-warmed order wpps1 (still_there wpps wpps1 first after order there) in
        (
          wpps2,
          rw (win_post_warmup, goroutine_ends, one) later,
          λ b.
              end b
              ∙ ap (with_errors (errors_for b order)) (after b)
              ∙ with_errors_twice (first b) (errors_for b order) (lookup b wpps)
              ∙ ap (λ texts. with_errors texts (lookup b wpps))
                  (if_append (a == b) (failure_of (win_post_warmup_for_miner api a))
                    (errors_for b order)),
        )
  ]
