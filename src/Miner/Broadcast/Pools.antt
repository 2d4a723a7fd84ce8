-- ===== src/Miner/Broadcast/Pools.antt =====
-- miner/multiminer.go, `mine` and `broadCastBlock`: broadcasts that start at any time, while others
-- run.
use sophon_miner.Miner.{MiningBase}
use sophon_miner.Miner.Broadcast.{SubmitAnswers}
use sophon_miner.Miner.Broadcast.Agreement.{Agrees, IsSafe, is_over, run_at-IsSafe, same_or_Apart}
use sophon_miner.Miner.Broadcast.Interleaved.{
  PoolEvent, Progress, Task, allowed, answered_by, ended_with, is_out, no_block, refusing, run_at,
  run_pool, spawns, step_pool, steps, submitted_headers, waiting_turn,
}
use sophon_miner.Miner.Broadcast.Safety.{Apart, PairwiseApart}
use sophon_miner.Miner.Broadcast.Schedules.{IsBarred}
use sophon_miner.Prelude.{
  All, Bool-cases, List, [], false, inl, inr, none, ok, refl, true, ◌∷◌, ◌≡◌, ◌≢◌, ◌⊎◌,
}
use sophon_miner.SlashFilter.{Guards, SlashFilterApi}
use sophon_miner.SlashFilter.Local.Guard.{taken}
use sophon_miner.Types.{BlockHeader, ChainEpoch, Time, success}

-- A new broadcast meets no running one of its miner at its height.
abbrev pub MeetsNone : BlockHeader → List Task → Type 0
MeetsNone bh tasks = All (λ t. Apart bh t.header ⊎ (is_over t.progress ≡ true)) tasks

module _ {S : Type 0} (sf : SlashFilterApi S) (g : Guards sf)
    (records : (s : S) (bh : BlockHeader) (parent_epoch : ChainEpoch) (t : Time)
      → (sf.put_block s bh parent_epoch t success).0 ≡ ok tt) where
  -- Along a run, no broadcast starts while one of the same miner and height runs, and every block has
  -- a ticket.
  abbrev pub NoOverlap : List PoolEvent → List Task × S → Type 0
  NoOverlap [] pool = Unit {0}
  NoOverlap (spawns base bh answers ∷ events) pool =
      MeetsNone bh pool.0
      × (bh.ticket ≢ none)
      × NoOverlap events (step_pool sf (spawns base bh answers) pool)
  NoOverlap (steps i ∷ events) pool = NoOverlap events (step_pool sf (steps i) pool)

  pub spawned-Agrees :
      (base : MiningBase) (bh : BlockHeader) (answers : SubmitAnswers) (tasks : List Task)
      → MeetsNone bh tasks
      → All
          (Agrees sf g records
            (record { base = base; header = bh; answers = answers; progress = waiting_turn }))
          tasks
  spawned-Agrees base bh answers [] h = tt
  spawned-Agrees base bh answers (u ∷ tasks) (inl apart, rest) =
      (inl apart, spawned-Agrees base bh answers tasks rest)
  spawned-Agrees base bh answers (u ∷ tasks) (inr over, rest) = (
    elim (Bool-cases (is_out u.progress)) [
      | inl out ↦ elim (same_or_Apart bh u.header) [
        | inl same ↦ inr (inr (same, out, tt))
        | inr apart ↦ inl apart
      ]
      | inr kept ↦ inr (inl (over, kept))
    ],
    spawned-Agrees base bh answers tasks rest,
  )

  run_pool-IsSafe :
      (events : List PoolEvent) (tasks : List Task) (s : S)
      → NoOverlap events (tasks, s)
      → IsSafe sf g records tasks s
      → IsSafe sf g records (run_pool sf events (tasks, s)).0 (run_pool sf events (tasks, s)).1
  unfolding run_pool step_pool
  run_pool-IsSafe [] tasks s n h = h
  run_pool-IsSafe (spawns base bh answers ∷ events) tasks s (meets, ticket, n) h =
      run_pool-IsSafe events _ s n
        (spawned-Agrees base bh answers tasks meets, ((λ out. cc), ticket), h)
  run_pool-IsSafe (steps i ∷ events) tasks s n h =
      run_pool-IsSafe events (run_at sf i tasks s).0 (run_at sf i tasks s).1 n
        (run_at-IsSafe sf g records i tasks s h)

  barred_in : (p : Progress) → IsBarred sf g p → is_out p ≡ false
  barred_in waiting_turn h = refl
  barred_in (ended_with outcome) h = h
  barred_in no_block h = elim h [ ]
  barred_in allowed h = elim h [ ]
  barred_in (refusing e) h = elim h [ ]
  barred_in (answered_by b) h = elim h [ ]

  out-Apart :
      (t : Task) (tasks : List Task)
      → is_out t.progress ≡ true
      → All (Agrees sf g records t) tasks
      → All (Apart t.header) (submitted_headers tasks)
  unfolding submitted_headers
  out-Apart t [] out h = tt
  out-Apart t (u ∷ tasks) out h = elim (Bool-cases (is_out u.progress)) [
    | inr kept ↦ rw kept (out-Apart t tasks out h.1)
    | inl both ↦ rw both (at_once h.0 both, out-Apart t tasks out h.1)
  ]
    where
      at_once : Agrees sf g records t u → is_out u.progress ≡ true → Apart t.header u.header
      at_once (inl apart) both = apart
      at_once (inr (inl (over, kept))) both = cc
      at_once (inr (inr (height, gone, barred))) both = let kept = barred_in t.progress barred in cc

  pub IsSafe-PairwiseApart :
      (tasks : List Task) (s : S)
      → IsSafe sf g records tasks s
      → PairwiseApart (submitted_headers tasks)
  unfolding submitted_headers
  IsSafe-PairwiseApart [] s h = tt
  IsSafe-PairwiseApart (t ∷ tasks) s (agrees, taken, rest) = elim (Bool-cases (is_out t.progress)) [
    | inl out ↦ rw out (out-Apart t tasks out agrees, IsSafe-PairwiseApart tasks s rest)
    | inr kept ↦ rw kept (IsSafe-PairwiseApart tasks s rest)
  ]

  -- Broadcasts start at any time and their calls interleave in any order. Where none starts while one
  -- of the same miner and height runs, the submitted blocks are for pairwise different heights of
  -- their miners. It supposes that each block has a ticket, and that the filter records each mined
  -- block without an error.
  pub run_pool_apart :
      (events : List PoolEvent) (s : S)
      → NoOverlap events ([], s)
      → PairwiseApart (submitted_headers (run_pool sf events ([], s)).0)
  run_pool_apart events s n =
      IsSafe-PairwiseApart _ (run_pool sf events ([], s)).1 (run_pool-IsSafe events [] s n tt)
