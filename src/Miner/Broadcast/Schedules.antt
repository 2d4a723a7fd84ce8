-- ===== src/Miner/Broadcast/Schedules.antt =====
-- miner/multiminer.go, `broadCastBlock`: what holds under every schedule of the broadcasts.
use sophon_miner.Miner.{MiningBase}
use sophon_miner.Miner.Broadcast.{SubmitAnswers, is_submitted}
use sophon_miner.Miner.Broadcast.Interleaved.{
  Progress, Task, allowed, answered_by, asked, ended_with, next_call, no_block, refusing, run_at,
  run_schedule, step_task, waiting_turn,
}
use sophon_miner.Miner.Manage.{start}
use sophon_miner.Prelude.{
  All, Bool, List, Result, [], err, false, none, ok, refl, suc, true, zero, ℕ, ◌∷◌, ◌≡◌,
}
use sophon_miner.SlashFilter.{FilterError, Guards, SlashFilterApi}
use sophon_miner.Types.{Address, BlockHeader, ChainEpoch, error, success}

module _ {S : Type 0} (sf : SlashFilterApi S) (g : Guards sf) where
  -- A task that has not begun, or that ended without a submission.
  abbrev pub IsBarred : Progress → Type 0
  IsBarred waiting_turn = Unit {0}
  IsBarred (ended_with outcome) = is_submitted outcome ≡ false
  IsBarred _ = ⊥

  pub next_call-keeps :
      (base : MiningBase) (bh : BlockHeader) (answers : SubmitAnswers) (s : S) (p : Progress)
      (m : Address) (h : ChainEpoch)
      → g.taken s m h ≡ true
      → g.taken (next_call sf base bh answers s p).1 m h ≡ true
  unfolding next_call
  next_call-keeps base bh answers s waiting_turn m h t = t
  next_call-keeps base bh answers s no_block m h t = t
  next_call-keeps base bh answers s (refusing e) m h t = g.put_keeps s bh _ none error m h t
  next_call-keeps base bh answers s allowed m h t = t
  next_call-keeps base bh answers s (answered_by true) m h t = g.put_keeps s bh _ none success m h t
  next_call-keeps base bh answers s (answered_by false) m h t = g.put_keeps s bh _ none error m h t
  next_call-keeps base bh answers s (ended_with outcome) m h t = t

  asked-IsBarred :
      (s : S) (bh : BlockHeader) (r : Result FilterError Bool)
      → sf.has_block s bh ≡ r
      → g.taken s bh.miner bh.height ≡ true
      → IsBarred (asked sf r)
  unfolding asked
  asked-IsBarred s bh (err e) q t = refl
  asked-IsBarred s bh (ok true) q t = refl
  asked-IsBarred s bh (ok false) q t = let known = g.has_taken s bh false q in cc

  pub next_call-IsBarred :
      (base : MiningBase) (bh : BlockHeader) (answers : SubmitAnswers) (s : S) (p : Progress)
      → g.taken s bh.miner bh.height ≡ true
      → IsBarred p
      → IsBarred (next_call sf base bh answers s p).0
  unfolding next_call
  next_call-IsBarred base bh answers s waiting_turn t b =
      asked-IsBarred s bh (sf.has_block s bh) refl t
  next_call-IsBarred base bh answers s (ended_with outcome) t b = b
  next_call-IsBarred base bh answers s no_block t b = elim b [ ]
  next_call-IsBarred base bh answers s allowed t b = elim b [ ]
  next_call-IsBarred base bh answers s (refusing e) t b = elim b [ ]
  next_call-IsBarred base bh answers s (answered_by x) t b = elim b [ ]

  -- The tasks whose height is taken are barred.
  abbrev pub AreBarred : S → List Task → Type 0
  AreBarred s tasks =
      All (λ t. g.taken s t.header.miner t.header.height ≡ true → IsBarred t.progress) tasks

  run_at-AreBarred :
      (start s : S) (i : ℕ) (tasks : List Task)
      → ((m : Address) (h : ChainEpoch) → g.taken start m h ≡ true → g.taken s m h ≡ true)
      → AreBarred start tasks
      → AreBarred start (run_at sf i tasks s).0
        × ((m : Address) (h : ChainEpoch)
            → g.taken start m h ≡ true
            → g.taken (run_at sf i tasks s).1 m h ≡ true)
  unfolding run_at step_task
  run_at-AreBarred start s i [] keeps b = (tt, keeps)
  run_at-AreBarred start s zero (t ∷ tasks) keeps b = (
    (
      (λ held.
          next_call-IsBarred t.base t.header t.answers s t.progress (keeps _ _ held) (b.0 held)),
      b.1,
    ),
    λ m h held. next_call-keeps t.base t.header t.answers s t.progress m h (keeps m h held),
  )
  run_at-AreBarred start s (suc i) (t ∷ tasks) keeps b =
      let (rest, later) = run_at-AreBarred start s i tasks keeps b.1 in ((b.0, rest), later)

  -- However the broadcasts interleave, a block whose height was taken before they began is not
  -- submitted: it ends otherwise, or has not begun.
  pub run_schedule-AreBarred :
      (schedule : List ℕ) (start s : S) (tasks : List Task)
      → ((m : Address) (h : ChainEpoch) → g.taken start m h ≡ true → g.taken s m h ≡ true)
      → AreBarred start tasks
      → AreBarred start (run_schedule sf schedule tasks s).0
  unfolding run_schedule
  run_schedule-AreBarred [] start s tasks keeps b = b
  run_schedule-AreBarred (i ∷ rest) start s tasks keeps b =
      let (barred, later) = run_at-AreBarred start s i tasks keeps b in
      run_schedule-AreBarred rest start (run_at sf i tasks s).1 (run_at sf i tasks s).0 later barred
