-- ===== src/Miner/Broadcast/Agreement.antt =====
-- miner/multiminer.go, `broadCastBlock`: what two broadcasts, one older than the other, agree on
-- while both run.
use sophon_miner.Miner.{MiningBase, parent_height}
use sophon_miner.Miner.Broadcast.{SubmitAnswers}
use sophon_miner.Miner.Broadcast.Interleaved.{
  Progress, Task, allowed, answered_by, asked, ended_with, is_out, judged, next_call, no_block,
  refusing, run_at, step_task, waiting_turn,
}
use sophon_miner.Miner.Broadcast.Safety.{Apart}
use sophon_miner.Miner.Broadcast.Schedules.{IsBarred, next_call-IsBarred, next_call-keeps}
use sophon_miner.Prelude.{
  All, Bool, Bool-cases, List, Result, [], arith, err, false, inl, inr, list_eq, nat_beq_iff,
  nat_eq, none, ok, refl, string_eq, suc, true, zero, ℕ, ◌&&◌, ◌==◌, ◌∷◌, ◌≡◌, ◌≢◌, ◌⊎◌,
}
use sophon_miner.Prelude.Int.{int_eq}
use sophon_miner.SlashFilter.{FilterError, Guards, SlashFilterApi}
use sophon_miner.SlashFilter.Local.Guard.{taken}
use sophon_miner.Types.{Address, BlockHeader, ChainEpoch, Time, state_eq, success}

abbrev pub is_over : Progress → Bool
is_over (ended_with outcome) = true
is_over _ = false

abbrev pub SameHeight : BlockHeader → BlockHeader → Type 0
SameHeight a b = (a.miner ≡ b.miner) × (a.height ≡ b.height)

pub same_or_Apart : (a b : BlockHeader) → SameHeight a b ⊎ Apart a b
same_or_Apart a b = elim (Bool-cases (a.miner == b.miner && a.height == b.height)) [
  | inl same ↦ inl (ground (arith, nat_beq_iff a.miner b.miner, int_eq.beq_iff a.height b.height))
  | inr other ↦
      inr
        λ e. ground (arith, nat_beq_iff a.miner b.miner, int_eq.beq_iff a.height b.height, e.0, e.1)
]

module _ {S : Type 0} (sf : SlashFilterApi S) (g : Guards sf)
    (records : (s : S) (bh : BlockHeader) (parent_epoch : ChainEpoch) (t : Time)
      → (sf.put_block s bh parent_epoch t success).0 ≡ ok tt) where
  -- A task, with the tasks that are older than it: the headers differ, or the older one ended without
  -- a submission, or it was submitted and the newer one is barred.
  abbrev pub Agrees : Task → Task → Type 0
  Agrees t u =
      Apart t.header u.header
      ⊎ ((is_over u.progress ≡ true) × (is_out u.progress ≡ false))
      ⊎ (SameHeight t.header u.header × (is_out u.progress ≡ true) × IsBarred sf g t.progress)

  -- A task that is out has taken its height; every block has a ticket.
  abbrev pub HasTaken : S → Task → Type 0
  HasTaken s t =
      (is_out t.progress ≡ true → g.taken s t.header.miner t.header.height ≡ true)
      × (t.header.ticket ≢ none)

  abbrev pub IsSafe : List Task → S → Type 0
  IsSafe [] s = Unit {0}
  IsSafe (t ∷ tasks) s = All (Agrees t) tasks × HasTaken s t × IsSafe tasks s

  abbrev Grows : S → S → Type 0
  Grows s s' = (m : Address) (h : ChainEpoch) → g.taken s m h ≡ true → g.taken s' m h ≡ true

  next_call-over :
      (base : MiningBase) (bh : BlockHeader) (answers : SubmitAnswers) (s : S) (p : Progress)
      → is_over p ≡ true
      → (next_call sf base bh answers s p).0 ≡ p
  unfolding next_call
  next_call-over base bh answers s (ended_with outcome) h = refl
  next_call-over base bh answers s waiting_turn h = cc
  next_call-over base bh answers s no_block h = cc
  next_call-over base bh answers s allowed h = cc
  next_call-over base bh answers s (refusing e) h = cc
  next_call-over base bh answers s (answered_by b) h = cc

  out-over : (p : Progress) → is_out p ≡ true → is_over p ≡ true
  out-over (ended_with outcome) h = refl
  out-over waiting_turn h = cc
  out-over no_block h = cc
  out-over allowed h = cc
  out-over (refusing e) h = cc
  out-over (answered_by b) h = cc

  -- A call that puts a block out takes its height.
  asked-in : (r : Result FilterError Bool) → is_out (asked sf r) ≡ false
  unfolding asked
  asked-in (ok true) = refl
  asked-in (ok false) = refl
  asked-in (err e) = refl

  judged-in : (r : Result FilterError (Unit {0})) → is_out (judged sf r) ≡ false
  unfolding judged
  judged-in (ok u) = refl
  judged-in (err e) = refl

  next_call-HasTaken :
      (base : MiningBase) (bh : BlockHeader) (answers : SubmitAnswers) (s : S) (p : Progress)
      → (is_out p ≡ true → g.taken s bh.miner bh.height ≡ true)
      → bh.ticket ≢ none
      → is_out (next_call sf base bh answers s p).0 ≡ true
      → g.taken (next_call sf base bh answers s p).1 bh.miner bh.height ≡ true
  unfolding next_call
  next_call-HasTaken base bh answers s waiting_turn old ticket out =
      let kept = asked-in (sf.has_block s bh) in cc
  next_call-HasTaken base bh answers s no_block old ticket out =
      let kept = judged-in (sf.mined_block s bh base.tipset.height) in cc
  next_call-HasTaken base bh answers s allowed old ticket out = cc
  next_call-HasTaken base bh answers s (refusing e) old ticket out = cc
  next_call-HasTaken base bh answers s (answered_by true) old ticket out =
      g.put_takes s bh (parent_height base) none ticket (records s bh (parent_height base) none)
  next_call-HasTaken base bh answers s (answered_by false) old ticket out = cc
  next_call-HasTaken base bh answers s (ended_with outcome) old ticket out = old out

  step_task-header : (t : Task) (s : S) → (step_task sf t s).0.header ≡ t.header
  unfolding step_task
  step_task-header t s = refl

  step_task-Grows : (t : Task) (s : S) → Grows s (step_task sf t s).1
  unfolding step_task
  step_task-Grows t s m h held =
      next_call-keeps sf g t.base t.header t.answers s t.progress m h held

  step_task-HasTaken :
      (t : Task) (s : S) → HasTaken s t → HasTaken (step_task sf t s).1 (step_task sf t s).0
  unfolding step_task
  step_task-HasTaken t s h =
      (next_call-HasTaken t.base t.header t.answers s t.progress h.0 h.1, h.1)

  -- The older task moves.
  older-Agrees : (t u : Task) (s : S) → Agrees t u → Agrees t (step_task sf u s).0
  unfolding step_task
  older-Agrees t u s (inl apart) = inl apart
  older-Agrees t u s (inr (inl (over, kept))) =
      let same = next_call-over u.base u.header u.answers s u.progress over in
      inr (inl (rw same over, rw same kept))
  older-Agrees t u s (inr (inr (height, out, barred))) =
      let same = next_call-over u.base u.header u.answers s u.progress (out-over u.progress out) in
      inr (inr (height, rw same out, barred))

  -- The newer task moves.
  newer-Agrees : (t u : Task) (s : S) → HasTaken s u → Agrees t u → Agrees (step_task sf t s).0 u
  unfolding step_task
  newer-Agrees t u s taken (inl apart) = inl apart
  newer-Agrees t u s taken (inr (inl kept)) = inr (inl kept)
  newer-Agrees t u s taken (inr (inr (height, out, barred))) =
      let held : g.taken s t.header.miner t.header.height ≡ true =
        rw (height.0, height.1) (taken.0 out) in
      inr (
        inr
          (height, out, next_call-IsBarred sf g t.base t.header t.answers s t.progress held barred))

  All-newer :
      (t : Task) (tasks : List Task) (s : S)
      → IsSafe tasks s
      → All (Agrees t) tasks
      → All (Agrees (step_task sf t s).0) tasks
  All-newer t [] s safe h = tt
  All-newer t (u ∷ tasks) s (agrees, taken, rest) h =
      (newer-Agrees t u s taken h.0, All-newer t tasks s rest h.1)

  pub IsSafe-Grows : (tasks : List Task) (s s' : S) → Grows s s' → IsSafe tasks s → IsSafe tasks s'
  IsSafe-Grows [] s s' grows h = tt
  IsSafe-Grows (t ∷ tasks) s s' grows (agrees, taken, rest) = (
    agrees,
    ((λ out. grows t.header.miner t.header.height (taken.0 out)), taken.1),
    IsSafe-Grows tasks s s' grows rest,
  )

  run_at-Agrees :
      (t : Task) (i : ℕ) (tasks : List Task) (s : S)
      → All (Agrees t) tasks
      → All (Agrees t) (run_at sf i tasks s).0
  unfolding run_at
  run_at-Agrees t i [] s h = tt
  run_at-Agrees t zero (u ∷ tasks) s h = (older-Agrees t u s h.0, h.1)
  run_at-Agrees t (suc i) (u ∷ tasks) s h = (h.0, run_at-Agrees t i tasks s h.1)

  run_at-Grows : (i : ℕ) (tasks : List Task) (s : S) → Grows s (run_at sf i tasks s).1
  unfolding run_at
  run_at-Grows i [] s = λ m h held. held
  run_at-Grows zero (t ∷ tasks) s = step_task-Grows t s
  run_at-Grows (suc i) (t ∷ tasks) s = run_at-Grows i tasks s

  pub run_at-IsSafe :
      (i : ℕ) (tasks : List Task) (s : S)
      → IsSafe tasks s
      → IsSafe (run_at sf i tasks s).0 (run_at sf i tasks s).1
  unfolding run_at
  run_at-IsSafe i [] s h = tt
  run_at-IsSafe zero (t ∷ tasks) s (agrees, taken, rest) = (
    All-newer t tasks s rest agrees,
    step_task-HasTaken t s taken,
    IsSafe-Grows tasks s (step_task sf t s).1 (step_task-Grows t s) rest,
  )
  run_at-IsSafe (suc i) (t ∷ tasks) s (agrees, taken, rest) = (
    run_at-Agrees t i tasks s agrees,
    ((λ out. run_at-Grows i tasks s t.header.miner t.header.height (taken.0 out)), taken.1),
    run_at-IsSafe i tasks s rest,
  )
