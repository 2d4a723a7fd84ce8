-- ===== src/Journal/Queue/Laws.antt =====
-- lib/journal/fsjournal/fs.go: what the files hold of the events that were sent.
use mathlib.Core.List.{append-nil, append_assoc}
use sophon_miner.Journal.{EventType, is_enabled}
use sophon_miner.Journal.Queue.{
  Entry, QueueStep, Supplied, Tracked, capacity, close, closing, end_loop, gives, opened_queue,
  panics, record_event, recording, run_steps, run_turn, send, step_queue, take_next, turning,
}
use sophon_miner.Journal.Rolling.{Answers, FsJournal, put_event}
use sophon_miner.Prelude.{
  Bool, Bool-cases, List, [], ap, arith, false, inl, inr, length, length-append, ltb, ltb→lt, map,
  refl, sym, true, ◌&&◌, ◌++◌, ◌∙◌, ◌∷◌, ◌≡◌, ◌≤◌,
}

-- The events that were taken, put one after another.
abbrev pub put_taken : List (Answers × Entry) → FsJournal → FsJournal
put_taken [] f = f
put_taken ((ans, e) ∷ rest) f = put_taken rest (put_event ans e.json f).1

put_taken-append :
    (xs : List (Answers × Entry)) (ans : Answers) (e : Entry) (f : FsJournal)
    → put_taken (xs ++ (ans, e) ∷ []) f ≡ (put_event ans e.json (put_taken xs f)).1
put_taken-append [] ans e f = refl
put_taken-append ((b, d) ∷ xs) ans e f = put_taken-append xs ans e (put_event b d.json f).1

-- The events that were sent are those that were taken and those that wait, in that order; the files
-- are what putting the taken ones makes; no more wait than the channel holds.
pub record IsFaithful (f : FsJournal) (t : Tracked) : Type 0 where
  pub in_order : t.sent ≡ map (λ (x : Answers × Entry). x.1) t.taken ++ t.queue.incoming
  pub files_put : t.queue.journal.files ≡ (put_taken t.taken f).files
  pub running : t.queue.is_closed ≡ false → t.queue.journal ≡ put_taken t.taken f
  pub bounded : length t.queue.incoming ≤ capacity
  pub closed_after : t.queue.is_closed ≡ true → t.queue.is_closing ≡ true

append_one {ℓ} : {A : Type ℓ} (xs ys : List A) (a : A) → (xs ++ ys) ++ a ∷ [] ≡ xs ++ (ys ++ a ∷ [])
append_one [] ys a = refl
append_one (x ∷ xs) ys a = ap (λ zs. x ∷ zs) (append_one xs ys a)

map_append_one :
    (xs : List (Answers × Entry)) (ans : Answers) (e : Entry) (rest : List Entry)
    → map (λ (x : Answers × Entry). x.1) xs ++ e ∷ rest
      ≡ map (λ (x : Answers × Entry). x.1) (xs ++ (ans, e) ∷ []) ++ rest
map_append_one [] ans e rest = refl
map_append_one ((b, d) ∷ xs) ans e rest = ap (λ zs. d ∷ zs) (map_append_one xs ans e rest)

module _ (f : FsJournal) where
  send-IsFaithful :
      (e : Entry) (prefers_closing : Bool) (t : Tracked)
      → IsFaithful f t
      → IsFaithful f (send e prefers_closing t)
  unfolding send
  send-IsFaithful e prefers_closing t h =
      elim (Bool-cases (t.queue.is_closing && prefers_closing)) [
        | inl left ↦ rw left h
        | inr stays ↦ elim (Bool-cases (ltb (length t.queue.incoming) capacity)) [
          | inl room ↦
              rw (stays, room)
                (record {
                  in_order = ap (λ s. s ++ e ∷ []) h.in_order ∙ append_one _ t.queue.incoming e;
                  files_put = h.files_put;
                  running = h.running;
                  bounded = omega (arith, length-append t.queue.incoming (e ∷ []), ltb→lt _ _ room);
                  closed_after = h.closed_after;
                })
          | inr full ↦ rw (stays, full) h
        ]
      ]

  record_event-IsFaithful :
      (et : EventType) (s : Supplied) (prefers_closing : Bool) (t : Tracked)
      → IsFaithful f t
      → IsFaithful f (record_event et s prefers_closing t)
  unfolding record_event
  record_event-IsFaithful et panics prefers_closing t h = h
  record_event-IsFaithful et (gives json) prefers_closing t h = elim (Bool-cases (is_enabled et)) [
    | inl enabled ↦ rw enabled (send-IsFaithful _ prefers_closing t h)
    | inr disabled ↦ rw disabled h
  ]

  take_next-IsFaithful :
      (ans : Answers) (waiting : List Entry) (t : Tracked)
      → t.queue.incoming ≡ waiting
      → t.queue.is_closed ≡ false
      → IsFaithful f t
      → IsFaithful f (take_next ans waiting t)
  unfolding take_next
  take_next-IsFaithful ans [] t q alive h = h
  take_next-IsFaithful ans (e ∷ rest) t q alive h =
      let put : (put_event ans e.json t.queue.journal).1 ≡ put_taken (t.taken ++ (ans, e) ∷ []) f =
        ap (λ j. (put_event ans e.json j).1) (h.running alive)
        ∙ sym (put_taken-append t.taken ans e f) in
      record {
        in_order =
            h.in_order
            ∙ ap (λ w. map (λ (x : Answers × Entry). x.1) t.taken ++ w) q
            ∙ map_append_one t.taken ans e rest;
        files_put = ap (λ (j : FsJournal). j.files) put;
        running = λ c. put;
        bounded = omega (arith, ap length q, h.bounded);
        closed_after = λ c. cc;
      }

  run_turn-IsFaithful :
      (ans : Answers) (prefers_closing : Bool) (t : Tracked)
      → IsFaithful f t
      → IsFaithful f (run_turn ans prefers_closing t)
  unfolding run_turn end_loop
  run_turn-IsFaithful ans prefers_closing t h = elim (Bool-cases t.queue.is_closed) [
    | inl gone ↦ simp gone h
    | inr alive ↦ elim (Bool-cases (t.queue.is_closing && prefers_closing)) [
      | inl ends ↦
          simp (alive, ends)
            (record {
              in_order = h.in_order;
              files_put = h.files_put;
              running = λ c. cc;
              bounded = h.bounded;
              closed_after = λ c. ground arith;
            })
      | inr goes_on ↦
          simp (alive, goes_on) (take_next-IsFaithful ans t.queue.incoming t refl alive h)
    ]
  ]

  step_queue-IsFaithful :
      (s : QueueStep) (t : Tracked) → IsFaithful f t → IsFaithful f (step_queue s t)
  unfolding step_queue close
  step_queue-IsFaithful (recording et s p) t h = record_event-IsFaithful et s p t h
  step_queue-IsFaithful (turning ans p) t h = run_turn-IsFaithful ans p t h
  step_queue-IsFaithful closing t h = record {
    in_order = h.in_order;
    files_put = h.files_put;
    running = h.running;
    bounded = h.bounded;
    closed_after = λ c. refl;
  }

  from-IsFaithful :
      (steps : List QueueStep) (t : Tracked) → IsFaithful f t → IsFaithful f (run_steps steps t)
  unfolding run_steps
  from-IsFaithful [] t h = h
  from-IsFaithful (s ∷ steps) t h =
      from-IsFaithful steps (step_queue s t) (step_queue-IsFaithful s t h)

  -- However callers, goroutine and `Close` interleave, from an opened journal on: the events that were
  -- sent are those that were taken and those that wait, in their order; the files are what putting the
  -- taken ones makes; at most 32 wait; and the goroutine has ended only where `Close` was called.
  pub run_steps-IsFaithful :
      (steps : List QueueStep) → IsFaithful f (run_steps steps (opened_queue f))
  run_steps-IsFaithful steps = from-IsFaithful steps (opened_queue f) (record {
    in_order = refl;
    files_put = refl;
    running = λ c. refl;
    bounded = omega arith;
    closed_after = λ c. cc;
  })

-- Nothing more is taken, and the journal is as it was.
pub record IsOver (t t' : Tracked) : Type 0 where
  pub closed_still : t'.queue.is_closed ≡ true
  pub same_journal : t'.queue.journal ≡ t.queue.journal
  pub same_taken : t'.taken ≡ t.taken
  pub waiting : (rest : List Entry) × (t'.queue.incoming ≡ t.queue.incoming ++ rest)

quiet-IsOver : (t : Tracked) → t.queue.is_closed ≡ true → IsOver t t
quiet-IsOver t h = record {
  closed_still = h;
  same_journal = refl;
  same_taken = refl;
  waiting = ([], sym (append-nil t.queue.incoming));
}

send-IsOver :
    (e : Entry) (prefers_closing : Bool) (t : Tracked)
    → t.queue.is_closed ≡ true
    → IsOver t (send e prefers_closing t)
unfolding send
send-IsOver e prefers_closing t h = elim (Bool-cases (t.queue.is_closing && prefers_closing)) [
  | inl gone ↦ rw gone (quiet-IsOver t h)
  | inr stays ↦ elim (Bool-cases (ltb (length t.queue.incoming) capacity)) [
    | inl room ↦
        rw (stays, room)
          (record {
            closed_still = h;
            same_journal = refl;
            same_taken = refl;
            waiting = (e ∷ [], refl);
          })
    | inr full ↦ rw (stays, full) (quiet-IsOver t h)
  ]
]

step_queue-IsOver :
    (s : QueueStep) (t : Tracked) → t.queue.is_closed ≡ true → IsOver t (step_queue s t)
unfolding step_queue record_event run_turn close
step_queue-IsOver (recording et panics p) t h = quiet-IsOver t h
step_queue-IsOver (recording et (gives json) p) t h = elim (Bool-cases (is_enabled et)) [
  | inl enabled ↦ rw enabled (send-IsOver (record { event_type = et; json = json }) p t h)
  | inr disabled ↦ rw disabled (quiet-IsOver t h)
]
step_queue-IsOver (turning ans p) t h = simp h (quiet-IsOver t h)
step_queue-IsOver closing t h = record {
  closed_still = h;
  same_journal = refl;
  same_taken = refl;
  waiting = ([], sym (append-nil t.queue.incoming));
}

-- Once the goroutine has ended, no more events are taken and the files stay, whatever is still sent.
run_steps-IsOver :
    (steps : List QueueStep) (t : Tracked) → t.queue.is_closed ≡ true → IsOver t (run_steps steps t)
unfolding run_steps
run_steps-IsOver [] t h = quiet-IsOver t h
run_steps-IsOver (s ∷ steps) t h =
    let first = step_queue-IsOver s t h in
    let later = run_steps-IsOver steps (step_queue s t) first.closed_still in
    record {
      closed_still = later.closed_still;
      same_journal = later.same_journal ∙ first.same_journal;
      same_taken = later.same_taken ∙ first.same_taken;
      waiting = (
        first.waiting.0 ++ later.waiting.0,
        later.waiting.1
            ∙ ap (λ l. l ++ later.waiting.0) first.waiting.1
            ∙ append_assoc t.queue.incoming first.waiting.0 later.waiting.0,
      );
    }

-- Where `Close` is called and the goroutine picks the closing at its next turn, the events that wait
-- then are lost: however many they are and whatever comes later, they stay where they wait, no event
-- is taken any more, and no file changes. It supposes that the goroutine has not ended before.
pub close-loses :
    (steps : List QueueStep) (ans : Answers) (t : Tracked)
    → t.queue.is_closed ≡ false
    → let t' = run_steps (closing ∷ turning ans true ∷ steps) t in
      (t'.taken ≡ t.taken)
      × (t'.queue.journal.files ≡ t.queue.journal.files)
      × ((rest : List Entry) × (t'.queue.incoming ≡ t.queue.incoming ++ rest))
unfolding run_steps step_queue close run_turn end_loop
close-loses steps ans t alive =
    let closed : Tracked = end_loop (close t) in
    let over : IsOver closed (run_steps steps closed) = run_steps-IsOver steps closed refl in
    simp alive (over.same_taken, ap (λ (j : FsJournal). j.files) over.same_journal, over.waiting)
