-- ===== src/Miner/Lifecycle/Laws.antt =====
-- miner/multiminer.go: what holds of every miner that is started and stopped.
use sophon_miner.Miner.Lifecycle.{
  Called, Happens, Life, Reached, already_started, at_first, closed_channel, done, loop_head,
  new_life, nil_channel, open_channel, panics, start_mining, starts, stop_mining, stops,
  then_happens, turns,
}
use sophon_miner.Prelude.{ap, arith, inl, inr, refl, sym, ◌↔◌, ◌≡◌, ◌≢◌, ◌≤◌, ◌⊎◌}

abbrev pub mining_life : Life
mining_life = record { stop = open_channel; stopping = nil_channel; loops = 1 }

abbrev pub ending_life : Life
ending_life = record { stop = closed_channel; stopping = open_channel; loops = 1 }

-- The three states of a miner: not started, mining, asked to stop.
abbrev pub IsKnown : Life → Type 0
IsKnown l = (l ≡ new_life) ⊎ (l ≡ mining_life) ⊎ (l ≡ ending_life)

life_of : Called → Life → Life
life_of (done l) other = l
life_of _ other = other

done-injective : (a b : Life) → done a ≡ done b → b ≡ a
unfolding life_of
done-injective a b h = sym (ap (λ c. life_of c a) h)

start_mining-IsKnown : (l l' : Life) → IsKnown l → start_mining l ≡ done l' → IsKnown l'
unfolding start_mining
start_mining-IsKnown l l' (inl e) h = inr (inl (done-injective mining_life l' (rw e at h)))
start_mining-IsKnown l l' (inr (inl e)) h = let made : already_started ≡ done l' = rw e at h in cc
start_mining-IsKnown l l' (inr (inr e)) h = let made : already_started ≡ done l' = rw e at h in cc

stop_mining-IsKnown : (l l' : Life) → IsKnown l → stop_mining l ≡ done l' → IsKnown l'
unfolding stop_mining
stop_mining-IsKnown l l' (inl e) h = let made : panics ≡ done l' = rw e at h in cc
stop_mining-IsKnown l l' (inr (inl e)) h = inr (inr (done-injective ending_life l' (rw e at h)))
stop_mining-IsKnown l l' (inr (inr e)) h = let made : panics ≡ done l' = rw e at h in cc

loop_head-IsKnown : (l l' : Life) → IsKnown l → loop_head l ≡ done l' → IsKnown l'
unfolding loop_head
loop_head-IsKnown l l' (inl e) h = inl (done-injective new_life l' (rw e at h))
loop_head-IsKnown l l' (inr (inl e)) h = inr (inl (done-injective mining_life l' (rw e at h)))
loop_head-IsKnown l l' (inr (inr e)) h = inl (done-injective new_life l' (rw e at h))

Happens-IsKnown : (l l' : Life) → IsKnown l → Happens l l' → IsKnown l'
Happens-IsKnown l l' k (starts _ _ h) = start_mining-IsKnown l l' k h
Happens-IsKnown l l' k (stops _ _ h) = stop_mining-IsKnown l l' k h
Happens-IsKnown l l' k (turns _ _ live h) = loop_head-IsKnown l l' k h

Reached-IsKnown : (l : Life) → Reached l → IsKnown l
Reached-IsKnown l at_first = inl refl
Reached-IsKnown l (then_happens {l = before} r step) =
    Happens-IsKnown before l (Reached-IsKnown before r) step

-- What the states of a miner keep to.
abbrev pub IsOrderly : Life → Type 0
IsOrderly l =
    (l.loops ≤ 1)
    × (loop_head l ≢ panics)
    × ((stop_mining l ≡ panics) ↔ (l.stop ≢ open_channel))
    × ((l' : Life) → stop_mining l ≡ done l' → loop_head l' ≡ done new_life)

known-IsOrderly : (l : Life) → IsKnown l → IsOrderly l
unfolding loop_head stop_mining
known-IsOrderly l (inl e) = rw e (omega arith, (λ h. cc), ((λ h q. cc), (λ h. refl)), λ l' h. cc)
known-IsOrderly l (inr (inl e)) = rw e (
  omega arith,
  (λ h. cc),
  ((λ h q. cc), (λ h. absurd (h refl))),
  λ l' h. rw (done-injective ending_life l' h) refl,
)
known-IsOrderly l (inr (inr e)) =
    rw e (omega arith, (λ h. cc), ((λ h q. cc), (λ h. refl)), λ l' h. cc)

-- However a miner is started and stopped, and however its loop interleaves with the calls: at most one
-- loop mines; the loop never closes a channel that is not open; `Stop` ends the program exactly where
-- the miner is not mining, or was asked to stop already; and after any other `Stop`, the next turn of
-- the loop ends it and leaves a miner that can be started again.
pub Reached-IsOrderly : (l : Life) → Reached l → IsOrderly l
Reached-IsOrderly l r = known-IsOrderly l (Reached-IsKnown l r)
