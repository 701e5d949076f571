-- ===== src/Engine/Retry/Scenarios.antt =====
-- Runs of the retry queue of backend/internal/engine/retry.go on concrete items.
use auto_seed_relay.Prelude.{ℕ, ◌≤◌, ◌<◌, ◌≡◌, refl, false, [], ◌∷◌, inl, inr, arith}
use auto_seed_relay.Engine.Retry.Queue.{
  RetryItem, RetryQueue, pause, until_wake, timer, next_wait, min_wait, due,
}
use auto_seed_relay.Engine.Retry.Wait.{Some, due_item_blocks}

abbrev at : ℕ → ℕ → RetryItem
at seed time = record { seed_id = seed; retry_no = 1; due_at = time }

abbrev queue : RetryQueue
queue = record { items = at 1 30 ∷ at 2 10 ∷ at 3 20 ∷ []; wake = false }

arms_timer : pause 4 queue ≡ timer 6
unfolding pause next_wait min_wait
arms_timer = refl

comes_due : Some (λ it. (15 < it.due_at) × (it.due_at ≤ 25)) queue.items
comes_due = inr (inr (inl (omega arith, omega arith)))

-- The job that was due at 10 is submitted from 15 to 25, and seed 3 comes due at 20.
due_item_blocks_example :
    (pause 25 (due 15 queue).1 ≡ until_wake) × Some (λ it. it.due_at ≤ 25) (due 15 queue).1.items
due_item_blocks_example = due_item_blocks 15 25 queue comes_due
