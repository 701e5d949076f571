-- ===== src/Engine/Retry/Queue.antt =====
-- `RetryQueue` of backend/internal/engine/retry.go. Times are nanoseconds; the queue's clock is an
-- argument of each call that reads it, and `wake` is the buffered channel of one signal.
use auto_seed_relay.Prelude.{
  ℕ, zero, suc, ◌+◌, ◌-◌, ◌*◌, Bool, true, false, List, [], ◌∷◌, ◌++◌, if◌then◌else◌, ltb, ◌==◌,
}

abbrev pub second : ℕ
second = 1_000_000_000

-- `retryBackoffs`
abbrev pub retry_backoffs : List ℕ
retry_backoffs = (60 * second) ∷ (300 * second) ∷ (900 * second) ∷ []

pub record RetryItem : Type 0 where
  pub seed_id : ℕ
  pub retry_no : ℕ
  pub due_at : ℕ

pub record RetryQueue : Type 0 where
  pub items : List RetryItem
  pub wake : Bool

unfoldable pub new_retry_queue : RetryQueue
new_retry_queue = record { items = []; wake = false }

-- The entry at an index, and the last one for an index past the end.
abbrev pub entry_or_last : List ℕ → ℕ → ℕ
entry_or_last [] i = 0
entry_or_last (x ∷ []) i = x
entry_or_last (x ∷ y ∷ xs) zero = x
entry_or_last (x ∷ y ∷ xs) (suc i) = entry_or_last (y ∷ xs) i

-- A retry number below 1 counts as 1: subtraction stops at 0.
unfoldable pub backoff_for : ℕ → ℕ
backoff_for retry_no = entry_or_last retry_backoffs (retry_no - 1)

-- `Enqueue`, with the signal.
unfoldable pub enqueue : ℕ → ℕ → ℕ → RetryQueue → RetryQueue
unfolding backoff_for
enqueue now seed retry_no q = record {
  items =
      q.items
      ++ record { seed_id = seed; retry_no = retry_no; due_at = now + backoff_for retry_no } ∷ [];
  wake = true;
}

abbrev pub cons_due : RetryItem → List RetryItem × List RetryItem → List RetryItem × List RetryItem
cons_due it (due, rest) = (it ∷ due, rest)

abbrev pub cons_rest : RetryItem → List RetryItem × List RetryItem → List RetryItem × List RetryItem
cons_rest it (due, rest) = (due, it ∷ rest)

-- The loop of `Due`: the items that are due, and the rest.
unfoldable pub split_due : ℕ → List RetryItem → List RetryItem × List RetryItem
split_due now [] = ([], [])
split_due now (it ∷ items) =
    let split = split_due now items in
    if ltb now it.due_at then cons_rest it split else cons_due it split

unfoldable pub due : ℕ → RetryQueue → List RetryItem × RetryQueue
unfolding split_due
due now q = let (ready, rest) = split_due now q.items in (ready, record q { items = rest })

abbrev pub least : ℕ → ℕ → ℕ
least a b = if ltb b a then b else a

-- The minimum of the waits; a wait that is negative in the program is 0.
unfoldable pub min_wait : ℕ → ℕ → List RetryItem → ℕ
min_wait now m [] = m
min_wait now m (it ∷ items) = min_wait now (least m (it.due_at - now)) items

next_wait_of : ℕ → List RetryItem → ℕ
next_wait_of now [] = 0
next_wait_of now (it ∷ items) = min_wait now (it.due_at - now) items

-- `NextWait`
unfoldable pub next_wait : ℕ → RetryQueue → ℕ
unfolding next_wait_of min_wait
next_wait now q = next_wait_of now q.items

-- What `retryLoop` does after it has submitted the items that were due: it blocks until a wake or a
-- shutdown, or arms a timer.
pub data Pause : Type 0 where
  until_wake : Pause
  timer : ℕ → Pause

unfoldable pub pause : ℕ → RetryQueue → Pause
unfolding next_wait
pause now q = let wait = next_wait now q in if wait == 0 then until_wake else timer wait
