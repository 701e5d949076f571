-- ===== src/Engine/Retry/Due.antt =====
-- `Due` of backend/internal/engine/retry.go, and the items whose time has come.
use auto_seed_relay.Prelude.{ℕ, ◌≤◌, ◌<◌, List, [], ◌∷◌, arith, ltb, All, Bool-cases, inl, inr}
use auto_seed_relay.Engine.Retry.Queue.{RetryItem, RetryQueue, split_due, due}

-- `zs` has the elements of `xs` and of `ys`, each in its order, and no others.
pub data Merges {ℓ} {A : Type ℓ} : List A → List A → List A → Type ℓ where
  done : Merges [] [] []
  left : {x : A} {xs ys zs : List A} → Merges xs ys zs → Merges (x ∷ xs) ys (x ∷ zs)
  right : {y : A} {xs ys zs : List A} → Merges xs ys zs → Merges xs (y ∷ ys) (y ∷ zs)

pub record Splits (now : ℕ) (items ready rest : List RetryItem) : Type 0 where
  pub merge : Merges ready rest items
  pub ready_due : All (λ it. it.due_at ≤ now) ready
  pub rest_later : All (λ it. now < it.due_at) rest

split_due-Splits :
    (now : ℕ) (items : List RetryItem)
    → Splits now items (split_due now items).0 (split_due now items).1
unfolding split_due
split_due-Splits now [] = record { merge = done; ready_due = tt; rest_later = tt }
split_due-Splits now (it ∷ items) =
    let s = split_due-Splits now items in
    elim (Bool-cases (ltb now it.due_at)) [
      | inl later ↦ rw later (record {
        merge = right s.merge;
        ready_due = s.ready_due;
        rest_later = (ground arith, s.rest_later);
      })
      | inr ready ↦ rw ready (record {
        merge = left s.merge;
        ready_due = (ground arith, s.ready_due);
        rest_later = s.rest_later;
      })
    ]

-- `Due` returns the items whose time is not after the clock and leaves the others in the queue: none is
-- lost or doubled, and both keep the order of insertion.
due-Splits : (now : ℕ) (q : RetryQueue) → Splits now q.items (due now q).0 (due now q).1.items
unfolding due
due-Splits now q = split_due-Splits now q.items
