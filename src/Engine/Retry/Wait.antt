-- ===== src/Engine/Retry/Wait.antt =====
-- `NextWait` and the pause of `retryLoop` (backend/internal/engine/retry.go).
use auto_seed_relay.Prelude.{
  ℕ, ◌+◌, ◌-◌, ◌≤◌, ◌<◌, ◌≡◌, refl, Bool, List, [], ◌∷◌, arith, if◌then◌else◌, ltb, ◌==◌, All,
  All-map, lt→ltb, ◌∙◌, Bool-cases, inl, inr, ◌⊎◌,
}
use auto_seed_relay.Engine.Retry.Queue.{
  RetryItem, RetryQueue, split_due, due, least, min_wait, until_wake, timer, pause,
}

-- Some item satisfies `p`.
abbrev pub Some : (RetryItem → Type 0) → List RetryItem → Type 0
Some P [] = ⊥
Some P (it ∷ items) = P it ⊎ Some P items

-- The minimum is reached, and it is a bound.
min_wait-le : (now m : ℕ) (items : List RetryItem) → min_wait now m items ≤ m
unfolding min_wait
min_wait-le now m [] = omega arith
min_wait-le now m (it ∷ items) = ground (arith, min_wait-le now (least m (it.due_at - now)) items)

min_wait_bound :
    (now : ℕ) (m : ℕ) (items : List RetryItem)
    → All (λ it. min_wait now m items ≤ it.due_at - now) items
unfolding min_wait
min_wait_bound now m [] = tt
min_wait_bound now m (it ∷ items) = (
  ground (arith, min_wait-le now (least m (it.due_at - now)) items),
  min_wait_bound now (least m (it.due_at - now)) items,
)

min_wait_reached :
    (now m : ℕ) (items : List RetryItem)
    → (min_wait now m items ≡ m) ⊎ Some (λ it. min_wait now m items ≡ it.due_at - now) items
unfolding min_wait
min_wait_reached now m [] = inl refl
min_wait_reached now m (it ∷ items) =
    elim (min_wait_reached now (least m (it.due_at - now)) items) [
      | inr later ↦ inr (inr later)
      | inl here ↦ elim (Bool-cases (ltb (it.due_at - now) m)) [
        | inl less ↦ inr (inl (ground arith))
        | inr more ↦ inl (ground arith)
      ]
    ]

Some-map :
    (P Q : RetryItem → Type 0) (items : List RetryItem)
    → ((it : RetryItem) → P it → Q it)
    → Some P items
    → Some Q items
Some-map P Q [] k h = absurd h
Some-map P Q (it ∷ items) k (inl h) = inl (k it h)
Some-map P Q (it ∷ items) k (inr h) = inr (Some-map P Q items k h)

min_wait-All :
    (now : ℕ) (it : RetryItem) (items : List RetryItem)
    → All (λ i. min_wait now (it.due_at - now) items ≤ i.due_at - now) (it ∷ items)
min_wait-All now it items =
    (min_wait-le now (it.due_at - now) items, min_wait_bound now (it.due_at - now) items)

min_wait-Some :
    (now : ℕ) (it : RetryItem) (items : List RetryItem)
    → Some (λ i. min_wait now (it.due_at - now) items ≡ i.due_at - now) (it ∷ items)
min_wait-Some now it items = min_wait_reached now (it.due_at - now) items

queue_of : List RetryItem → Bool → RetryQueue
queue_of items wake = record { items = items; wake = wake }

wait_cons :
    (now : ℕ) (it : RetryItem) (items : List RetryItem) (wake : Bool)
    → pause now (queue_of (it ∷ items) wake) ≡ (
        if min_wait now (it.due_at - now) items == 0
        then until_wake
        else timer (min_wait now (it.due_at - now) items))
unfolding pause queue_of
wait_cons now it items wake = refl

timer_value : (m w : ℕ) → (if m == 0 then until_wake else timer m) ≡ timer w → (m ≡ w) × (0 < w)
timer_value m w h = ground arith

timer_exact_of :
    (now w : ℕ) (items : List RetryItem) (wake : Bool)
    → pause now (queue_of items wake) ≡ timer w
    → All (λ it. now + w ≤ it.due_at) items × Some (λ it. it.due_at ≡ now + w) items × (0 < w)
timer_exact_of now w [] wake h = unfold pause queue_of in cc
timer_exact_of now w (it ∷ items) wake h =
    let (e, p) = timer_value (min_wait now (it.due_at - now) items) w (rw wait_cons at h) in
    (
      All-map _ _ (λ i k. omega arith) (it ∷ items) (min_wait-All now it items),
      Some-map _ _ (it ∷ items) (λ i k. omega arith) (min_wait-Some now it items),
      p,
    )

-- When the loop arms a timer, no item is due before it fires, and some item is due when it does.
timer_exact :
    (now w : ℕ) (q : RetryQueue)
    → pause now q ≡ timer w
    → All (λ it. now + w ≤ it.due_at) q.items × Some (λ it. it.due_at ≡ now + w) q.items × (0 < w)
unfolding queue_of
timer_exact now w q h = timer_exact_of now w q.items q.wake h

min_wait_zero :
    (now m : ℕ) (items : List RetryItem)
    → (m ≡ 0) ⊎ Some (λ it. it.due_at ≤ now) items
    → min_wait now m items ≡ 0
unfolding min_wait
min_wait_zero now m [] (inl h) = h
min_wait_zero now m [] (inr h) = absurd h
min_wait_zero now m (it ∷ items) (inl h) =
    min_wait_zero now (least m (it.due_at - now)) items (inl (ground arith))
min_wait_zero now m (it ∷ items) (inr (inl h)) =
    min_wait_zero now (least m (it.due_at - now)) items (inl (ground arith))
min_wait_zero now m (it ∷ items) (inr (inr h)) =
    min_wait_zero now (least m (it.due_at - now)) items (inr h)

pause_ready_of :
    (now : ℕ) (items : List RetryItem) (wake : Bool)
    → Some (λ it. it.due_at ≤ now) items
    → pause now (queue_of items wake) ≡ until_wake
pause_ready_of now [] wake h = absurd h
pause_ready_of now (it ∷ items) wake h =
    wait_cons now it items wake ∙ rw (min_wait_zero now (it.due_at - now) items (ready h))
  where
    ready :
        Some (λ it. it.due_at ≤ now) (it ∷ items)
        → (it.due_at - now ≡ 0) ⊎ Some (λ it. it.due_at ≤ now) items
    ready (inl e) = inl (omega arith)
    ready (inr k) = inr k

split_due-Some :
    (t t' : ℕ) (items : List RetryItem)
    → Some (λ it. (t < it.due_at) × (it.due_at ≤ t')) items
    → Some (λ it. it.due_at ≤ t') (split_due t items).1
unfolding split_due
split_due-Some t t' [] h = absurd h
split_due-Some t t' (it ∷ items) (inl h) = rw (lt→ltb t it.due_at h.0) (inl h.1)
split_due-Some t t' (it ∷ items) (inr h) = elim (Bool-cases (ltb t it.due_at)) [
  | inl later ↦ rw later (inr (split_due-Some t t' items h))
  | inr ready ↦ rw ready (split_due-Some t t' items h)
]

-- If an item comes due after the loop has taken the items that were due at `t` and before it asks for
-- the wait at `t'`, the loop blocks until the next wake although that item is due, and leaves it in the
-- queue.
pub due_item_blocks :
    (t t' : ℕ) (q : RetryQueue)
    → Some (λ it. (t < it.due_at) × (it.due_at ≤ t')) q.items
    → (pause t' (due t q).1 ≡ until_wake) × Some (λ it. it.due_at ≤ t') (due t q).1.items
unfolding due queue_of
due_item_blocks t t' q h =
    let left = split_due-Some t t' q.items h in
    (pause_ready_of t' (split_due t q.items).1 q.wake left, left)
