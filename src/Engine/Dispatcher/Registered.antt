-- ===== src/Engine/Dispatcher/Registered.antt =====
-- The names that `SelectQB` of backend/internal/engine/dispatcher.go returns.
use text.Mathlib.Text.{◌==◌ as str_eq}
use text.Mathlib.TextEquality.{eq_iff}
use auto_seed_relay.Prelude.{
  ℕ, zero, suc, ◌%◌, ◌≡◌, refl, subst, Bool, true, false, List, [], ◌∷◌, Option, none, some, String,
  arith, ◌||◌, length, get_elem?, All, Bool-cases, inl, inr, ◌⊎◌,
}
use auto_seed_relay.Engine.Dispatcher.Select.{
  QbInstance, max_int, free_of, count_of, more, fewer, choose, named, most_free_disk, least_jobs,
  by_priority, names_of, pick_round, round_robin, by_mode, select_qb,
}

pub get_elem-All {ℓ} :
    {A : Type ℓ} (P : A → Type 0) (xs : List A) (i : ℕ) (x : A)
    → All P xs
    → get_elem? xs i ≡ some x
    → P x
get_elem-All P [] i x a e = cc
get_elem-All P (y ∷ xs) zero x a e = subst P (cc) a.0
get_elem-All P (y ∷ xs) (suc i) x a e = get_elem-All P xs i x a.1 e

module _ (registered : String → Bool) where
  named_registered_of :
      (best : String)
      → (best ≡ "") ⊎ (registered best ≡ true)
      → str_eq best "" ≡ false
      → registered best ≡ true
  named_registered_of best (inl e) f = absurd (let k = (eq_iff best "").1 e in cc)
  named_registered_of best (inr h) f = h

  choose_registered :
      (better : ℕ → ℕ → Bool) (value : QbInstance → ℕ) (best : String) (b : ℕ)
      (qs : List QbInstance)
      → (best ≡ "") ⊎ (registered best ≡ true)
      → (choose registered better value best b qs ≡ "")
        ⊎ (registered (choose registered better value best b qs) ≡ true)
  unfolding choose
  choose_registered better value best b [] h = h
  choose_registered better value best b (q ∷ qs) h = elim (Bool-cases (registered q.name)) [
    | inr unknown ↦ rw unknown (choose_registered better value best b qs h)
    | inl known ↦ elim (Bool-cases (str_eq best "" || better (value q) b)) [
      | inl take ↦ rw (known, take) (choose_registered better value q.name (value q) qs (inr known))
      | inr leave ↦ rw (known, leave) (choose_registered better value best b qs h)
    ]
  ]

  named_registered :
      (best name : String)
      → (best ≡ "") ⊎ (registered best ≡ true)
      → named best ≡ some name
      → registered name ≡ true
  unfolding named
  named_registered best name h e = elim (Bool-cases (str_eq best "")) [
    | inl empty ↦ let k = rw empty at e in cc
    | inr real ↦ ground (arith, named_registered_of best h real, rw real at e)
  ]

  by_priority_registered :
      (qs : List QbInstance) (name : String)
      → by_priority registered qs ≡ some name
      → registered name ≡ true
  unfolding by_priority
  by_priority_registered [] name e = cc
  by_priority_registered (q ∷ qs) name e = ground (arith, by_priority_registered qs name)

  names_registered :
      (qs : List QbInstance) → All (λ n. registered n ≡ true) (names_of registered qs)
  names_registered [] = tt
  names_registered (q ∷ qs) = elim (Bool-cases (registered q.name)) [
    | inl known ↦ rw known (known, names_registered qs)
    | inr unknown ↦ rw unknown (names_registered qs)
  ]

  pick_round_registered :
      (names : List String) (rr : ℕ) (name : String)
      → All (λ n. registered n ≡ true) names
      → (pick_round names rr).0 ≡ some name
      → registered name ≡ true
  unfolding pick_round
  pick_round_registered [] rr name a e = cc
  pick_round_registered (n ∷ ns) rr name a e =
      get_elem-All _ (n ∷ ns) (rr % length (n ∷ ns)) name a e

  by_mode_registered :
      (mode : String) (qs : List QbInstance) (rr : ℕ) (name : String)
      → (by_mode registered mode qs rr).0 ≡ some name
      → registered name ≡ true
  unfolding by_mode most_free_disk least_jobs round_robin
  by_mode_registered mode qs rr name e = elim (Bool-cases (str_eq mode "most_free_disk")) [
    | inl disk ↦
        named_registered _ name (choose_registered more free_of "" 0 qs (inl refl)) (rw disk at e)
    | inr m ↦ elim (Bool-cases (str_eq mode "least_jobs")) [
      | inl jobs ↦
          named_registered _ name (choose_registered fewer count_of "" max_int qs (inl refl))
            (rw (m, jobs) at e)
      | inr k ↦ elim (Bool-cases (str_eq mode "round_robin")) [
        | inl robin ↦
            pick_round_registered (names_of registered qs) rr name (names_registered qs)
              (rw (m, k, robin) at e)
        | inr l ↦ by_priority_registered qs name (rw (m, k, l) at e)
      ]
    ]
  ]

  -- Whatever the strategy, the preferred name and the cursor: a name that `SelectQB` returns is one that
  -- the manager has.
  selected_registered :
      (prefer mode : String) (rows : Option (List QbInstance)) (rr : ℕ) (name : String)
      → (select_qb registered prefer mode rows rr).0 ≡ some name
      → registered name ≡ true
  unfolding select_qb
  selected_registered prefer mode none rr name e = cc
  selected_registered prefer mode (some []) rr name e = cc
  selected_registered prefer mode (some (q ∷ qs)) rr name e = elim (Bool-cases (str_eq prefer "")) [
    | inl free ↦ by_mode_registered mode (q ∷ qs) rr name (rw free at e)
    | inr asked ↦ elim (Bool-cases (registered prefer)) [
      | inl known ↦ let k = rw (asked, known) at e in ground arith
      | inr unknown ↦ by_mode_registered mode (q ∷ qs) rr name (rw (asked, unknown) at e)
    ]
  ]
