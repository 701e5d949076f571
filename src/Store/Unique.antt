-- ===== src/Store/Unique.antt =====
-- Lists of rows under a UNIQUE key, and rows that all satisfy a condition.
use auto_seed_relay.Prelude.{
  ◌≡◌, Bool, false, List, [], ◌∷◌, ◌++◌, none, arith, All, All-append, All-map, keep, Bool-cases,
  inl, inr, ◌∙◌,
}
use auto_seed_relay.Store.Rows.{update_where, find}

module _ {ℓ} {A : Type ℓ} (P : A → Type 0) where
  pub All-update_where :
      (p : A → Bool) (f : A → A) (xs : List A)
      → ((x : A) → P x → P (f x))
      → All P xs
      → All P (update_where p f xs)
  All-update_where p f [] k h = tt
  All-update_where p f (x ∷ xs) k h = elim (Bool-cases (p x)) [
    | inl hit ↦ rw hit (k x h.0, All-update_where p f xs k h.1)
    | inr miss ↦ rw miss (h.0, All-update_where p f xs k h.1)
  ]

  pub All-keep : (p : A → Bool) (xs : List A) → All P xs → All P (keep p xs)
  All-keep p [] h = tt
  All-keep p (x ∷ xs) h = elim (Bool-cases (p x)) [
    | inl hit ↦ rw hit (h.0, All-keep p xs h.1)
    | inr miss ↦ rw miss (All-keep p xs h.1)
  ]

module _ {ℓ} {A : Type ℓ} (same : A → A → Bool) where
  -- No two rows have the same key.
  abbrev pub IsUnique : List A → Type 0
  IsUnique [] = Unit
  IsUnique (x ∷ xs) = All (λ y. same x y ≡ false) xs × IsUnique xs

  pub find-none-All : (p : A → Bool) (xs : List A) → find p xs ≡ none → All (λ y. p y ≡ false) xs
  find-none-All p [] h = tt
  find-none-All p (x ∷ xs) h = elim (Bool-cases (p x)) [
    | inl hit ↦ absurd (ground arith)
    | inr miss ↦ (miss, find-none-All p xs (rw miss at h))
  ]

  -- An update that leaves the key of each row alone.
  pub IsUnique-update_where :
      (p : A → Bool) (f : A → A) (xs : List A)
      → ((x y : A) → same x (f y) ≡ same x y)
      → ((x y : A) → same (f x) y ≡ same x y)
      → IsUnique xs
      → IsUnique (update_where p f xs)
  IsUnique-update_where p f [] k l h = tt
  IsUnique-update_where p f (x ∷ xs) k l h =
      let rest = IsUnique-update_where p f xs k l h.1 in
      let kept : All (λ y. same x y ≡ false) (update_where p f xs) =
        All-update_where (λ y. same x y ≡ false) p f xs (λ y e. k x y ∙ e) h.0 in
      elim (Bool-cases (p x)) [
        | inl hit ↦ rw hit (All-map _ _ (λ y e. l x y ∙ e) _ kept, rest)
        | inr miss ↦ rw miss (kept, rest)
      ]

  pub IsUnique-append :
      (xs : List A) (y : A)
      → ((a b : A) → same a b ≡ same b a)
      → All (λ x. same y x ≡ false) xs
      → IsUnique xs
      → IsUnique (xs ++ y ∷ [])
  IsUnique-append [] y s a h = (tt, tt)
  IsUnique-append (x ∷ xs) y s a h =
      (All-append _ xs (y ∷ []) h.0 (s x y ∙ a.0, tt), IsUnique-append xs y s a.1 h.1)
