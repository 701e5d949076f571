-- ===== src/Qb/Sorted.antt =====
-- Sorting the names of instances (backend/internal/qb/manager.go).
use text.Mathlib.Text.{◌==◌ as str_eq}
use mathlib.Core.Path.{ap₂}
use auto_seed_relay.Prelude.{
  ℕ, ◌+◌, ◌≡◌, refl, ap, ◌∙◌, true, List, [], ◌∷◌, String, arith, if◌then◌else◌, map, Bool-cases,
  inl, inr, ◌⊎◌,
}
use auto_seed_relay.Qb.Manager.{
  str_le, insert_name, sort_names, insert_pair, sort_pairs, keys_of, manager_names, status_of,
  ping_all, all_healthy,
}
use auto_seed_relay.Qb.Order.{str_le_total}

-- Each name is not after the next one.
pub data IsSorted : List String → Type 0 where
  none_left : IsSorted []
  one_left : (x : String) → IsSorted (x ∷ [])
  more_left :
      {x y : String} {ys : List String}
      → str_le x y ≡ true
      → IsSorted (y ∷ ys)
      → IsSorted (x ∷ y ∷ ys)

cons_insert :
    (x y z : String) (ys : List String)
    → str_le y x ≡ true
    → str_le y z ≡ true
    → IsSorted (insert_name x (z ∷ ys))
    → IsSorted (y ∷ insert_name x (z ∷ ys))
unfolding insert_name
cons_insert x y z ys h k s = elim (Bool-cases (str_le x z)) [
  | inl before ↦ rw before (more_left h (rw before at s))
  | inr after ↦ rw after (more_left k (rw after at s))
]

insert_name-IsSorted : (x : String) (ys : List String) → IsSorted ys → IsSorted (insert_name x ys)
unfolding insert_name
insert_name-IsSorted x [] h = one_left x
insert_name-IsSorted x (y ∷ []) h = elim (Bool-cases (str_le x y)) [
  | inl before ↦ rw before (more_left before h)
  | inr after ↦ rw after (more_left (str_le_total x y after) (one_left x))
]
insert_name-IsSorted x (y ∷ z ∷ ys) (more_left k h) = elim (Bool-cases (str_le x y)) [
  | inl before ↦ rw before (more_left before (more_left k h))
  | inr after ↦
      rw after (cons_insert x y z ys (str_le_total x y after) k (insert_name-IsSorted x (z ∷ ys) h))
]

pub sort_names-IsSorted : (xs : List String) → IsSorted (sort_names xs)
unfolding sort_names
sort_names-IsSorted [] = none_left
sort_names-IsSorted (x ∷ xs) = insert_name-IsSorted x _ (sort_names-IsSorted xs)

-- How often a name occurs.
abbrev pub occurs : String → List String → ℕ
occurs n [] = 0
occurs n (x ∷ xs) = (if str_eq x n then 1 else 0) + occurs n xs

insert_name-occurs :
    (n x : String) (ys : List String)
    → occurs n (insert_name x ys) ≡ (if str_eq x n then 1 else 0) + occurs n ys
unfolding insert_name
insert_name-occurs n x [] = refl
insert_name-occurs n x (y ∷ ys) = elim (Bool-cases (str_le x y)) [
  | inl before ↦ rw before refl
  | inr after ↦ rw after (omega (arith, insert_name-occurs n x ys))
]

pub sort_names-occurs : (n : String) (xs : List String) → occurs n (sort_names xs) ≡ occurs n xs
unfolding sort_names
sort_names-occurs n [] = refl
sort_names-occurs n (x ∷ xs) =
    insert_name-occurs n x (sort_names xs)
    ∙ ap (λ k. (if str_eq x n then 1 else 0) + k) (sort_names-occurs n xs)

insert_pair-keys {ℓ} :
    {I : Type ℓ} (x : String × I) (ys : List (String × I))
    → keys_of (insert_pair x ys) ≡ insert_name x.0 (keys_of ys)
unfolding insert_pair insert_name
insert_pair-keys (a, i) [] = refl
insert_pair-keys (a, i) ((b, j) ∷ ys) = elim (Bool-cases (str_le a b)) [
  | inl before ↦ rw before refl
  | inr after ↦ rw after (ap (λ ks. b ∷ ks) (insert_pair-keys (a, i) ys))
]

sort_pairs-keys {ℓ} :
    {I : Type ℓ} (m : List (String × I)) → keys_of (sort_pairs m) ≡ sort_names (keys_of m)
unfolding sort_pairs sort_names
sort_pairs-keys [] = refl
sort_pairs-keys ((a, i) ∷ m) =
    insert_pair-keys (a, i) (sort_pairs m) ∙ ap (insert_name a) (sort_pairs-keys m)

status-name : (a : String) (o : String ⊎ String) → (status_of a o).name ≡ a
status-name a (inl error) = refl
status-name a (inr version) = refl

ping_all-names {ℓ} :
    {I : Type ℓ} (ping : I → String ⊎ String) (m : List (String × I))
    → map (λ s. s.name) (ping_all ping m) ≡ keys_of m
unfolding ping_all
ping_all-names ping [] = refl
ping_all-names ping ((a, i) ∷ m) = ap₂ ◌∷◌ (status-name a (ping i)) (ping_all-names ping m)

-- `AllHealthy` reports on the names of `Names`, in that order.
pub all_healthy-names {ℓ} :
    {I : Type ℓ} (ping : I → String ⊎ String) (m : List (String × I))
    → map (λ s. s.name) (all_healthy ping m) ≡ manager_names m
unfolding all_healthy manager_names
all_healthy-names ping m = ping_all-names ping (sort_pairs m) ∙ sort_pairs-keys m
