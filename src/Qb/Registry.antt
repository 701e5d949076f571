-- ===== src/Qb/Registry.antt =====
-- The registry of instances as a map (backend/internal/qb/manager.go).
use text.Mathlib.Text.{◌==◌ as str_eq}
use text.Mathlib.TextEquality.{eq_iff}
use auto_seed_relay.Prelude.{
  ℕ, ◌+◌, ◌-◌, ◌≡◌, refl, ap, ◌∙◌, Bool, true, false, List, [], ◌∷◌, Option, none, some, String,
  arith, if◌then◌else◌, map, lookup, insert, erase, lookup-insert, lookup-erase, string_eq,
  Bool-cases, inl, inr, ◌⊎◌,
}
use auto_seed_relay.Qb.Manager.{
  new_manager, set_instance, get_instance, remove_instance, keys_of, manager_names, all_healthy,
}
use auto_seed_relay.Qb.Sorted.{
  IsSorted, sort_names-IsSorted, occurs, sort_names-occurs, all_healthy-names,
}

-- The calls of a client.
pub data RegistryCall (I : Type 0) : Type 0 where
  sets : String → Option I → RegistryCall I
  removes : String → RegistryCall I

-- Whether a name has an instance, as a number.
abbrev pub present {ℓ} : {I : Type ℓ} → Option I → ℕ
present none = 0
present (some i) = 1

module _ {I : Type 0} where
  unfoldable pub call : RegistryCall I → List (String × I) → List (String × I)
  call (sets name i) m = set_instance name i m
  call (removes name) m = remove_instance name m

  unfoldable pub calls : List (RegistryCall I) → List (String × I) → List (String × I)
  calls [] m = m
  calls (c ∷ cs) m = calls cs (call c m)

  -- The specification: the same calls on a function from names.
  abbrev pub update : String → Option I → (String → Option I) → String → Option I
  update name i f n = if str_eq name n then i else f n

  abbrev pub spec_call : RegistryCall I → (String → Option I) → String → Option I
  spec_call (sets name i) f = update name i f
  spec_call (removes name) f = update name none f

  unfoldable pub spec_calls : List (RegistryCall I) → (String → Option I) → String → Option I
  spec_calls [] f = f
  spec_calls (c ∷ cs) f = spec_calls cs (spec_call c f)

  occurs-insert :
      (n k : String) (i : I) (m : List (String × I))
      → occurs n (keys_of (insert k i m))
        ≡ occurs n (keys_of m) + (if str_eq k n then 1 - present (lookup k m) else 0)
  unfolding insert lookup
  occurs-insert n k i [] = ground arith
  occurs-insert n k i ((j, v) ∷ m) = elim (Bool-cases (str_eq j k)) [
    | inl same ↦ ground (arith, eq_iff j k)
    | inr other ↦ ground (arith, occurs-insert n k i m)
  ]

  occurs-erase :
      (n k : String) (m : List (String × I))
      → occurs n (keys_of (erase k m)) ≡ (if str_eq k n then 0 else occurs n (keys_of m))
  unfolding erase
  occurs-erase n k [] = ground arith
  occurs-erase n k ((j, v) ∷ m) = elim (Bool-cases (str_eq j k)) [
    | inl same ↦ ground (arith, eq_iff j k, eq_iff k n, eq_iff j n, occurs-erase n k m)
    | inr other ↦ ground (arith, eq_iff j k, eq_iff k n, eq_iff j n, occurs-erase n k m)
  ]

  if_present :
      (c : Bool) (o : Option I) → (if c then 0 else present o) ≡ present (if c then none else o)
  if_present true o = refl
  if_present false o = refl

  one_present : (o : Option I) → present o + (1 - present o) ≡ 1
  one_present none = refl
  one_present (some i) = refl

  set_present :
      (k n : String) (i : I) (m : List (String × I))
      → present (lookup n m) + (if str_eq k n then 1 - present (lookup k m) else 0)
        ≡ present (if str_eq k n then some i else lookup n m)
  set_present k n i m = elim (Bool-cases (str_eq k n)) [
    | inl same ↦ rw (same, (eq_iff k n).0 same) (one_present (lookup n m))
    | inr other ↦ rw other (omega arith)
  ]

  -- The list reads as the function, and has each key once.
  record Reads (m : List (String × I)) (f : String → Option I) : Type 0 where
    pub reads : (n : String) → lookup n m ≡ f n
    pub once : (n : String) → occurs n (keys_of m) ≡ present (lookup n m)

  erase-Reads :
      (k : String) (m : List (String × I)) (f : String → Option I)
      → Reads m f
      → Reads (erase k m) (update k none f)
  erase-Reads k m f r = record {
    reads = λ n. rw (lookup-erase k n m, r.reads n) refl;
    once = λ n.
        rw (occurs-erase n k m, lookup-erase k n m, r.once n)
          (if_present (str_eq k n) (lookup n m));
  }

  insert-Reads :
      (k : String) (i : I) (m : List (String × I)) (f : String → Option I)
      → Reads m f
      → Reads (insert k i m) (update k (some i) f)
  insert-Reads k i m f r = record {
    reads = λ n. rw (lookup-insert k n i m, r.reads n) refl;
    once = λ n. rw (occurs-insert n k i m, lookup-insert k n i m, r.once n) (set_present k n i m);
  }

  call-Reads :
      (c : RegistryCall I) (m : List (String × I)) (f : String → Option I)
      → Reads m f
      → Reads (call c m) (spec_call c f)
  unfolding call set_instance remove_instance
  call-Reads (sets k none) m f r = erase-Reads k m f r
  call-Reads (sets k (some i)) m f r = insert-Reads k i m f r
  call-Reads (removes k) m f r = erase-Reads k m f r

  calls-Reads :
      (cs : List (RegistryCall I)) (m : List (String × I)) (f : String → Option I)
      → Reads m f
      → Reads (calls cs m) (spec_calls cs f)
  unfolding calls spec_calls
  calls-Reads [] m f r = r
  calls-Reads (c ∷ cs) m f r = calls-Reads cs (call c m) (spec_call c f) (call-Reads c m f r)

  -- After any calls of `Set` and `Remove` on a new manager: `Get` answers as the function to which the
  -- same calls were made, `Names` is in order and has each registered name once and no other, and
  -- `AllHealthy` reports on these names in that order, whatever the pings answer.
  pub calls_refine :
      (cs : List (RegistryCall I)) (ping : I → String ⊎ String)
      → let m = calls cs new_manager in
        let f = spec_calls cs (λ n. none) in
        ((n : String) → get_instance n m ≡ f n)
        × IsSorted (manager_names m)
        × ((n : String) → occurs n (manager_names m) ≡ present (f n))
        × (map (λ s. s.name) (all_healthy ping m) ≡ manager_names m)
  unfolding new_manager get_instance manager_names lookup
  calls_refine cs ping =
      let r = calls-Reads cs [] (λ n. none) (record { reads = λ n. refl; once = λ n. refl }) in
      (
        r.reads,
        sort_names-IsSorted (keys_of (calls cs [])),
        (λ n. sort_names-occurs n (keys_of (calls cs [])) ∙ r.once n ∙ ap present (r.reads n)),
        all_healthy-names ping (calls cs []),
      )
