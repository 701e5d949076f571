-- ===== src/Engine/Dispatcher/Best.antt =====
-- What `mostFreeDisk` and `leastJobs` of backend/internal/engine/dispatcher.go return.
use text.Mathlib.Text.{◌==◌ as str_eq}
use text.Mathlib.TextEquality.{eq_iff}
use auto_seed_relay.Prelude.{
  ℕ, zero, suc, ◌≡◌, ◌≢◌, refl, sym, ap, subst, ◌∙◌, Bool, true, false, List, [], ◌∷◌, Option, none,
  some, String, arith, get_elem?, All, Bool-cases, inl, inr, ◌⊎◌,
}
use auto_seed_relay.Engine.Dispatcher.Select.{
  QbInstance, max_int, free_of, count_of, more, fewer, choose, named, most_free_disk, least_jobs,
}
use auto_seed_relay.Engine.Dispatcher.Registered.{get_elem-All}

-- An instance that is registered and has a name.
pub record Candidate (registered : String → Bool) (qs : List QbInstance) (q : QbInstance)
    : Type 0 where
  pub known : registered q.name ≡ true
  pub position : ℕ
  pub listed : get_elem? qs position ≡ some q

-- No registered instance is better.
abbrev pub IsBest :
    (String → Bool) → (ℕ → ℕ → Bool) → (QbInstance → ℕ) → List QbInstance → QbInstance → Type 0
IsBest registered better value qs q =
    All (λ r. registered r.name ≡ true → better (value r) (value q) ≡ false) qs

pass : ℕ → ℕ
pass zero = zero
pass (suc n) = suc (suc n)

get_elem-pass :
    (c x : QbInstance) (qs : List QbInstance) (n : ℕ)
    → get_elem? (c ∷ x ∷ qs) (pass n) ≡ get_elem? (c ∷ qs) n
unfolding pass
get_elem-pass c x qs zero = refl
get_elem-pass c x qs (suc n) = refl

-- The same row of the list with one more behind the first.
Candidate-pass :
    (registered : String → Bool) (c x : QbInstance) (qs : List QbInstance) (q : QbInstance)
    → Candidate registered (c ∷ qs) q
    → Candidate registered (c ∷ x ∷ qs) q
Candidate-pass registered c x qs q k = record {
  known = k.known;
  position = pass k.position;
  listed = get_elem-pass c x qs k.position ∙ k.listed;
}

Candidate-later :
    (registered : String → Bool) (c : QbInstance) (qs : List QbInstance) (q : QbInstance)
    → Candidate registered qs q
    → Candidate registered (c ∷ qs) q
Candidate-later registered c qs q k = record {
  known = k.known;
  position = suc k.position;
  listed = k.listed;
}

name_real : (name : String) → name ≢ "" → str_eq name "" ≡ false
name_real name n = ground (arith, eq_iff name "")

named_real : (name : String) → name ≢ "" → named name ≡ some name
unfolding named
named_real name n = rw (name_real name n) refl

module _ (registered : String → Bool) (better : ℕ → ℕ → Bool) (value : QbInstance → ℕ)
    (compose : (a b c : ℕ) → better a b ≡ false → better b c ≡ false → better a c ≡ false)
    (asymm : (a b : ℕ) → better a b ≡ true → better b a ≡ false)
    (irrefl : (a : ℕ) → better a a ≡ false) where
  -- The loop, once it has a name: it ends with the one it has or with a later one.
  choose_from :
      (cur : QbInstance) (qs : List QbInstance)
      → registered cur.name ≡ true
      → All (λ q. q.name ≢ "") (cur ∷ qs)
      → (q : QbInstance) × (choose registered better value cur.name (value cur) qs ≡ q.name)
        × Candidate registered (cur ∷ qs) q
        × IsBest registered better value (cur ∷ qs) q
  unfolding choose
  choose_from cur [] k a = (
    cur,
    refl,
    record { known = k; position = 0; listed = refl },
    ((λ h. irrefl (value cur)), tt),
  )
  choose_from cur (x ∷ qs) k a = elim (Bool-cases (registered x.name)) [
    | inr unknown ↦
        let (q, e, c, best) = choose_from cur qs k (a.0, a.1.1) in
        (q, rw unknown e, Candidate-pass registered cur x qs q c, (best.0, ((λ h. cc), best.1)))
    | inl known ↦ elim (Bool-cases (better (value x) (value cur))) [
      | inl improved ↦
          let (q, e, c, best) = choose_from x qs known a.1 in
          (
            q,
            rw (known, name_real cur.name a.0, improved) e,
            Candidate-later registered cur (x ∷ qs) q c,
            (
              (λ h. compose (value cur) (value x) (value q) (asymm _ _ improved) (best.0 known)),
              best,
            ),
          )
      | inr worse ↦
          let (q, e, c, best) = choose_from cur qs k (a.0, a.1.1) in
          (
            q,
            rw (known, name_real cur.name a.0, worse) e,
            Candidate-pass registered cur x qs q c,
            (best.0, ((λ h. compose (value x) (value cur) (value q) worse (best.0 k)), best.1)),
          )
    ]
  ]

  -- The whole loop: no name if no instance is registered, and otherwise the name of a registered one
  -- that no registered one is better than.
  pub choose-IsBest :
      (b : ℕ) (qs : List QbInstance)
      → All (λ q. q.name ≢ "") qs
      → ((named (choose registered better value "" b qs) ≡ none)
          × All (λ q. registered q.name ≡ false) qs)
        ⊎ ((q : QbInstance) × (named (choose registered better value "" b qs) ≡ some q.name)
            × Candidate registered qs q
            × IsBest registered better value qs q)
  unfolding choose named
  choose-IsBest b [] a = inl (refl, tt)
  choose-IsBest b (x ∷ qs) a = elim (Bool-cases (registered x.name)) [
    | inl known ↦
        let (q, e, c, best) = choose_from x qs known a in
        let real = get_elem-All (λ r. r.name ≢ "") (x ∷ qs) c.position q a c.listed in
        inr (q, rw known (ap named e ∙ named_real q.name real), c, best)
    | inr unknown ↦ elim (choose-IsBest b qs a.1) [
      | inl (e, rest) ↦ inl (rw unknown e, (unknown, rest))
      | inr (q, e, c, best) ↦
          inr (q, rw unknown e, Candidate-later registered x qs q c, ((λ h. cc), best))
    ]
  ]

-- What `mostFreeDisk` and `leastJobs` return.
pub data Picks (registered : String → Bool) (better : ℕ → ℕ → Bool) (value : QbInstance → ℕ)
    (qs : List QbInstance) : Option String → Type 0 where
  nothing : All (λ q. registered q.name ≡ false) qs → Picks registered better value qs none
  best_of :
      (q : QbInstance)
      → Candidate registered qs q
      → IsBest registered better value qs q
      → Picks registered better value qs (some q.name)

choose-Picks :
    (registered : String → Bool) (better : ℕ → ℕ → Bool) (value : QbInstance → ℕ)
    (qs : List QbInstance) (o : Option String)
    → ((o ≡ none) × All (λ q. registered q.name ≡ false) qs)
      ⊎ ((q : QbInstance) × (o ≡ some q.name)
          × Candidate registered qs q
          × IsBest registered better value qs q)
    → Picks registered better value qs o
choose-Picks registered better value qs o (inl (e, a)) =
    subst (Picks registered better value qs) (sym e) (nothing a)
choose-Picks registered better value qs o (inr (q, e, c, best)) =
    subst (Picks registered better value qs) (sym e) (best_of q c best)

-- `mostFreeDisk` returns the name of a registered instance with no less free space than any registered
-- one, and `leastJobs` that of one with no more torrents; they return an error exactly when no instance
-- is registered. Every instance has a name that is not empty; a failed query counts as no space and as
-- the largest load.
pub strategies_pick_best :
    (registered : String → Bool) (qs : List QbInstance)
    → All (λ q. q.name ≢ "") qs
    → Picks registered more free_of qs (most_free_disk registered qs)
      × Picks registered fewer count_of qs (least_jobs registered qs)
unfolding most_free_disk least_jobs
strategies_pick_best registered qs a = (
  choose-Picks registered more free_of qs _ (
      choose-IsBest registered more free_of (λ x y z h k. ground arith) (λ x y h. ground arith)
        (λ x. ground arith) 0 qs a),
  choose-Picks registered fewer count_of qs _ (
      choose-IsBest registered fewer count_of (λ x y z h k. ground arith) (λ x y h. ground arith)
        (λ x. ground arith) max_int qs a),
)
