-- ===== src/Store/Due.antt =====
-- Which migrations are due (backend/internal/store/migrate.go).
use auto_seed_relay.Prelude.{
  ℕ, ◌≡◌, ◌≤◌, ◌<◌, refl, ◌∙◌, true, false, List, [], ◌∷◌, if◌then◌else◌, leb, leb→le, ◌==◌, ==_iff,
  All, arith, Bool-cases, inl, inr,
}
use auto_seed_relay.Store.Migrate.{Migration, Schema, sort_migrations}
use auto_seed_relay.Store.Split.{has_version, sort_has, IsOrdered, sort-IsOrdered}

-- The migrations that are due after a version, each with a higher version than the one before it.
unfoldable pub due_after : ℕ → List Migration → List Migration
due_after current [] = []
due_after current (m ∷ ms) =
    let later = m ∷ due_after m.version ms in
    if leb m.version current then due_after current ms else later

least_lem :
    (v w : ℕ) (ms : List Migration) → All (λ n. w ≤ n.version) ms → has_version v ms ≡ true → w ≤ v
least_lem v w [] a h = absurd cc
least_lem v w (m ∷ ms) a h = elim (Bool-cases (m.version == v)) [
  | inl same ↦ let s = (==_iff m.version v).0 same in let k = a.0 in omega arith
  | inr other ↦ least_lem v w ms a.1 (rw other at h)
]

due_after_covers :
    (v current : ℕ) (ms : List Migration)
    → IsOrdered ms
    → has_version v ms ≡ true
    → current < v
    → has_version v (due_after current ms) ≡ true
unfolding due_after
due_after_covers v current [] o h k = absurd cc
due_after_covers v current (m ∷ ms) o h k = elim (Bool-cases (leb m.version current)) [
  | inl old ↦
      let le = leb→le _ _ old in
      let other : (m.version == v) ≡ false = ground arith in
      rw old (due_after_covers v current ms o.1 (rw other at h) k)
  | inr new ↦ rw new (elim (Bool-cases (m.version == v)) [
    | inl same ↦ rw same refl
    | inr other ↦
        let rest = rw other at h in
        let least = least_lem v m.version ms o.0 rest in
        rw other (due_after_covers v m.version ms o.1 rest (ground arith))
  ])
]

pub covers :
    (ms : List Migration) (d : Schema) (v : ℕ)
    → has_version v ms ≡ true
    → d.version < v
    → has_version v (due_after d.version (sort_migrations ms)) ≡ true
covers ms d v h k =
    due_after_covers v d.version (sort_migrations ms) (sort-IsOrdered ms) (sort_has v ms ∙ h) k
