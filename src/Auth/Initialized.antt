-- ===== src/Auth/Initialized.antt =====
-- The password and the secret, once they are stored (backend/internal/auth/manager.go).
use text.Mathlib.Text.{◌==◌ as str_eq}
use text.Mathlib.TextEquality.{eq_iff}
use auto_seed_relay.Prelude.{
  ◌≡◌, ◌≢◌, refl, Bool, false, List, [], ◌∷◌, ◌++◌, Option, none, some, String, arith, lookup,
  string_eq, Bool-cases, Option-cases, ◌⊎◌, inl, inr,
}
use auto_seed_relay.Store.Rows.{next_fault}
use auto_seed_relay.Auth.Settings.{
  Settings, read_setting, insert_setting, write_setting, key_web_password_hash, store_hash,
  complete_setup,
}

lookup-last :
    (k v : String) (rows : List (String × String))
    → lookup k rows ≡ none
    → lookup k (rows ++ (k, v) ∷ []) ≡ some v
unfolding lookup
lookup-last k v [] h = rw ((eq_iff k k).1 refl) refl
lookup-last k v ((j, w) ∷ rows) h = elim (Bool-cases (str_eq j k)) [
  | inl same ↦ absurd (let m = rw same at h in cc)
  | inr other ↦ rw other (lookup-last k v rows (rw other at h))
]

-- A write that succeeds: the key was free, and has the value afterwards.
pub write_setting-ok :
    (k v : String) (s : Settings)
    → (write_setting k v s).1 ≡ none
    → lookup k (write_setting k v s).0.rows ≡ some v
unfolding write_setting insert_setting
write_setting-ok k v s h = elim (Bool-cases (next_fault s.faults)) [
  | inl fault ↦ absurd (let m = rw fault at h in cc)
  | inr fine ↦ elim (Option-cases (lookup k s.rows)) [
    | inl free ↦ rw (fine, free) (lookup-last k v s.rows free)
    | inr (old, taken) ↦ absurd (let m = rw (fine, taken) at h in cc)
  ]
]

-- A write for a key that has a value changes no row and fails.
pub write_setting-taken :
    (k v old : String) (s : Settings)
    → lookup k s.rows ≡ some old
    → ((write_setting k v s).0.rows ≡ s.rows) × ((write_setting k v s).1 ≢ none)
unfolding write_setting insert_setting
write_setting-taken k v old s h = elim (Bool-cases (next_fault s.faults)) [
  | inl fault ↦ rw fault (refl, λ m. absurd cc)
  | inr fine ↦ rw (fine, h) (refl, λ m. absurd cc)
]

pub read_setting-rows : (k : String) (s : Settings) → (read_setting k s).0.rows ≡ s.rows
unfolding read_setting
read_setting-rows k s = ground arith

-- When the read fails there is no answer, else it is what the table holds.
pub read_setting-cases :
    (k : String) (s : Settings)
    → ((read_setting k s).1 ≡ none) ⊎ ((read_setting k s).1 ≡ some (lookup k s.rows))
unfolding read_setting
read_setting-cases k s = elim (Bool-cases (next_fault s.faults)) [
  | inl fault ↦ inl (rw fault refl)
  | inr fine ↦ inr (rw fine refl)
]

module _ (generate : String → Option String) (fits : String → String → Bool) where
  pub complete_setup-ok :
      (pw : String) (s : Settings)
      → (complete_setup generate pw s).1 ≡ none
      → (str_eq pw "" ≡ false)
        × ((hash : String) × (generate pw ≡ some hash)
            × (lookup key_web_password_hash (complete_setup generate pw s).0.rows ≡ some hash))
  unfolding complete_setup store_hash
  complete_setup-ok pw s h = elim (Bool-cases (str_eq pw "")) [
    | inl empty ↦ absurd (let m = rw empty at h in cc)
    | inr full ↦ elim (Option-cases (generate pw)) [
      | inl broken ↦ absurd (let m = rw (full, broken) at h in cc)
      | inr (hash, made) ↦ (
        full,
        (
          hash,
          made,
          rw (full, made) (write_setting-ok key_web_password_hash hash s (rw (full, made) at h)),
        ),
      )
    ]
  ]

  pub complete_setup-taken :
      (pw old : String) (s : Settings)
      → lookup key_web_password_hash s.rows ≡ some old
      → ((complete_setup generate pw s).0.rows ≡ s.rows) × ((complete_setup generate pw s).1 ≢ none)
  unfolding complete_setup store_hash
  complete_setup-taken pw old s h = elim (Bool-cases (str_eq pw "")) [
    | inl empty ↦ rw empty (refl, λ m. absurd cc)
    | inr full ↦ elim (Option-cases (generate pw)) [
      | inl broken ↦ rw (full, broken) (refl, λ m. absurd cc)
      | inr (hash, made) ↦ rw (full, made) (write_setting-taken key_web_password_hash hash old s h)
    ]
  ]
