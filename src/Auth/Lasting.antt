-- ===== src/Auth/Lasting.antt =====
-- Calls of the manager after setup (backend/internal/auth/manager.go).
use text.Mathlib.Text.{◌==◌ as str_eq}
use auto_seed_relay.Prelude.{
  ℕ, ◌≡◌, ◌≢◌, refl, Bool, List, [], ◌∷◌, ◌++◌, Option, none, some, String, lookup, string_eq,
  Bool-cases, Option-cases, ◌⊎◌, inl, inr,
}
use auto_seed_relay.Store.Rows.{next_fault}
use auto_seed_relay.Auth.Settings.{
  Settings, spent, insert_setting, write_setting, key_web_password_hash, key_session_secret,
  store_hash, complete_setup, check_login, Hex, fresh_secret, secret_from, load_or_create_secret,
}
use auto_seed_relay.Auth.Initialized.{
  read_setting-rows, read_setting-cases, complete_setup-ok, complete_setup-taken,
}

-- A value that is stored stays.
unfoldable pub Lasts : Settings → Settings → Type 0
Lasts s s' = (k v : String) → lookup k s.rows ≡ some v → lookup k s'.rows ≡ some v

lookup-append :
    (k v : String) (rows more : List (String × String))
    → lookup k rows ≡ some v
    → lookup k (rows ++ more) ≡ some v
unfolding lookup
lookup-append k v [] more h = absurd cc
lookup-append k v ((j, w) ∷ rows) more h = elim (Bool-cases (str_eq j k)) [
  | inl same ↦ rw same (rw same at h)
  | inr other ↦ rw other (lookup-append k v rows more (rw other at h))
]

same-Lasts : (s s' : Settings) → s'.rows ≡ s.rows → Lasts s s'
unfolding Lasts
same-Lasts s s' e k v h = rw e h

insert_setting-Lasts :
    (k v : String) (o : Option String) (s : Settings) → Lasts s (insert_setting k v o s).0
unfolding insert_setting Lasts
insert_setting-Lasts k v none s = λ j w h. lookup-append j w s.rows ((k, v) ∷ []) h
insert_setting-Lasts k v (some old) s = λ j w h. h

write_setting-Lasts : (k v : String) (s : Settings) → Lasts s (write_setting k v s).0
unfolding write_setting Lasts
write_setting-Lasts k v s = elim (Bool-cases (next_fault s.faults)) [
  | inl fault ↦ rw fault (λ j w h. h)
  | inr fine ↦ rw fine (insert_setting-Lasts k v (lookup k s.rows) (spent s))
]

-- The calls of the manager, each with the statements that fail.
pub data AuthCall : Type 0 where
  sets_up : String → List Bool → AuthCall
  logs_in : String → List Bool → AuthCall
  loads : Option (List ℕ) → List Bool → AuthCall

abbrev pub failing : List Bool → Settings → Settings
failing faults s = record s { faults = faults }

module _ (generate : String → Option String) (fits : String → String → Bool) (hex : Hex) where
  complete_setup-Lasts : (pw : String) (s : Settings) → Lasts s (complete_setup generate pw s).0
  unfolding complete_setup store_hash Lasts
  complete_setup-Lasts pw s = elim (Bool-cases (str_eq pw "")) [
    | inl empty ↦ rw empty (λ j w h. h)
    | inr full ↦ elim (Option-cases (generate pw)) [
      | inl broken ↦ rw (full, broken) (λ j w h. h)
      | inr (hash, made) ↦ rw (full, made) (write_setting-Lasts key_web_password_hash hash s)
    ]
  ]

  fresh_secret-Lasts :
      (random : Option (List ℕ)) (s : Settings) → Lasts s (fresh_secret hex random s).0
  unfolding fresh_secret Lasts
  fresh_secret-Lasts none s = λ j w h. h
  fresh_secret-Lasts (some bs) s = write_setting-Lasts key_session_secret (hex.to_text bs) s

  secret_from-Lasts :
      (random : Option (List ℕ)) (o : Option (Option String)) (s : Settings)
      → Lasts s (secret_from hex random o s).0
  unfolding secret_from Lasts
  secret_from-Lasts random none s = λ j w h. h
  secret_from-Lasts random (some none) s = fresh_secret-Lasts random s
  secret_from-Lasts random (some (some v)) s = elim (Bool-cases (str_eq v "")) [
    | inl empty ↦ rw empty (fresh_secret-Lasts random s)
    | inr full ↦ rw full (λ j w h. h)
  ]

  unfoldable pub auth_call : AuthCall → Settings → Settings
  auth_call (sets_up pw faults) s = (complete_setup generate pw (failing faults s)).0
  auth_call (logs_in pw faults) s = (check_login fits pw (failing faults s)).0
  auth_call (loads random faults) s = (load_or_create_secret hex random (failing faults s)).0

  unfoldable pub auth_calls : List AuthCall → Settings → Settings
  auth_calls [] s = s
  auth_calls (c ∷ cs) s = auth_calls cs (auth_call c s)

  auth_call-Lasts : (c : AuthCall) (s : Settings) → Lasts s (auth_call c s)
  unfolding auth_call check_login load_or_create_secret Lasts
  auth_call-Lasts (sets_up pw faults) s = complete_setup-Lasts pw (failing faults s)
  auth_call-Lasts (logs_in pw faults) s =
      λ k v h. rw (read_setting-rows key_web_password_hash (failing faults s)) h
  auth_call-Lasts (loads random faults) s = λ k v h.
      secret_from-Lasts random _ _ k v
        (rw (read_setting-rows key_session_secret (failing faults s)) h)

  pub auth_calls-Lasts : (cs : List AuthCall) (s : Settings) → Lasts s (auth_calls cs s)
  unfolding auth_calls Lasts
  auth_calls-Lasts [] s = λ k v h. h
  auth_calls-Lasts (c ∷ cs) s =
      λ k v h. auth_calls-Lasts cs (auth_call c s) k v (auth_call-Lasts c s k v h)

  login-stored :
      (pw hash : String) (s : Settings)
      → lookup key_web_password_hash s.rows ≡ some hash
      → ((check_login fits pw s).1 ≡ none) ⊎ ((check_login fits pw s).1 ≡ some (fits hash pw))
  unfolding check_login
  login-stored pw hash s h = elim (read_setting-cases key_web_password_hash s) [
    | inl fault ↦ inl (rw fault refl)
    | inr fine ↦ inr (rw (fine, h) refl)
  ]

  -- Once `CompleteSetup` has succeeded with a password, whatever calls follow and whichever of their
  -- statements fail: the hash that was made then is the one that counts. A login returns an internal
  -- error or whether the password fits this hash, and no later setup succeeds or changes a row.
  pub setup_once :
      (pw : String) (s : Settings)
      → (complete_setup generate pw s).1 ≡ none
      → (cs : List AuthCall)
      → let s' = auth_calls cs (complete_setup generate pw s).0 in
        (hash : String) × (generate pw ≡ some hash)
        × ((try : String) (faults : List Bool)
            → ((check_login fits try (failing faults s')).1 ≡ none)
              ⊎ ((check_login fits try (failing faults s')).1 ≡ some (fits hash try)))
        × ((again : String) (faults : List Bool)
            → ((complete_setup generate again (failing faults s')).0.rows ≡ s'.rows)
              × ((complete_setup generate again (failing faults s')).1 ≢ none))
  unfolding Lasts
  setup_once pw s h cs =
      let (full, (hash, made, stored)) = complete_setup-ok generate fits pw s h in
      let kept =
        auth_calls-Lasts cs (complete_setup generate pw s).0 key_web_password_hash hash stored in
      (
        hash,
        made,
        (λ try faults.
            login-stored try hash (failing faults (auth_calls cs (complete_setup generate pw s).0))
              kept),
        λ again faults.
            complete_setup-taken generate fits again hash
              (failing faults (auth_calls cs (complete_setup generate pw s).0)) kept,
      )
