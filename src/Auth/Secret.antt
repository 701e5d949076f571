-- ===== src/Auth/Secret.antt =====
-- The session secret over restarts (backend/internal/auth/manager.go).
use text.Mathlib.Text.{◌==◌ as str_eq}
use auto_seed_relay.Prelude.{
  some_inj, ℕ, ◌≡◌, refl, ap, ◌∙◌, sym, Bool, false, List, [], ◌∷◌, Option, none, some, String,
  arith, ◌==◌, ==_iff, length, lookup, string_eq, Bool-cases, Option-cases, ◌⊎◌, inl, inr,
}
use auto_seed_relay.Auth.Settings.{
  Settings, SettingsError, db_error, read_setting, write_setting, key_session_secret, Hex,
  secret_bytes, stored_secret, persisted, fresh_secret, secret_from, load_or_create_secret,
}
use auto_seed_relay.Auth.Initialized.{write_setting-ok, read_setting-rows, read_setting-cases}
use auto_seed_relay.Auth.Lasting.{AuthCall, failing, auth_calls, Lasts, auth_calls-Lasts}

module _ (hex : Hex) where
  -- The table holds the secret `bs`.
  abbrev Holds : List ℕ → Settings → Type 0
  Holds bs s =
      (v : String) × (lookup key_session_secret s.rows ≡ some v)
      × (str_eq v "" ≡ false)
      × (hex.from_text v ≡ some bs)
      × (length bs ≡ 32)

  text_nonempty : (bs : List ℕ) → length bs ≡ 32 → str_eq (hex.to_text bs) "" ≡ false
  text_nonempty [] h = absurd (omega arith)
  text_nonempty (b ∷ bs) h = hex.nonempty b bs

  secret_of : List ℕ → SettingsError ⊎ List ℕ → List ℕ
  secret_of d (inl e) = d
  secret_of d (inr bs) = bs

  same_secret : (cs bs : List ℕ) (r : SettingsError ⊎ List ℕ) → r ≡ inr cs → r ≡ inr bs → cs ≡ bs
  unfolding secret_of
  same_secret cs bs r h k = ap (secret_of cs) (sym h ∙ k)

  fresh-Holds :
      (random : Option (List ℕ)) (bs : List ℕ) (s : Settings)
      → ((cs : List ℕ) → random ≡ some cs → length cs ≡ 32)
      → (fresh_secret hex random s).1 ≡ inr bs
      → Holds bs (fresh_secret hex random s).0
  unfolding fresh_secret
  fresh-Holds none bs s k h = absurd cc
  fresh-Holds (some cs) bs s k h =
      elim (Option-cases (write_setting key_session_secret (hex.to_text cs) s).1) [
        | inr (e, failed) ↦ absurd (let m = rw failed at h in cc)
        | inl fine ↦
            let same : cs ≡ bs =
              same_secret cs bs
                (persisted hex cs (write_setting key_session_secret (hex.to_text cs) s).1)
                (rw fine refl) h in
            (
              hex.to_text cs,
              write_setting-ok key_session_secret (hex.to_text cs) s fine,
              text_nonempty cs (k cs refl),
              hex.from_text-to_text cs ∙ ap some same,
              rw (sym same) (k cs refl),
            )
      ]

  stored-Holds :
      (o : Option (List ℕ)) (bs : List ℕ)
      → stored_secret hex o ≡ inr bs
      → (o ≡ some bs) × (length bs ≡ 32)
  unfolding stored_secret
  stored-Holds none bs h = absurd cc
  stored-Holds (some cs) bs h = elim (Bool-cases (length cs == secret_bytes)) [
    | inr other ↦ absurd (let m = rw other at h in cc)
    | inl right ↦
        let same : cs ≡ bs =
          same_secret cs bs (stored_secret hex (some cs)) (unfold stored_secret in rw right refl)
            h in
        (ap some same, rw (sym same) ((==_iff (length cs) 32).0 right))
  ]

  from-Holds :
      (random : Option (List ℕ)) (o : Option (Option String)) (bs : List ℕ) (s : Settings)
      → ((cs : List ℕ) → random ≡ some cs → length cs ≡ 32)
      → (o ≡ none) ⊎ (o ≡ some (lookup key_session_secret s.rows))
      → (secret_from hex random o s).1 ≡ inr bs
      → Holds bs (secret_from hex random o s).0
  unfolding secret_from
  from-Holds random none bs s k e h = absurd cc
  from-Holds random (some none) bs s k e h = fresh-Holds random bs s k h
  from-Holds random (some (some v)) bs s k e h = elim (Bool-cases (str_eq v "")) [
    | inl empty ↦ rw empty (fresh-Holds random bs s k (rw empty at h))
    | inr full ↦
        let (a, b) = stored-Holds (hex.from_text v) bs (rw full at h) in
        rw full (v, (elim e [ inl bad ↦ absurd cc | inr got ↦ sym (some_inj got) ]), full, a, b)
  ]

  loaded-Holds :
      (random : Option (List ℕ)) (bs : List ℕ) (s : Settings)
      → ((cs : List ℕ) → random ≡ some cs → length cs ≡ 32)
      → (load_or_create_secret hex random s).1 ≡ inr bs
      → Holds bs (load_or_create_secret hex random s).0
  unfolding load_or_create_secret
  loaded-Holds random bs s k h =
      let (s', o) = read_setting key_session_secret s in
      from-Holds random o bs s' k
        (elim (read_setting-cases key_session_secret s) [
          | inl fault ↦ inl fault
          | inr fine ↦ inr (
              fine
              ∙ ap (λ rows. some (lookup key_session_secret rows))
                  (sym (read_setting-rows key_session_secret s)))
        ])
        h

  load-Holds :
      (random : Option (List ℕ)) (bs : List ℕ) (s : Settings)
      → Holds bs s
      → ((load_or_create_secret hex random s).1 ≡ inl db_error)
        ⊎ ((load_or_create_secret hex random s).1 ≡ inr bs)
  unfolding load_or_create_secret secret_from stored_secret
  load-Holds random bs s (v, stored, full, text, size) =
      elim (read_setting-cases key_session_secret s) [
        | inl fault ↦ inl (rw fault refl)
        | inr fine ↦ inr (rw (fine, stored, full, text, (==_iff (length bs) 32).1 size) refl)
      ]

  -- The secret that a start of the manager returns, stored or made at random, is the one that every later
  -- start returns, whatever random bytes it would have taken, whatever other calls come in between and
  -- whichever of their statements fail, unless the statement that reads it fails.
  pub secret_persists :
      (generate : String → Option String) (fits : String → String → Bool)
      → (random : Option (List ℕ)) (bs : List ℕ) (s : Settings)
      → ((cs : List ℕ) → random ≡ some cs → length cs ≡ 32)
      → (load_or_create_secret hex random s).1 ≡ inr bs
      → (calls : List AuthCall) (later : Option (List ℕ)) (faults : List Bool)
      → let s' = auth_calls generate fits hex calls (load_or_create_secret hex random s).0 in
        ((load_or_create_secret hex later (failing faults s')).1 ≡ inl db_error)
        ⊎ ((load_or_create_secret hex later (failing faults s')).1 ≡ inr bs)
  unfolding Lasts
  secret_persists generate fits random bs s k h calls later faults =
      let (v, stored, full, text, size) = loaded-Holds random bs s k h in
      load-Holds later bs _ (
        v,
        auth_calls-Lasts generate fits hex calls (load_or_create_secret hex random s).0
            key_session_secret v stored,
        full,
        text,
        size,
      )
