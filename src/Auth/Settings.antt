-- ===== src/Auth/Settings.antt =====
-- The settings that backend/internal/auth/manager.go keeps in app_settings. The table is an association
-- list whose key is unique; whether the next statements fail is a list. Random bytes, hexadecimal and
-- bcrypt are arguments: bcrypt's hash may fail, and its comparison says whether a password fits a hash.
use text.Mathlib.Text.{◌==◌ as str_eq}
use auto_seed_relay.Prelude.{
  ℕ, Bool, false, not, List, [], ◌∷◌, ◌++◌, Option, none, some, String, if◌then◌else◌, ◌==◌, ◌≡◌,
  ◌⊎◌, inl, inr, length, lookup, string_eq,
}
use auto_seed_relay.Store.Rows.{next_fault, later_faults}

pub record Settings : Type 0 where
  pub rows : List (String × String)
  pub faults : List Bool

pub data SettingsError : Type 0 where
  db_error already_initialized empty_password hash_error invalid_secret no_random : SettingsError

abbrev pub spent : Settings → Settings
spent s = record s { faults = later_faults s.faults }

-- `SELECT value … WHERE key = ?`: an error, sql.ErrNoRows, or the value.
unfoldable pub read_setting : String → Settings → Settings × Option (Option String)
read_setting key s =
    if next_fault s.faults then (spent s, none) else (spent s, some (lookup key s.rows))

unfoldable pub insert_setting :
    String → String → Option String → Settings → Settings × Option SettingsError
insert_setting key value none s = (record s { rows = s.rows ++ (key, value) ∷ [] }, none)
insert_setting key value (some old) s = (s, some already_initialized)

-- `INSERT INTO app_settings`; a second row for a key is a violation of its uniqueness.
unfoldable pub write_setting : String → String → Settings → Settings × Option SettingsError
write_setting key value s =
    if next_fault s.faults
    then (spent s, some db_error)
    else insert_setting key value (lookup key s.rows) (spent s)

abbrev pub key_web_password_hash : String
key_web_password_hash = "web_password_hash"

abbrev pub key_session_secret : String
key_session_secret = "session_secret"

abbrev pub is_set : Option (Option String) → Bool
is_set none = false
is_set (some none) = false
is_set (some (some v)) = not (str_eq v "")

-- `SetupState`: an error counts as not initialised.
unfoldable pub setup_state : Settings → Settings × Bool
setup_state s = let (s', v) = read_setting key_web_password_hash s in (s', is_set v)

unfoldable pub store_hash : Option String → Settings → Settings × Option SettingsError
store_hash none s = (s, some hash_error)
store_hash (some hash) s = write_setting key_web_password_hash hash s

-- `CompleteSetup`
unfoldable pub complete_setup :
    (String → Option String) → String → Settings → Settings × Option SettingsError
complete_setup generate pw s =
    let stored = store_hash (generate pw) s in
    if str_eq pw "" then (s, some empty_password) else stored

abbrev pub compare_stored : (String → String → Bool) → String → Option (Option String) → Option Bool
compare_stored fits pw none = none
compare_stored fits pw (some none) = some false
compare_stored fits pw (some (some hash)) = some (fits hash pw)

-- `Login`; none is an internal failure.
unfoldable pub check_login : (String → String → Bool) → String → Settings → Settings × Option Bool
check_login fits pw s =
    let (s', v) = read_setting key_web_password_hash s in (s', compare_stored fits pw v)

-- Hexadecimal, with what the code relies on: what was encoded is decoded again, and is not empty unless
-- there were no bytes.
pub record Hex : Type 0 where
  pub to_text : List ℕ → String
  pub from_text : String → Option (List ℕ)
  pub from_text-to_text : (bs : List ℕ) → from_text (to_text bs) ≡ some bs
  pub nonempty : (b : ℕ) (bs : List ℕ) → str_eq (to_text (b ∷ bs)) "" ≡ false

abbrev pub secret_bytes : ℕ
secret_bytes = 32

module _ (hex : Hex) where
  unfoldable pub stored_secret : Option (List ℕ) → SettingsError ⊎ List ℕ
  stored_secret none = inl invalid_secret
  stored_secret (some bs) = if length bs == secret_bytes then inr bs else inl invalid_secret

  abbrev pub persisted : List ℕ → Option SettingsError → SettingsError ⊎ List ℕ
  persisted bs none = inr bs
  persisted bs (some e) = inl e

  -- The random bytes, if there are any, become the secret.
  unfoldable pub fresh_secret : Option (List ℕ) → Settings → Settings × (SettingsError ⊎ List ℕ)
  fresh_secret none s = (s, inl no_random)
  fresh_secret (some bs) s =
      let (s', e) = write_setting key_session_secret (hex.to_text bs) s in (s', persisted bs e)

  unfoldable pub secret_from :
      Option (List ℕ) → Option (Option String) → Settings → Settings × (SettingsError ⊎ List ℕ)
  secret_from random none s = (s, inl db_error)
  secret_from random (some none) s = fresh_secret random s
  secret_from random (some (some v)) s =
      let made = fresh_secret random s in
      if str_eq v "" then made else (s, stored_secret (hex.from_text v))

  -- `loadOrCreateSecret`
  unfoldable pub load_or_create_secret :
      Option (List ℕ) → Settings → Settings × (SettingsError ⊎ List ℕ)
  load_or_create_secret random s =
      let (s', v) = read_setting key_session_secret s in secret_from random v s'
