-- ===== src/Auth/Restarts.antt =====
-- Setup and restarts of the manager (backend/internal/auth/manager.go).
use auto_seed_relay.Prelude.{
  some_inj, ℕ, ◌≡◌, ◌≢◌, refl, Bool, true, String, List, [], ◌∷◌, Option, none, some, ◌⊎◌, inl, inr,
  length, lookup, sym,
}
use text.Mathlib.Text.{◌==◌ as str_eq}
use auto_seed_relay.Auth.Settings.{
  Settings, db_error, read_setting, insert_setting, write_setting, store_hash, complete_setup,
  check_login, Hex, fresh_secret, secret_from, load_or_create_secret,
}
use auto_seed_relay.Auth.Lasting.{
  AuthCall, sets_up, logs_in, loads, failing, auth_calls, setup_once,
}
use auto_seed_relay.Auth.Secret.{secret_persists}
use auto_seed_relay.Auth.Unary.{write_bytes, read_bytes, read_write, write_nonempty, zeros}

abbrev unary_hex : Hex
unary_hex = record {
  to_text = write_bytes;
  from_text = read_bytes 0;
  from_text-to_text = read_write;
  nonempty = λ b bs. write_nonempty (b ∷ bs);
}

-- A hash that is the password itself.
abbrev plain : String → Option String
plain pw = some pw

abbrev untouched : Settings
untouched = record { rows = []; faults = [] }

abbrev three_calls : List AuthCall
three_calls = loads (some (zeros 32)) [] ∷ sets_up "other" [] ∷ logs_in "pw" (true ∷ []) ∷ []

set_up : (complete_setup plain "pw" untouched).1 ≡ none
unfolding complete_setup store_hash write_setting insert_setting lookup
set_up = refl

setup_once_example :
    let s' =
      auth_calls plain str_eq unary_hex three_calls (complete_setup plain "pw" untouched).0 in
    (hash : String) × (plain "pw" ≡ some hash)
    × ((try : String) (faults : List Bool)
        → ((check_login str_eq try (failing faults s')).1 ≡ none)
          ⊎ ((check_login str_eq try (failing faults s')).1 ≡ some (str_eq hash try)))
    × ((again : String) (faults : List Bool)
        → ((complete_setup plain again (failing faults s')).0.rows ≡ s'.rows)
          × ((complete_setup plain again (failing faults s')).1 ≢ none))
setup_once_example = setup_once plain str_eq unary_hex "pw" untouched set_up three_calls

thirty_two : (cs : List ℕ) → some (zeros 32) ≡ some cs → length cs ≡ 32
thirty_two cs h = rw (sym (some_inj h)) refl

secret_made : (load_or_create_secret unary_hex (some (zeros 32)) untouched).1 ≡ inr (zeros 32)
unfolding load_or_create_secret read_setting secret_from fresh_secret write_setting insert_setting
    lookup
secret_made = refl

secret_persists_example :
    let s' =
      auth_calls plain str_eq unary_hex three_calls
        (load_or_create_secret unary_hex (some (zeros 32)) untouched).0 in
    ((load_or_create_secret unary_hex none (failing [] s')).1 ≡ inl db_error)
    ⊎ ((load_or_create_secret unary_hex none (failing [] s')).1 ≡ inr (zeros 32))
secret_persists_example =
    secret_persists unary_hex plain str_eq (some (zeros 32)) (zeros 32) untouched thirty_two
      secret_made three_calls none []
