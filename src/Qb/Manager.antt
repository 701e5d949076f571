-- ===== src/Qb/Manager.antt =====
-- `Manager` of backend/internal/qb/manager.go. The map of instances is an association list; what a ping
-- of an instance answers, a version or an error text, is an argument.
use Prim.Native.String.{compare}
use text.Mathlib.Text.{is_le}
use auto_seed_relay.Prelude.{
  Bool, true, false, List, [], ◌∷◌, Option, none, some, String, if◌then◌else◌, ◌⊎◌, inl, inr,
  lookup, insert, erase, string_eq,
}

-- The order of `sort.Strings`.
abbrev pub str_le : String → String → Bool
str_le s t = is_le (compare s t)

module _ {I : Type 0} where
  unfoldable pub new_manager : List (String × I)
  new_manager = []

  -- `Set`; no instance removes the entry.
  unfoldable pub set_instance : String → Option I → List (String × I) → List (String × I)
  set_instance name none m = erase name m
  set_instance name (some i) m = insert name i m

  unfoldable pub get_instance : String → List (String × I) → Option I
  get_instance name m = lookup name m

  unfoldable pub remove_instance : String → List (String × I) → List (String × I)
  remove_instance name m = erase name m

unfoldable pub insert_name : String → List String → List String
insert_name x [] = x ∷ []
insert_name x (y ∷ ys) = if str_le x y then x ∷ y ∷ ys else y ∷ insert_name x ys

unfoldable pub sort_names : List String → List String
sort_names [] = []
sort_names (x ∷ xs) = insert_name x (sort_names xs)

unfoldable pub insert_pair {ℓ} : {I : Type ℓ} → String × I → List (String × I) → List (String × I)
insert_pair x [] = x ∷ []
insert_pair x (y ∷ ys) = if str_le x.0 y.0 then x ∷ y ∷ ys else y ∷ insert_pair x ys

-- `sort.Slice` by name.
unfoldable pub sort_pairs {ℓ} : {I : Type ℓ} → List (String × I) → List (String × I)
sort_pairs [] = []
sort_pairs (x ∷ xs) = insert_pair x (sort_pairs xs)

abbrev pub keys_of {ℓ} : {I : Type ℓ} → List (String × I) → List String
keys_of [] = []
keys_of ((name, i) ∷ m) = name ∷ keys_of m

-- `Names`
unfoldable pub manager_names {ℓ} : {I : Type ℓ} → List (String × I) → List String
manager_names m = sort_names (keys_of m)

-- `Status`; the text of the error or of the version.
pub record Status : Type 0 where
  pub name : String
  pub online : Bool
  pub version : String
  pub last_error : String

abbrev pub status_of : String → String ⊎ String → Status
status_of name (inl error) = record {
  name = name;
  online = false;
  version = "";
  last_error = error;
}
status_of name (inr version) = record {
  name = name;
  online = true;
  version = version;
  last_error = "";
}

unfoldable pub ping_all {ℓ} : {I : Type ℓ} → (I → String ⊎ String) → List (String × I) → List Status
ping_all ping [] = []
ping_all ping ((name, i) ∷ m) = status_of name (ping i) ∷ ping_all ping m

-- `AllHealthy`, when its context lasts.
unfoldable pub all_healthy {ℓ} :
    {I : Type ℓ} → (I → String ⊎ String) → List (String × I) → List Status
all_healthy ping m = ping_all ping (sort_pairs m)
