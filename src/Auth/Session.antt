-- ===== src/Auth/Session.antt =====
-- The sessions of backend/internal/auth/session.go and the gate of middleware.go. A byte is its number.
-- The HMAC of the manager's secret and base64 are arguments; times are Unix seconds.
use text.Mathlib.Text.{◌==◌ as str_eq, starts_with}
use auto_seed_relay.Prelude.{
  ℕ, zero, suc, ◌+◌, ◌*◌, ◌/◌, ◌%◌, ◌^◌, ◌≡◌, Bool, true, false, not, List, [], ◌∷◌, ◌++◌, Option,
  none, some, String, if◌then◌else◌, ◌&&◌, ◌||◌, leb, ◌==◌, length,
}
use auto_seed_relay.Store.Rows.{mem_str}

-- `binary.BigEndian`, for a number of bytes.
unfoldable pub put_uint : ℕ → ℕ → List ℕ
put_uint zero n = []
put_uint (suc k) n = put_uint k (n / 256) ++ (n % 256) ∷ []

unfoldable pub uint_from : ℕ → List ℕ → ℕ
uint_from acc [] = acc
uint_from acc (b ∷ bs) = uint_from (acc * 256 + b) bs

unfoldable pub first : ℕ → List ℕ → List ℕ
first zero bs = []
first (suc k) [] = []
first (suc k) (b ∷ bs) = b ∷ first k bs

unfoldable pub rest_after : ℕ → List ℕ → List ℕ
rest_after zero bs = bs
rest_after (suc k) [] = []
rest_after (suc k) (b ∷ bs) = rest_after k bs

-- `hmac.Equal`
unfoldable pub same_bytes : List ℕ → List ℕ → Bool
same_bytes [] [] = true
same_bytes [] (b ∷ bs) = false
same_bytes (a ∷ cs) [] = false
same_bytes (a ∷ cs) (b ∷ bs) = (a == b) && same_bytes cs bs

abbrev pub session_ttl : ℕ
session_ttl = 24 * 60 * 60

-- What HMAC-SHA256 with the secret and base64 do, with what the code relies on: a MAC has 32 bytes, and
-- what was encoded is decoded again and is not the empty text.
pub record Codec : Type 0 where
  pub sign : List ℕ → List ℕ
  pub encode : List ℕ → String
  pub decode : String → Option (List ℕ)
  pub length-sign : (bs : List ℕ) → length (sign bs) ≡ 32
  pub decode-encode : (bs : List ℕ) → decode (encode bs) ≡ some bs
  pub encode_nonempty : (bs : List ℕ) → str_eq (encode bs) "" ≡ false

-- `exp <= m.now().Unix()`, for the int64 of 8 bytes; from 2^63 on that is negative.
abbrev pub expired_at : ℕ → ℕ → Bool
expired_at now exp = if leb (2 ^ 63) exp then true else leb exp now

-- `csrfValid`
unfoldable pub csrf_valid : String → Option String → Bool
csrf_valid header none = false
csrf_valid header (some cookie) =
    not (str_eq header "") && not (str_eq cookie "") && str_eq header cookie

-- The cookies and the header that matter of a request.
pub record WebRequest : Type 0 where
  pub path : String
  pub method : String
  pub session : Option String
  pub csrf_cookie : Option String
  pub csrf_header : String

pub data Gate : Type 0 where
  passes forbidden unauthorized : Gate

-- `isAuthExempt`
unfoldable pub is_auth_exempt : String → Bool
is_auth_exempt path =
    if mem_str path ("/api/v2/health" ∷ "/api/v2/auth/login" ∷ [])
    then true
    else starts_with path "/api/v2/setup/"

abbrev pub changes_state : String → Bool
changes_state method = mem_str method ("POST" ∷ "PUT" ∷ "DELETE" ∷ [])

module _ (codec : Codec) where
  -- The value of the cookie of `StartSession`.
  unfoldable pub session_cookie : ℕ → String
  session_cookie now =
      let exp = put_uint 8 (now + session_ttl) in codec.encode (exp ++ codec.sign exp)

  unfoldable pub payload_valid : ℕ → List ℕ → Bool
  payload_valid now payload =
      let exp = first 8 payload in
      (length payload == 40)
      && not (expired_at now (uint_from 0 exp))
      && same_bytes (codec.sign exp) (rest_after 8 payload)

  unfoldable pub decoded_valid : ℕ → Option (List ℕ) → Bool
  decoded_valid now none = false
  decoded_valid now (some payload) = payload_valid now payload

  -- `authenticated`; no cookie is none.
  unfoldable pub authenticated : ℕ → Option String → Bool
  authenticated now none = false
  authenticated now (some value) = not (str_eq value "") && decoded_valid now (codec.decode value)

  -- `Middleware`, with the answer of `SetupState`.
  unfoldable pub middleware : Bool → ℕ → WebRequest → Gate
  middleware initialized now r =
      if not (starts_with r.path "/api/v2/") || is_auth_exempt r.path
      then passes
      else if not initialized
      then forbidden
      else if not (authenticated now r.session)
      then unauthorized
      else if changes_state r.method
      then if not (csrf_valid r.csrf_header r.csrf_cookie) then forbidden else passes
      else passes
