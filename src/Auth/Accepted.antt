-- ===== src/Auth/Accepted.antt =====
-- Which sessions are accepted (backend/internal/auth/session.go, middleware.go).
use text.Mathlib.Text.{◌==◌ as str_eq, starts_with}
use native.Mathlib.Nat.{div-lt_iff_lt-mul, div-add-mod', pow-suc}
use auto_seed_relay.Prelude.{
  ℕ, zero, suc, ◌+◌, ◌*◌, ◌/◌, ◌%◌, ◌^◌, ◌≤◌, ◌<◌, ◌≡◌, ◌↔◌, refl, ap, ◌∙◌, sym, Bool, true, false,
  not, List, [], ◌∷◌, ◌++◌, Option, none, some, String, arith, ◌||◌, ltb, ◌==◌, length,
  length-append, ==_iff, Bool-cases, inl, inr,
}
use auto_seed_relay.Auth.Session.{
  put_uint, uint_from, first, rest_after, same_bytes, session_ttl, Codec, session_cookie,
  expired_at, payload_valid, decoded_valid, authenticated, csrf_valid, WebRequest, passes,
  is_auth_exempt, changes_state, middleware,
}

length-put_uint : (k n : ℕ) → length (put_uint k n) ≡ k
unfolding put_uint
length-put_uint zero n = refl
length-put_uint (suc k) n =
    omega (arith, length-append (put_uint k (n / 256)) (n % 256 ∷ []), length-put_uint k (n / 256))

uint_from-append :
    (acc b : ℕ) (bs : List ℕ) → uint_from acc (bs ++ b ∷ []) ≡ uint_from acc bs * 256 + b
unfolding uint_from
uint_from-append acc b [] = refl
uint_from-append acc b (c ∷ bs) = uint_from-append (acc * 256 + c) b bs

uint_from-put_uint : (k n : ℕ) → n < 256 ^ k → uint_from 0 (put_uint k n) ≡ n
unfolding uint_from put_uint
uint_from-put_uint zero n h = omega arith
uint_from-put_uint (suc k) n h =
    uint_from-append 0 (n % 256) (put_uint k (n / 256))
    ∙ ap (λ m. m * 256 + n % 256)
        (uint_from-put_uint k (n / 256)
          ((div-lt_iff_lt-mul (omega arith)).1 (rw (sym (pow-suc 256 k)) h)))
    ∙ div-add-mod' n 256

first-append : (k : ℕ) (xs ys : List ℕ) → length xs ≡ k → first k (xs ++ ys) ≡ xs
unfolding first
first-append zero [] ys h = refl
first-append zero (x ∷ xs) ys h = absurd (omega arith)
first-append (suc k) [] ys h = absurd (omega arith)
first-append (suc k) (x ∷ xs) ys h = ap (λ zs. x ∷ zs) (first-append k xs ys (omega arith))

rest_after-append : (k : ℕ) (xs ys : List ℕ) → length xs ≡ k → rest_after k (xs ++ ys) ≡ ys
unfolding rest_after
rest_after-append zero [] ys h = refl
rest_after-append zero (x ∷ xs) ys h = absurd (omega arith)
rest_after-append (suc k) [] ys h = absurd (omega arith)
rest_after-append (suc k) (x ∷ xs) ys h = rest_after-append k xs ys (omega arith)

first-rest : (k : ℕ) (xs : List ℕ) → xs ≡ first k xs ++ rest_after k xs
unfolding first rest_after
first-rest zero xs = refl
first-rest (suc k) [] = refl
first-rest (suc k) (x ∷ xs) = ap (λ zs. x ∷ zs) (first-rest k xs)

length-first : (k : ℕ) (xs : List ℕ) → k ≤ length xs → length (first k xs) ≡ k
unfolding first
length-first zero xs h = refl
length-first (suc k) [] h = absurd (omega arith)
length-first (suc k) (x ∷ xs) h = ap suc (length-first k xs (omega arith))

same_bytes_iff : (xs ys : List ℕ) → (same_bytes xs ys ≡ true) ↔ (xs ≡ ys)
unfolding same_bytes
same_bytes_iff [] [] = ((λ h. refl), λ h. refl)
same_bytes_iff [] (y ∷ ys) = ((λ h. absurd cc), λ h. absurd cc)
same_bytes_iff (x ∷ xs) [] = ((λ h. absurd cc), λ h. absurd cc)
same_bytes_iff (x ∷ xs) (y ∷ ys) = ground (arith, same_bytes_iff xs ys)

module _ (codec : Codec) where
  cookie_payload : (now : ℕ) → List ℕ
  cookie_payload now = put_uint 8 (now + session_ttl) ++ codec.sign (put_uint 8 (now + session_ttl))

  not-true : (b : Bool) → not b ≡ true → b ≡ false
  not-true true h = absurd cc
  not-true false h = refl

  payload_parts :
      (now : ℕ) (payload : List ℕ)
      → payload_valid codec now payload ≡ true
      → (length payload ≡ 40)
        × (expired_at now (uint_from 0 (first 8 payload)) ≡ false)
        × (codec.sign (first 8 payload) ≡ rest_after 8 payload)
  unfolding payload_valid
  payload_parts now payload h = elim (Bool-cases (length payload == 40)) [
    | inr other ↦ absurd (let k = rw other at h in cc)
    | inl forty ↦ elim (Bool-cases (expired_at now (uint_from 0 (first 8 payload)))) [
      | inl late ↦ absurd (let k = rw (forty, late) at h in cc)
      | inr early ↦
          let k = rw (forty, early) at h in
          ((==_iff (length payload) 40).0 forty, early, (same_bytes_iff _ _).0 k)
    ]
  ]

  fresh_payload :
      (t now : ℕ)
      → t + session_ttl < 2 ^ 63
      → payload_valid codec now (cookie_payload t) ≡ ltb now (t + session_ttl)
  unfolding payload_valid cookie_payload
  fresh_payload t now h =
      let exp = put_uint 8 (t + session_ttl) in
      let size : length exp ≡ 8 = length-put_uint 8 (t + session_ttl) in
      let all : length (cookie_payload t) ≡ 40 =
        omega (arith, length-append exp (codec.sign exp), size, codec.length-sign exp) in
      let value : uint_from 0 exp ≡ t + session_ttl =
        uint_from-put_uint 8 (t + session_ttl) (omega arith) in
      let mac = (same_bytes_iff (codec.sign exp) (codec.sign exp)).1 refl in
      rw
        (
          (==_iff _ _).1 all,
          first-append 8 exp (codec.sign exp) size,
          rest_after-append 8 exp (codec.sign exp) size,
          value,
          mac,
        )
        (ground arith)

  -- A payload that the manager has signed, with the time at which it expires.
  abbrev pub Signed : String → ℕ → Type 0
  Signed value exp =
      (payload : List ℕ) × (codec.decode value ≡ some payload)
      × (payload ≡ first 8 payload ++ codec.sign (first 8 payload))
      × (exp ≡ uint_from 0 (first 8 payload))

  decoded-Signed :
      (now : ℕ) (value : String) (o : Option (List ℕ))
      → codec.decode value ≡ o
      → decoded_valid codec now o ≡ true
      → (exp : ℕ) × Signed value exp × (now < exp)
  unfolding decoded_valid
  decoded-Signed now value none e h = absurd cc
  decoded-Signed now value (some payload) e h =
      let (size, early, mac) = payload_parts now payload h in
      (
        uint_from 0 (first 8 payload),
        (payload, e, first-rest 8 payload ∙ ap (λ bs. first 8 payload ++ bs) (sym mac), refl),
        ground arith,
      )

  authenticated-Signed :
      (now : ℕ) (o : Option String)
      → authenticated codec now o ≡ true
      → (value : String) × (o ≡ some value) × ((exp : ℕ) × Signed value exp × (now < exp))
  unfolding authenticated
  authenticated-Signed now none h = absurd cc
  authenticated-Signed now (some value) h = elim (Bool-cases (str_eq value "")) [
    | inl empty ↦ absurd (let k = rw empty at h in cc)
    | inr full ↦ (value, refl, decoded-Signed now value (codec.decode value) refl (rw full at h))
  ]

  fresh_session :
      (t now : ℕ)
      → t + session_ttl < 2 ^ 63
      → authenticated codec now (some (session_cookie codec t)) ≡ ltb now (t + session_ttl)
  unfolding authenticated session_cookie decoded_valid cookie_payload
  fresh_session t now h =
      rw (codec.encode_nonempty (cookie_payload t), codec.decode-encode (cookie_payload t))
        (fresh_payload t now h)

  -- What the gate has asked of a request.
  gate_passed :
      (initialized : Bool) (now : ℕ) (r : WebRequest)
      → (not (starts_with r.path "/api/v2/") || is_auth_exempt r.path) ≡ false
      → middleware codec initialized now r ≡ passes
      → (initialized ≡ true)
        × (authenticated codec now r.session ≡ true)
        × (changes_state r.method ≡ true → csrf_valid r.csrf_header r.csrf_cookie ≡ true)
  unfolding middleware
  gate_passed false now r p h = absurd (let k = rw p at h in cc)
  gate_passed true now r p h = elim (Bool-cases (authenticated codec now r.session)) [
    | inr bad ↦ absurd (let k = rw (p, bad) at h in cc)
    | inl good ↦ (
      refl,
      good,
      λ c. elim (Bool-cases (csrf_valid r.csrf_header r.csrf_cookie)) [
        | inl same ↦ same
        | inr other ↦ absurd (let k = rw (p, good, c, other) at h in cc)
      ],
    )
  ]

  -- The cookie of a session is accepted until exactly 24 hours after its start. Whatever request passes
  -- the gate on a protected path, the system is initialised and the cookie decodes to an expiry time that
  -- is still to come, followed by the HMAC of its bytes under the secret; a request that changes state has
  -- also passed the CSRF check.
  pub session_gate :
      (t now : ℕ)
      → t + session_ttl < 2 ^ 63
      → (authenticated codec now (some (session_cookie codec t)) ≡ ltb now (t + session_ttl))
        × ((initialized : Bool) (r : WebRequest)
            → (not (starts_with r.path "/api/v2/") || is_auth_exempt r.path) ≡ false
            → middleware codec initialized now r ≡ passes
            → (initialized ≡ true)
              × ((value : String) × (r.session ≡ some value)
                  × ((exp : ℕ) × Signed value exp × (now < exp)))
              × (changes_state r.method ≡ true → csrf_valid r.csrf_header r.csrf_cookie ≡ true))
  session_gate t now h = (
    fresh_session t now h,
    λ initialized r p g.
        let (i, a, c) = gate_passed initialized now r p g in
        (i, authenticated-Signed now r.session a, c),
  )
