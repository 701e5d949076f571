-- ===== src/Qb/Client.antt =====
-- The requests of backend/internal/qb/qb.go. The server is an argument: what it answers to a request may
-- depend on all requests so far. A request is its path and its form or query; the cookie jar, the Referer
-- header and the encoding of bodies are HTTP. `says_fails` tells whether a trimmed, lower-cased body
-- contains "fails" (of the login reply), `trim` removes surrounding white space.
use text.Mathlib.Text.{◌==◌ as str_eq}
use auto_seed_relay.Prelude.{
  ℕ, Bool, true, false, List, [], ◌∷◌, ◌++◌, Option, none, some, String, if◌then◌else◌, ◌==◌, ◌||◌,
  leb, ◌⊎◌, inl, inr,
}

pub data Request : Type 0 where
  logs_in : Request
  asks : String → List (String × String) → Request

pub data HttpReply : Type 0 where
  unreachable : HttpReply
  response : ℕ → String → HttpReply

-- `QBConnectionError`, `QBAuthError` and `QBRequestError`.
pub data QbError : Type 0 where
  connection_error auth_error request_error : QbError

-- What a client keeps, and the requests that it has sent.
pub record Client : Type 0 where
  pub logged_in : Bool
  pub version : Option String
  pub sent : List Request

abbrev pub new_client : Client
new_client = record { logged_in = false; version = none; sent = [] }

abbrev pub set_login : Bool → Client → Client
set_login b c = record c { logged_in = b }

abbrev pub refused : QbError ⊎ HttpReply → Bool
refused (inl error) = false
refused (inr unreachable) = false
refused (inr (response status body)) = (status == 401) || (status == 403)

abbrev pub answered : QbError ⊎ HttpReply → QbError ⊎ (ℕ × String)
answered (inl error) = inl error
answered (inr unreachable) = inl connection_error
answered (inr (response status body)) = inr (status, body)

-- `expectOK`
unfoldable pub expect_ok : ℕ → Option QbError
expect_ok status = if leb 400 status then some request_error else none

abbrev pub written : QbError ⊎ (ℕ × String) → Option QbError
written (inl error) = some error
written (inr (status, body)) = expect_ok status

unfoldable pub version_of : (String → String) → QbError ⊎ (ℕ × String) → QbError ⊎ String
version_of trim (inl error) = inl error
version_of trim (inr (status, body)) =
    if status == 200
    then if str_eq (trim body) "" then inl request_error else inr (trim body)
    else inl request_error

abbrev pub keep_version : QbError ⊎ String → Client → Client
keep_version (inl error) c = c
keep_version (inr v) c = record c { version = some v }

module _ (server : List Request → HttpReply) where
  -- One exchange.
  abbrev pub exchange : Request → Client → Client × HttpReply
  exchange q c = let sent = c.sent ++ q ∷ [] in (record c { sent = sent }, server sent)

  unfoldable pub settle_login : (String → Bool) → HttpReply → Client → Client × Option QbError
  settle_login says_fails unreachable c = (set_login false c, some connection_error)
  settle_login says_fails (response status body) c =
      if status == 204
      then (set_login true c, none)
      else if status == 200
      then if says_fails body
        then (set_login false c, some auth_error)
        else (set_login true c, none)
      else (set_login false c, some auth_error)

  -- `Login`, which `ensureLogin` calls only when the client is not logged in.
  unfoldable pub login : (String → Bool) → Client → Client × Option QbError
  login says_fails c =
      let (c', reply) = exchange logs_in c in
      let fresh = settle_login says_fails reply c' in if c.logged_in then (c, none) else fresh

  -- What follows `ensureLogin`: its error, or the reply to the request.
  unfoldable pub after_login : Request → Option QbError → Client → Client × (QbError ⊎ HttpReply)
  after_login q (some error) c = (c, inl error)
  after_login q none c = let (c', reply) = exchange q c in (c', inr reply)

  unfoldable pub attempt : (String → Bool) → Request → Client → Client × (QbError ⊎ HttpReply)
  attempt says_fails q c = let (c', error) = login says_fails c in after_login q error c'

  -- `request` without `retry`, and with it: one more attempt after a 401 or 403.
  unfoldable pub request_once :
      (String → Bool) → Request → Client → Client × (QbError ⊎ (ℕ × String))
  request_once says_fails q c = let (c', reply) = attempt says_fails q c in (c', answered reply)

  unfoldable pub request : (String → Bool) → Request → Client → Client × (QbError ⊎ (ℕ × String))
  request says_fails q c =
      let (c', reply) = attempt says_fails q c in
      let again = request_once says_fails q (set_login false c') in
      if refused reply then again else (c', answered reply)

  -- `Delete`
  unfoldable pub delete_torrents :
      (String → Bool) → String → Bool → Client → Client × Option QbError
  delete_torrents says_fails hashes files c =
      let flag = if files then "true" else "false" in
      let form = ("hashes", hashes) ∷ ("deleteFiles", flag) ∷ [] in
      let (c', r) = request says_fails (asks "/api/v2/torrents/delete" form) c in (c', written r)

  unfoldable pub after_verb :
      (String → Bool) → Request → QbError ⊎ (ℕ × String) → Client → Client × Option QbError
  after_verb says_fails fallback (inl error) c = (c, some error)
  after_verb says_fails fallback (inr (status, body)) c =
      let (c', r) = request says_fails fallback c in
      if status == 404 then (c', written r) else (c, expect_ok status)

  -- `stopStart`: the verb of qBittorrent 5, and on a 404 that of qBittorrent 4.
  unfoldable pub stop_start :
      (String → Bool) → String → String → String → Client → Client × Option QbError
  stop_start says_fails verb fallback hashes c =
      let form = ("hashes", hashes) ∷ [] in
      let (c', r) = request says_fails (asks verb form) c in
      after_verb says_fails (asks fallback form) r c'

  -- `Stop` and `Start`
  unfoldable pub stop_torrents : (String → Bool) → String → Client → Client × Option QbError
  stop_torrents says_fails = stop_start says_fails "/api/v2/torrents/stop" "/api/v2/torrents/pause"

  unfoldable pub start_torrents : (String → Bool) → String → Client → Client × Option QbError
  start_torrents says_fails =
      stop_start says_fails "/api/v2/torrents/start" "/api/v2/torrents/resume"

  -- `probeVersion`, which is `Ping`.
  unfoldable pub probe_version :
      (String → Bool) → (String → String) → Client → Client × (QbError ⊎ String)
  probe_version says_fails trim c =
      let (c', r) = request says_fails (asks "/api/v2/app/version" []) c in (c', version_of trim r)

  unfoldable pub cached_version :
      (String → Bool) → (String → String) → Option String → Client → Client × (QbError ⊎ String)
  cached_version says_fails trim (some v) c = (c, inr v)
  cached_version says_fails trim none c =
      let (c', r) = probe_version says_fails trim c in (keep_version r c', r)

  -- `Version`: probed once, and then kept.
  unfoldable pub get_version :
      (String → Bool) → (String → String) → Client → Client × (QbError ⊎ String)
  get_version says_fails trim c = cached_version says_fails trim c.version c
