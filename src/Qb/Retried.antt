-- ===== src/Qb/Retried.antt =====
-- What a request sends (backend/internal/qb/qb.go).
use auto_seed_relay.Prelude.{
  ℕ, ◌≡◌, refl, ap, ◌∙◌, Bool, true, false, List, [], ◌∷◌, ◌++◌, append-nil, Option, none, some,
  String, if◌then◌else◌, ◌≢◌, sym, arith, Bool-cases, ◌⊎◌, inl, inr,
}
use auto_seed_relay.Qb.Client.{
  Request, logs_in, HttpReply, unreachable, response, QbError, Client, settle_login, login,
  set_login, after_login, attempt, refused, answered, request_once, request,
}

module _ (server : List Request → HttpReply) (says_fails : String → Bool) where
  -- The login that comes before a request, if one is needed.
  abbrev pub first_login : Client → List Request
  first_login c = if c.logged_in then [] else logs_in ∷ []

  -- One attempt: the login failed, or the request was sent and the result is what the server said.
  abbrev Attempted :
      Request → List Request → List Request → QbError ⊎ HttpReply → List Request → Type 0
  Attempted q sent before r sent' =
      ((e : QbError) × (before ≡ logs_in ∷ []) × (r ≡ inl e) × (sent' ≡ sent ++ before))
      ⊎ ((r ≡ inr (server sent')) × (sent' ≡ (sent ++ before) ++ q ∷ []))

  settle_login-sent :
      (r : HttpReply) (c : Client) → (settle_login server says_fails r c).0.sent ≡ c.sent
  unfolding settle_login
  settle_login-sent unreachable c = refl
  settle_login-sent (response status body) c = ground arith

  sent_after :
      (q : Request) (sent before : List Request) (o : Option QbError) (c : Client)
      → c.sent ≡ sent ++ before
      → (o ≢ none → before ≡ logs_in ∷ [])
      → Attempted q sent before (after_login server q o c).1 (after_login server q o c).0.sent
  unfolding after_login
  sent_after q sent before (some e) c h k = inl (e, k (λ m. absurd cc), refl, h)
  sent_after q sent before none c h k = inr (refl, ap (λ xs. xs ++ q ∷ []) h)

  pick-Attempted :
      (q : Request) (sent : List Request) (b : Bool) (x y : Client × Option QbError)
      → let (c, r) = after_login server q x.1 x.0 in
        Attempted q sent [] r c.sent
        → let (c, r) = after_login server q y.1 y.0 in
          Attempted q sent (logs_in ∷ []) r c.sent
          → let z = if b then x else y in
            let (c, r) = after_login server q z.1 z.0 in
            Attempted q sent (if b then [] else logs_in ∷ []) r c.sent
  pick-Attempted q sent true x y h k = h
  pick-Attempted q sent false x y h k = k

  attempt-Attempted :
      (q : Request) (c : Client)
      → let (c', r) = attempt server says_fails q c in Attempted q c.sent (first_login c) r c'.sent
  unfolding attempt login
  attempt-Attempted q c =
      let c1 = record c { sent = c.sent ++ logs_in ∷ [] } in
      let (c2, o) = settle_login server says_fails (server c1.sent) c1 in
      pick-Attempted q c.sent c.logged_in (c, none) (c2, o)
        (sent_after q c.sent [] none c (sym (append-nil c.sent)) (λ h. absurd (h refl)))
        (sent_after q c.sent (logs_in ∷ []) o c2 (settle_login-sent (server c1.sent) c1)
          (λ h. refl))

  -- The four ways in which a request can go.
  pub data Requested (q : Request) (c : Client) (r : QbError ⊎ (ℕ × String)) (sent' : List Request)
      : Type 0 where
    login_failed :
        (e : QbError)
        → first_login c ≡ logs_in ∷ []
        → r ≡ inl e
        → sent' ≡ c.sent ++ logs_in ∷ []
        → Requested q c r sent'
    answered_at_once :
        refused (inr (server sent')) ≡ false
        → r ≡ answered (inr (server sent'))
        → sent' ≡ (c.sent ++ first_login c) ++ q ∷ []
        → Requested q c r sent'
    relogin_failed :
        (e : QbError)
        → refused (inr (server ((c.sent ++ first_login c) ++ q ∷ []))) ≡ true
        → r ≡ inl e
        → sent' ≡ ((c.sent ++ first_login c) ++ q ∷ []) ++ logs_in ∷ []
        → Requested q c r sent'
    answered_again :
        refused (inr (server ((c.sent ++ first_login c) ++ q ∷ []))) ≡ true
        → r ≡ answered (inr (server sent'))
        → sent' ≡ (((c.sent ++ first_login c) ++ q ∷ []) ++ logs_in ∷ []) ++ q ∷ []
        → Requested q c r sent'

  -- A request is sent at most twice. It is sent a second time exactly if the first reply is a 401 or a
  -- 403, after one more login, and then that reply is the result whatever it is; a login comes first if
  -- the client is not logged in, and if a login fails its error is the result and nothing else is sent.
  pub request_retries_once :
      (q : Request) (c : Client)
      → let (c', r) = request server says_fails q c in Requested q c r c'.sent
  unfolding request request_once
  request_retries_once q c =
      let (c1, reply) = attempt server says_fails q c in
      elim (attempt-Attempted q c) [
        | inl (e, f, r, s) ↦ rw r (login_failed e f refl (rw f at s))
        | inr (r, s) ↦ elim (Bool-cases (refused reply)) [
          | inr fine ↦ rw fine (answered_at_once (ap refused (sym r) ∙ fine) (ap answered r) s)
          | inl denied ↦ elim (attempt-Attempted q (set_login false c1)) [
            | inl (e, f, r2, s2) ↦ rw denied (
                relogin_failed e (ap refused (sym (r ∙ ap (λ xs. inr (server xs)) s)) ∙ denied)
                  (ap answered r2) (s2 ∙ ap (λ xs. xs ++ logs_in ∷ []) s))
            | inr (r2, s2) ↦ rw denied (
                answered_again (ap refused (sym (r ∙ ap (λ xs. inr (server xs)) s)) ∙ denied)
                  (ap answered r2) (s2 ∙ ap (λ xs. (xs ++ logs_in ∷ []) ++ q ∷ []) s))
          ]
        ]
      ]
