-- ===== src/Source/Bounded.antt =====
-- The requests of a download (backend/internal/source/download.go).
use auto_seed_relay.Prelude.{
  ℕ, zero, suc, ◌≤◌, ◌≡◌, refl, ap, ◌∙◌, sym, Bool, true, false, List, [], ◌∷◌, ◌++◌, Option, none,
  some, arith, ◌==◌, ◌||◌, ◌⊎◌, inl, inr, All, append_assoc, append-nil, Bool-cases,
}
use auto_seed_relay.Source.Download.{
  Answer, is_torrent_body, DownloadError, Candidate, Downloaded, after_request, download_attempts,
  download_raw,
}

abbrev pub repeat : ℕ → Candidate → List Candidate
repeat zero u = []
repeat (suc n) u = u ∷ repeat n u

abbrev pub served : Option Answer → Bool
served none = false
served (some a) = is_torrent_body a

module _ (server : List Candidate → Option Answer) (waited : List Candidate → Bool)
    (check_url : Candidate → Bool) (written : List ℕ → Bool) where
  -- What is answered to some more requests, in their order.
  abbrev pub answers : List Candidate → List Candidate → List (Option Answer)
  answers sent [] = []
  answers sent (u ∷ us) = server (sent ++ u ∷ []) ∷ answers (sent ++ u ∷ []) us

  -- The requests of a run over candidates: none to one that is not admitted, from one to five to any other,
  -- in their order, until the run stops or, if it must go on, to the last one.
  pub data Tried : Bool → List Candidate → List Candidate → Type 0 where
    finish : {all : Bool} → Tried all [] []
    stop : {us : List Candidate} → Tried false us []
    not_admitted :
        {all : Bool} {u : Candidate} {us more : List Candidate}
        → check_url u ≡ false
        → Tried all us more
        → Tried all (u ∷ us) more
    tries :
        {all : Bool} {u : Candidate} {us more : List Candidate} (n : ℕ)
        → check_url u ≡ true
        → 1 ≤ n
        → n ≤ 5
        → Tried all us more
        → Tried all (u ∷ us) (repeat n u ++ more)

  -- None of the answers to some more requests is a torrent, or only the last one is.
  abbrev pub NoneServed : List Candidate → List Candidate → Type 0
  NoneServed sent more = All (λ o. served o ≡ false) (answers sent more)

  pub record LastServed (sent more : List Candidate) (content : List ℕ) : Type 0 where
    pub before : List (Option Answer)
    pub answer : Answer
    pub all_answers : answers sent more ≡ before ++ some answer ∷ []
    pub none_before : All (λ o. served o ≡ false) before
    pub is_torrent : is_torrent_body answer ≡ true
    pub same : answer.content ≡ content

  pub answers-append :
      (sent xs ys : List Candidate)
      → answers sent (xs ++ ys) ≡ answers sent xs ++ answers (sent ++ xs) ys
  answers-append sent [] ys = ap (λ s. answers s ys) (sym (append-nil sent))
  answers-append sent (x ∷ xs) ys =
      ap (λ r. server (sent ++ x ∷ []) ∷ r)
        (answers-append (sent ++ x ∷ []) xs ys
          ∙ ap (λ s. answers (sent ++ x ∷ []) xs ++ answers s ys) (append_assoc sent (x ∷ []) xs))

  -- One candidate.
  pub data Gets (sent more : List Candidate) : DownloadError ⊎ List ℕ → Type 0 where
    lost : {e : DownloadError} → NoneServed sent more → Gets sent more (inl e)
    got : {content : List ℕ} → LastServed sent more content → Gets sent more (inr content)

  pub record Raw (least n : ℕ) (u : Candidate) (sent : List Candidate) (o : Downloaded)
      : Type 0 where
    pub count : ℕ
    pub at_least : least ≤ count
    pub at_most : count ≤ n
    pub list : o.0 ≡ sent ++ repeat count u
    pub gets : Gets sent (repeat count u) o.1

  cons_Gets :
      (u : Candidate) (sent more : List Candidate) (r : DownloadError ⊎ List ℕ)
      → served (server (sent ++ u ∷ [])) ≡ false
      → Gets (sent ++ u ∷ []) more r
      → Gets sent (u ∷ more) r
  cons_Gets u sent more r bad (lost none_served) = lost (bad, none_served)
  cons_Gets u sent more r bad (got l) = got (record {
    before = server (sent ++ u ∷ []) ∷ l.before;
    answer = l.answer;
    all_answers = ap (λ os. server (sent ++ u ∷ []) ∷ os) l.all_answers;
    none_before = (bad, l.none_before);
    is_torrent = l.is_torrent;
    same = l.same;
  })

  -- After a request that was not answered with a torrent.
  again_Raw :
      (n : ℕ) (u : Candidate) (sent : List Candidate) (o : Downloaded)
      → served (server (sent ++ u ∷ [])) ≡ false
      → Raw 0 n u (sent ++ u ∷ []) o
      → Raw 1 (suc n) u sent o
  again_Raw n u sent o bad r = record {
    count = suc r.count;
    at_least = omega arith;
    at_most = let h = r.at_most in omega arith;
    list = r.list ∙ append_assoc sent (u ∷ []) (repeat r.count u);
    gets = cons_Gets u sent (repeat r.count u) o.1 bad r.gets;
  }

  once_Raw :
      (n : ℕ) (u : Candidate) (sent : List Candidate) (r : DownloadError ⊎ List ℕ)
      → Gets sent (u ∷ []) r
      → Raw 1 (suc n) u sent (sent ++ u ∷ [], r)
  once_Raw n u sent r g = record {
    count = 1;
    at_least = omega arith;
    at_most = omega arith;
    list = refl;
    gets = g;
  }

  weaker_Raw :
      (n : ℕ) (u : Candidate) (sent : List Candidate) (o : Downloaded)
      → Raw 1 n u sent o
      → Raw 0 n u sent o
  weaker_Raw n u sent o r = record {
    count = r.count;
    at_least = omega arith;
    at_most = r.at_most;
    list = r.list;
    gets = r.gets;
  }

  answer_Raw :
      (n : ℕ) (u : Candidate) (sent : List Candidate) (a : Option Answer) (o : Downloaded)
      → server (sent ++ u ∷ []) ≡ a
      → Raw 0 n u (sent ++ u ∷ []) o
      → Raw 1 (suc n) u sent (after_request server waited check_url written a (sent ++ u ∷ []) o)
  unfolding after_request
  answer_Raw n u sent none o h r = once_Raw n u sent _ (lost (rw h refl, tt))
  answer_Raw n u sent (some a) o h r = elim (Bool-cases (is_torrent_body a)) [
    | inl torrent ↦ rw torrent (
        once_Raw n u sent _ (
          got (record {
            before = [];
            answer = a;
            all_answers = ap (λ x. x ∷ []) h;
            none_before = tt;
            is_torrent = torrent;
            same = refl;
          })))
    | inr other ↦
        let bad : served (server (sent ++ u ∷ [])) ≡ false = ap served h ∙ other in
        elim (Bool-cases ((a.status == 403) || (a.status == 503))) [
          | inr gone ↦ rw (other, gone) (once_Raw n u sent _ (lost (bad, tt)))
          | inl denied ↦ elim (Bool-cases (waited (sent ++ u ∷ []))) [
            | inl on ↦ rw (other, denied, on) (again_Raw n u sent o bad r)
            | inr off ↦ rw (other, denied, off) (once_Raw n u sent _ (lost (bad, tt)))
          ]
        ]
  ]

  download_attempts-Raw :
      (n : ℕ) (u : Candidate) (sent : List Candidate)
      → Raw 0 n u sent (download_attempts server waited check_url written n u sent)
  unfolding download_attempts
  download_attempts-Raw zero u sent = record {
    count = 0;
    at_least = omega arith;
    at_most = omega arith;
    list = sym (append-nil sent);
    gets = lost tt;
  }
  download_attempts-Raw (suc n) u sent =
      weaker_Raw (suc n) u sent _
        (answer_Raw n u sent _ _ refl (download_attempts-Raw n u (sent ++ u ∷ [])))

  pub download_raw-Raw :
      (u : Candidate) (sent : List Candidate)
      → Raw 1 5 u sent (download_raw server waited check_url written u sent)
  unfolding download_raw download_attempts
  download_raw-Raw u sent =
      answer_Raw 4 u sent _ _ refl (download_attempts-Raw 4 u (sent ++ u ∷ []))
