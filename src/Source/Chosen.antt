-- ===== src/Source/Chosen.antt =====
-- A download as a whole (backend/internal/source/download.go).
use Prim.Native.Nat.{min}
use native.Mathlib.Nat.{pow-zero, pow-succ', le-mul_of_pos_right, one-le-pow, mul_assoc}
use auto_seed_relay.Prelude.{
  ℕ, zero, suc, ◌≤◌, ◌≡◌, refl, ap, ◌∙◌, sym, subst, Bool, true, false, List, [], ◌∷◌, ◌++◌, Option,
  some, arith, if◌then◌else◌, ◌⊎◌, inl, inr, All-append, append_assoc, append-nil, Bool-cases, leb,
  leb→le, ◌<◌, ◌*◌, ◌^◌,
}
use auto_seed_relay.Source.Download.{
  Answer, DownloadError, no_url, unsafe_url, not_torrent, write_failed, Candidate, Downloaded,
  write_file, next_or_write, download_each, download_torrent, default_backoff, doubled,
  backoff_second,
}
use auto_seed_relay.Source.Bounded.{
  repeat, answers, Tried, finish, stop, not_admitted, tries, NoneServed, LastServed, answers-append,
  Gets, lost, got, Raw, download_raw-Raw,
}

doubled-min :
    (n d : ℕ) → d < 900 * backoff_second → doubled n d ≡ min (d * 2 ^ n) (900 * backoff_second)
unfolding doubled
doubled-min zero d h = rw (pow-zero 2) (omega arith)
doubled-min (suc n) d h =
    let same : d * 2 ^ suc n ≡ d * 2 * 2 ^ n = rw (pow-succ' 2 n) (sym (mul_assoc d 2 (2 ^ n))) in
    let grows : d * 2 ≤ d * 2 * 2 ^ n =
      le-mul_of_pos_right (d * 2) (one-le-pow n 2 (omega arith)) in
    elim (Bool-cases (leb (900 * backoff_second) (d * 2))) [
      | inl over ↦ rw over (let o = leb→le _ _ over in omega arith)
      | inr under ↦
          rw under (
            doubled-min n (d * 2) (ground arith)
            ∙ ap (λ x. min x (900 * backoff_second)) (sym same))
    ]

module _ (server : List Candidate → Option Answer) (waited : List Candidate → Bool)
    (check_url : Candidate → Bool) (written : List ℕ → Bool) where
  abbrev None : List Candidate → List Candidate → Type 0
  None = NoneServed server waited check_url written

  abbrev Last : List Candidate → List Candidate → List ℕ → Type 0
  Last = LastServed server waited check_url written

  abbrev Runs : Bool → List Candidate → List Candidate → Type 0
  Runs = Tried server waited check_url written

  both_None :
      (sent xs ys : List Candidate) → None sent xs → None (sent ++ xs) ys → None sent (xs ++ ys)
  both_None sent xs ys h k =
      rw (answers-append server waited check_url written sent xs ys) (All-append _ _ _ h k)

  later_Last :
      (sent xs ys : List Candidate) (content : List ℕ)
      → None sent xs
      → Last (sent ++ xs) ys content
      → Last sent (xs ++ ys) content
  later_Last sent xs ys content h l = record {
    before = answers server waited check_url written sent xs ++ l.before;
    answer = l.answer;
    all_answers =
        answers-append server waited check_url written sent xs ys
        ∙ ap (λ os. answers server waited check_url written sent xs ++ os) l.all_answers
        ∙ sym (append_assoc _ l.before (some l.answer ∷ []));
    none_before = All-append _ _ _ h l.none_before;
    is_torrent = l.is_torrent;
    same = l.same;
  }

  -- How a run over candidates ends: with an error after all of them, none of which served a torrent, or
  -- with the first torrent that was served, which is written.
  abbrev pub Ends : List Candidate → List Candidate → Downloaded → Type 0
  Ends us sent o =
      (more : List Candidate) × (o.0 ≡ sent ++ more)
      × (((e : DownloadError) × (o.1 ≡ inl e) × Runs true us more × None sent more)
          ⊎ ((content : List ℕ) × Runs false us more
              × Last sent more content
              × (o.1 ≡ (if written content then inr content else inl write_failed))))

  skip_Ends :
      (u : Candidate) (us sent : List Candidate) (o : Downloaded)
      → check_url u ≡ false
      → Ends us sent o
      → Ends (u ∷ us) sent o
  skip_Ends u us sent o h (more, s, inl (e, r, t, n)) = (more, s, inl (e, r, not_admitted h t, n))
  skip_Ends u us sent o h (more, s, inr (c, t, l, r)) = (more, s, inr (c, not_admitted h t, l, r))

  tries_Ends :
      (n : ℕ) (u : Candidate) (us sent : List Candidate) (o : Downloaded)
      → check_url u ≡ true
      → 1 ≤ n
      → n ≤ 5
      → None sent (repeat n u)
      → Ends us (sent ++ repeat n u) o
      → Ends (u ∷ us) sent o
  tries_Ends n u us sent o h k l f (more, s, inl (e, r, t, g)) = (
    repeat n u ++ more,
    s ∙ append_assoc sent (repeat n u) more,
    inl (e, r, tries n h k l t, both_None sent (repeat n u) more f g),
  )
  tries_Ends n u us sent o h k l f (more, s, inr (c, t, g, r)) = (
    repeat n u ++ more,
    s ∙ append_assoc sent (repeat n u) more,
    inr (c, tries n h k l t, later_Last sent (repeat n u) more c f g, r),
  )

  file_Ends :
      (n : ℕ) (u : Candidate) (us sent : List Candidate) (content : List ℕ)
      → check_url u ≡ true
      → 1 ≤ n
      → n ≤ 5
      → Last sent (repeat n u) content
      → Ends (u ∷ us) sent (write_file server waited check_url written (sent ++ repeat n u) content)
  file_Ends n u us sent content h k l g =
      let whole = sym (append-nil (repeat n u)) in
      elim (Bool-cases (written content)) [
        | inl kept ↦ rw kept (
          repeat n u ++ [],
          ap (λ x. sent ++ x) whole,
          inr (content, tries n h k l stop, subst (λ x. Last sent x content) whole g, rw kept refl),
        )
        | inr failed ↦ rw failed (
          repeat n u ++ [],
          ap (λ x. sent ++ x) whole,
          inr (
            content,
            tries n h k l stop,
            subst (λ x. Last sent x content) whole g,
            rw failed refl,
          ),
        )
      ]

  lost_None :
      (sent more : List Candidate) (e : DownloadError)
      → Gets server waited check_url written sent more (inl e)
      → None sent more
  lost_None sent more e (lost n) = n

  got_Last :
      (sent more : List Candidate) (content : List ℕ)
      → Gets server waited check_url written sent more (inr content)
      → Last sent more content
  got_Last sent more content (got l) = l

  next_Ends :
      (u : Candidate) (us sent : List Candidate) (o : Downloaded)
      → check_url u ≡ true
      → Raw server waited check_url written 1 5 u sent o
      → ((e : DownloadError) (now : List Candidate)
          → Ends us now (download_each server waited check_url written us e now))
      → Ends (u ∷ us) sent (
          next_or_write server waited check_url written
            (download_each server waited check_url written us)
            o)
  next_Ends u us sent (now, inl e) h r rest =
      tries_Ends r.count u us sent _ h r.at_least r.at_most (lost_None sent _ e r.gets) (
        subst (λ x. Ends us x (download_each server waited check_url written us e now)) r.list
          (rest e now))
  next_Ends u us sent (now, inr content) h r rest =
      subst (λ x. Ends (u ∷ us) sent (write_file server waited check_url written x content))
        (sym r.list)
        (file_Ends r.count u us sent content h r.at_least r.at_most
          (got_Last sent _ content r.gets))

  each_Ends :
      (us : List Candidate) (last : DownloadError) (sent : List Candidate)
      → Ends us sent (download_each server waited check_url written us last sent)
  unfolding download_each
  each_Ends [] last sent = ([], sym (append-nil sent), inl (last, refl, finish, tt))
  each_Ends (u ∷ us) last sent = elim (Bool-cases (check_url u)) [
    | inr unsafe ↦ rw unsafe (skip_Ends u us sent _ unsafe (each_Ends us unsafe_url sent))
    | inl safe ↦ rw safe (
        next_Ends u us sent _ safe (download_raw-Raw server waited check_url written u sent)
          (λ e now. each_Ends us e now))
  ]

  -- Whatever the sites answer, a download asks for each candidate that the check admits from one to five
  -- times and for no other, in their order. Either it ends with an error and all admitted candidates were
  -- asked for and no answer was a torrent; or the last answer is the first one that is a torrent and its
  -- body is the result, unless it cannot be written. A wait before another attempt is 60 seconds, doubled
  -- for each earlier attempt, and 900 seconds at most.
  pub download_takes_first :
      (us sent : List Candidate)
      → Ends us sent (download_torrent server waited check_url written us sent)
        × ((attempt : ℕ)
            → default_backoff attempt
              ≡ min (60 * backoff_second * 2 ^ attempt) (900 * backoff_second))
  unfolding download_torrent default_backoff
  download_takes_first [] sent = (
    ([], sym (append-nil sent), inl (no_url, refl, finish, tt)),
    λ n. doubled-min n (60 * backoff_second) (omega arith),
  )
  download_takes_first (u ∷ us) sent =
      (each_Ends (u ∷ us) not_torrent sent, λ n. doubled-min n (60 * backoff_second) (omega arith))
