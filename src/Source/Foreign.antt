-- ===== src/Source/Foreign.antt =====
-- What a poll accepts, over the snapshots of all downloads (backend/internal/source/download.go).
use text.Mathlib.Text.{◌==◌ as str_eq}
use auto_seed_relay.Prelude.{
  ◌≡◌, ◌≢◌, refl, ap, ◌∙◌, sym, Bool, true, false, not, List, [], ◌∷◌, ◌++◌, Option, none, some,
  String, ◌&&◌, ◌||◌, All, Bool-cases, inl, inr, some_inj, subst,
}
use auto_seed_relay.Store.Rows.{mem_str}
use auto_seed_relay.Source.Pending.{
  Torrent, register_pending_before, is_foreign_pending, is_candidate, later_or, poll_pending,
}

or_true : (b : Bool) → (b || true) ≡ true
or_true true = refl
or_true false = refl

or_false : (b : Bool) → (b || false) ≡ b
or_false true = refl
or_false false = refl

and_false : (b : Bool) → (b && false) ≡ false
and_false true = refl
and_false false = refl

swap_or : (a b c : Bool) → (a || (b || c)) ≡ (b || a || c)
swap_or true b c = rw (or_true b) refl
swap_or false true c = refl
swap_or false false c = refl

module _ (lower : String → String) where
  -- The registry after the snapshots of some downloads.
  unfoldable pub registry_after : List (List String) → List String → List String
  registry_after [] registry = registry
  registry_after (s ∷ ss) registry = registry_after ss (register_pending_before lower s registry)

  -- Whether a snapshot has a hash, but for case.
  abbrev pub in_snapshot : String → List String → Bool
  in_snapshot h [] = false
  in_snapshot h (x ∷ xs) = (not (str_eq x "") && str_eq (lower x) (lower h)) || in_snapshot h xs

  abbrev pub in_snapshots : String → List (List String) → Bool
  in_snapshots h [] = false
  in_snapshots h (s ∷ ss) = in_snapshot h s || in_snapshots h ss

  register_lem :
      (h : String) (s registry : List String)
      → is_foreign_pending lower h (register_pending_before lower s registry)
        ≡ (in_snapshot h s || is_foreign_pending lower h registry)
  unfolding register_pending_before is_foreign_pending mem_str
  register_lem h [] registry = refl
  register_lem h (x ∷ xs) registry = elim (Bool-cases (str_eq x "")) [
    | inl empty ↦ rw empty (register_lem h xs registry)
    | inr text ↦ elim (Bool-cases (str_eq (lower x) (lower h))) [
      | inl same ↦ rw (text, same) (register_lem h xs (lower x ∷ registry) ∙ rw same (or_true _))
      | inr other ↦ rw (text, other) (register_lem h xs (lower x ∷ registry) ∙ rw other refl)
    ]
  ]

  registry_after_lem :
      (h : String) (ss : List (List String)) (registry : List String)
      → is_foreign_pending lower h (registry_after ss registry)
        ≡ (in_snapshots h ss || is_foreign_pending lower h registry)
  unfolding registry_after
  registry_after_lem h [] registry = refl
  registry_after_lem h (s ∷ ss) registry =
      registry_after_lem h ss (register_pending_before lower s registry)
      ∙ rw (register_lem h s registry) (swap_or (in_snapshots h ss) (in_snapshot h s) _)

  -- What a poll may accept, by the snapshots of all downloads.
  abbrev pub eligible : List String → List (List String) → Torrent → Bool
  eligible before ss t =
      str_eq t.category "relay-pending"
      && not (str_eq t.hash "")
      && not (mem_str t.hash before)
      && not (in_snapshots t.hash ss)

  eligible_lem :
      (before : List String) (ss : List (List String)) (t : Torrent)
      → is_candidate lower before (registry_after ss []) t ≡ eligible before ss t
  unfolding is_candidate is_foreign_pending mem_str
  eligible_lem before ss t =
      ap
        (λ b.
          str_eq t.category "relay-pending"
          && not (str_eq t.hash "")
          && not (mem_str t.hash before)
          && not b)
        (registry_after_lem t.hash ss [] ∙ or_false (in_snapshots t.hash ss))

  module _ (before : List String) (ss : List (List String)) where
    -- What a poll of the listed torrents finds: none of them may be accepted, or the last one that may.
    abbrev pub Finds : List Torrent → Option String → Type 0
    Finds ts none = All (λ t. eligible before ss t ≡ false) ts
    Finds ts (some h) =
        (first : List Torrent) × (t : Torrent) × (last : List Torrent) × (ts ≡ first ++ t ∷ last)
        × (t.hash ≡ h)
        × (eligible before ss t ≡ true)
        × All (λ u. eligible before ss u ≡ false) last

    step_Finds :
        (t : Torrent) (ts : List Torrent) (o : Option String)
        → Finds ts o
        → Finds (t ∷ ts) (later_or o (eligible before ss t) t.hash)
    step_Finds t ts (some h) (first, u, last, e, s, k, a) =
        (t ∷ first, u, last, ap (λ us. t ∷ us) e, s, k, a)
    step_Finds t ts none a = elim (Bool-cases (eligible before ss t)) [
      | inl taken ↦ rw taken ([], t, ts, refl, refl, taken, a)
      | inr other ↦ rw other (other, a)
    ]

    poll_Finds :
        (ts : List Torrent) → Finds ts (poll_pending lower before (registry_after ss []) ts)
    unfolding poll_pending
    poll_Finds [] = tt
    poll_Finds (t ∷ ts) =
        subst
          (λ b.
            Finds (t ∷ ts)
              (later_or (poll_pending lower before (registry_after ss []) ts) b t.hash))
          (sym (eligible_lem before ss t)) (step_Finds t ts _ (poll_Finds ts))

    not_eligible : (t : Torrent) → in_snapshots t.hash ss ≡ true → eligible before ss t ≡ false
    not_eligible t h = rw h (and_false _)

    foreign_never :
        (ts : List Torrent) (h : String) (o : Option String)
        → Finds ts o
        → in_snapshots h ss ≡ true
        → o ≢ some h
    foreign_never ts h none f k e = cc
    foreign_never ts h (some g) (first, t, last, e, s, l, a) k q =
        let same : t.hash ≡ h = s ∙ some_inj q in let m = not_eligible t (rw same k) in cc

    -- After any snapshots of any downloads, a poll accepts the last listed torrent that is pending, was not
    -- there before this download and is, but for case, in none of these snapshots, and none if there is no
    -- such torrent. So a torrent that is in the snapshot of another download, made before or after it was
    -- added, is not accepted, also not by the download that has added it.
    pub poll_excludes :
        (ts : List Torrent)
        → Finds ts (poll_pending lower before (registry_after ss []) ts)
          × ((h : String)
              → in_snapshots h ss ≡ true
              → poll_pending lower before (registry_after ss []) ts ≢ some h)
    poll_excludes ts = (poll_Finds ts, λ h k. foreign_never ts h _ (poll_Finds ts) k)
