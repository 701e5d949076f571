-- ===== src/Qb/Tracked.antt =====
-- The tracker of slow torrents and what it is for one hash (backend/internal/qb/client.go).
use text.Mathlib.Text.{◌==◌ as str_eq}
use text.Mathlib.TextEquality.{eq_iff}
use auto_seed_relay.Prelude.{
  ℕ, ◌+◌, ◌≤◌, ◌<◌, ◌≡◌, refl, subst, sym, false, List, [], ◌∷◌, Option, none, some, String, arith,
  if◌then◌else◌, ltb, lookup, lookup-erase, string_eq, Bool-cases, inl, inr, ◌⊎◌, ltb→lt, lt→ltb,
  ◌≢◌, lookup-insert_ne, lookup-insert_self,
}
use auto_seed_relay.Qb.Slow.{
  slow_entry_idle, SlowEntry, Tracker, Speed, unknown, fast, slow, is_idle, prune, reset_entry,
  reset_slow_timer, entry_at, touch, is_slow, start_or, elapsed,
}
use auto_seed_relay.Qb.Since.{
  Check, tracker_after, latest, InOrder, extended, stretch_next, stretch, lasted, slow_answer,
}

abbrev fresh_entry : ℕ → Option SlowEntry → Option SlowEntry
fresh_entry now none = none
fresh_entry now (some e) = if is_idle now e then none else some e

lookup-prune :
    (k : String) (now : ℕ) (m : Tracker) → lookup k (prune now m) ≡ fresh_entry now (lookup k m)
unfolding prune lookup
lookup-prune k now [] = refl
lookup-prune k now ((h, e) ∷ m) = elim (Bool-cases (is_idle now e)) [
  | inl idle ↦ elim (Bool-cases (str_eq h k)) [
    | inl same ↦ rw (idle, lookup-erase h k (prune now m), same) (rw idle refl)
    | inr other ↦ rw (idle, lookup-erase h k (prune now m), other) (lookup-prune k now m)
  ]
  | inr busy ↦ elim (Bool-cases (str_eq h k)) [
    | inl same ↦ rw (busy, same) (rw busy refl)
    | inr other ↦ rw (busy, other) (lookup-prune k now m)
  ]
]

-- What the tracker has for a hash at a time from which on nothing was checked.
Tracks : Option (ℕ × ℕ) → ℕ → Option SlowEntry → Type 0
Tracks none now o =
    (o ≡ none) ⊎ ((l : ℕ) × (o ≡ some (record { below_start = none; last_seen = l })))
Tracks (some (start, last)) now o =
    (o ≡ some (entry_at start last)) ⊎ ((o ≡ none) × (last + slow_entry_idle < now))

Tracks-later :
    (s : Option (ℕ × ℕ)) (now t : ℕ) (o : Option SlowEntry)
    → now ≤ t
    → Tracks s now o
    → Tracks s t o
unfolding Tracks
Tracks-later none now t o h k = k
Tracks-later (some (start, last)) now t o h (inl k) = inl k
Tracks-later (some (start, last)) now t o h (inr k) = inr (k.0, omega arith)

-- Another hash is checked.
Tracks-fresh :
    (s : Option (ℕ × ℕ)) (t : ℕ) (o : Option SlowEntry)
    → Tracks s t o
    → Tracks s t (fresh_entry t o)
unfolding Tracks
Tracks-fresh none t o (inl k) = inl (rw k refl)
Tracks-fresh none t o (inr (l, k)) = elim (Bool-cases (ltb (l + slow_entry_idle) t)) [
  | inl idle ↦ inl (rw (k, idle) refl)
  | inr busy ↦ inr (l, rw (k, busy) refl)
]
Tracks-fresh (some (start, last)) t o (inl k) = elim (Bool-cases (ltb (last + slow_entry_idle) t)) [
  | inl idle ↦ inr (rw (k, idle) refl, ltb→lt _ _ idle)
  | inr busy ↦ inl (rw (k, busy) refl)
]
Tracks-fresh (some (start, last)) t o (inr k) = inr (rw k.0 refl, k.1)

-- Where the next slow check finds the stretch.
Resumes : ℕ → ℕ → Option (ℕ × ℕ) → Option SlowEntry → Type 0
Resumes t duration s none = (extended t s ≡ (t, t)) × (lasted t duration s ≡ false)
Resumes t duration s (some e) =
    (extended t s ≡ (start_or t e.below_start, t))
    × (lasted t duration s ≡ elapsed duration t e.below_start)

Tracks-Resumes :
    (s : Option (ℕ × ℕ)) (t duration : ℕ) (o : Option SlowEntry)
    → Tracks s t o
    → Resumes t duration s (fresh_entry t o)
unfolding Tracks Resumes
Tracks-Resumes none t duration o (inl k) = rw k (refl, refl)
Tracks-Resumes none t duration o (inr (l, k)) = elim (Bool-cases (ltb (l + slow_entry_idle) t)) [
  | inl idle ↦ rw (k, idle) (refl, refl)
  | inr busy ↦ rw (k, busy) (refl, refl)
]
Tracks-Resumes (some (start, last)) t duration o (inl k) =
    elim (Bool-cases (ltb (last + slow_entry_idle) t)) [
      | inl idle ↦ rw (k, idle) (rw idle refl, rw idle refl)
      | inr busy ↦ rw (k, busy) (rw busy refl, rw busy refl)
    ]
Tracks-Resumes (some (start, last)) t duration o (inr (k, h)) =
    let idle = lt→ltb (last + slow_entry_idle) t h in rw k (rw idle refl, rw idle refl)

-- One check, at a time from which on nothing was checked.
touch-own :
    (k : String) (t duration : ℕ) (s : Option (ℕ × ℕ)) (o : Option SlowEntry) (m : Tracker)
    → Resumes t duration s o
    → let (m', b) = touch t duration k o m in
      (lookup k m' ≡ some (entry_at (extended t s).0 (extended t s).1)) × (b ≡ lasted t duration s)
unfolding Resumes touch
touch-own k t duration s none m (e, l) = (rw e (lookup-insert_self k (entry_at t t) m), sym l)
touch-own k t duration s (some x) m (e, l) =
    (rw e (lookup-insert_self k (entry_at (start_or t x.below_start) t) m), sym l)

touch-other :
    (k h : String) (t duration : ℕ) (o : Option SlowEntry) (m : Tracker)
    → h ≢ k
    → lookup k (touch t duration h o m).0 ≡ lookup k m
unfolding touch
touch-other k h t duration none m n = lookup-insert_ne h k (entry_at t t) m n
touch-other k h t duration (some x) m n =
    lookup-insert_ne h k (entry_at (start_or t x.below_start) t) m n

reset-other :
    (k h : String) (t : ℕ) (o : Option SlowEntry) (m : Tracker)
    → h ≢ k
    → lookup k (reset_entry t h o m) ≡ lookup k m
reset-other k h t none m n = refl
reset-other k h t (some x) m n = lookup-insert_ne h k _ m n

other-Tracks :
    (k h : String) (t duration : ℕ) (v : Speed) (s : Option (ℕ × ℕ)) (now : ℕ) (m : Tracker)
    → h ≢ k
    → now ≤ t
    → Tracks s now (lookup k m)
    → Tracks s t (lookup k (is_slow t duration h v m).0)
unfolding is_slow reset_slow_timer
other-Tracks k h t duration unknown s now m n o r = Tracks-later s now t (lookup k m) o r
other-Tracks k h t duration fast s now m n o r =
    rw (reset-other k h t (lookup h m) m n) (Tracks-later s now t (lookup k m) o r)
other-Tracks k h t duration slow s now m n o r =
    rw (touch-other k h t duration (lookup h (prune t m)) (prune t m) n, lookup-prune k t m)
      (Tracks-fresh s t (lookup k m) (Tracks-later s now t (lookup k m) o r))

reset-own :
    (k : String) (t : ℕ) (s : Option (ℕ × ℕ)) (m : Tracker) (o : Option SlowEntry)
    → lookup k m ≡ o
    → Tracks none t (lookup k (reset_entry t k o m))
unfolding Tracks
reset-own k t s m none h = inl h
reset-own k t s m (some e) h = inr (t, lookup-insert_self k _ m)

-- A check of the hash itself answers as specified, and is tracked.
own-Tracks :
    (k : String) (t duration : ℕ) (v : Speed) (s : Option (ℕ × ℕ)) (now : ℕ) (m : Tracker)
    → now ≤ t
    → Tracks s now (lookup k m)
    → let (m', b) = is_slow t duration k v m in
      Tracks (stretch_next v t s) t (lookup k m') × (b ≡ slow_answer v t duration s)
unfolding is_slow reset_slow_timer slow_answer
own-Tracks k t duration unknown s now m o r = (Tracks-later s now t (lookup k m) o r, refl)
own-Tracks k t duration fast s now m o r = (reset-own k t s m (lookup k m) refl, refl)
own-Tracks k t duration slow s now m o r =
    let f = Tracks-Resumes s t duration (lookup k m) (Tracks-later s now t (lookup k m) o r) in
    let (a, b) =
      touch-own k t duration s (lookup k (prune t m)) (prune t m) (rw (lookup-prune k t m) f) in
    (unfold Tracks in inl a, b)

tracked :
    (k : String) (cs : List Check)
    → InOrder cs
    → Tracks (stretch k cs) (latest cs) (lookup k (tracker_after cs))
unfolding tracker_after stretch lookup
tracked k [] h = unfold Tracks in inl refl
tracked k (c ∷ cs) (o, h) = elim (Bool-cases (str_eq c.hash k)) [
  | inl mine ↦ rw mine (
      subst
        (λ x.
          Tracks (stretch_next c.speed c.time (stretch k cs)) c.time
            (lookup k (is_slow c.time c.duration x c.speed (tracker_after cs)).0))
        (sym ((eq_iff c.hash k).0 mine))
        (own-Tracks k c.time c.duration c.speed (stretch k cs) (latest cs) (tracker_after cs) o
          (tracked k cs h)).0)
  | inr other ↦ rw other (
      other-Tracks k c.hash c.time c.duration c.speed (stretch k cs) (latest cs) (tracker_after cs)
        (λ e. absurd (let m = (eq_iff c.hash k).1 e in cc)) o (tracked k cs h))
]

-- For calls of `IsSlow` for any hashes, at times that do not go back, the answer for a hash is the one that
-- the specification reads off the calls for this hash alone: it is true exactly if the torrent is slow now
-- and the stretch of slow checks that goes on began at least `duration` ago. A stretch is ended by a check
-- that is not slow and by a pause of more than ten minutes; a check that finds out nothing does not count.
pub is_slow_iff :
    (k : String) (t duration : ℕ) (v : Speed) (cs : List Check)
    → InOrder cs
    → latest cs ≤ t
    → (is_slow t duration k v (tracker_after cs)).1 ≡ slow_answer v t duration (stretch k cs)
is_slow_iff k t duration v cs h o =
    (own-Tracks k t duration v (stretch k cs) (latest cs) (tracker_after cs) o (tracked k cs h)).1
