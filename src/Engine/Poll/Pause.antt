-- ===== src/Engine/Poll/Pause.antt =====
-- When a source is paused (backend/internal/engine/poller.go).
use auto_seed_relay.Prelude.{
  ℕ, ◌+◌, ◌-◌, ◌≤◌, ◌<◌, ◌≡◌, refl, ◌∙◌, Bool, false, [], ◌∷◌, ◌++◌, none, arith, if◌then◌else◌,
  lookup, insert, erase, lookup-insert_self, lookup-erase, nat_eq, le→ltb, le→leb, gt→leb,
}
use auto_seed_relay.Engine.Submit.Job.{critical}
use auto_seed_relay.Engine.Poll.Source.{
  SourceState, Watch, state_or_new, source_failed, fetch_source, poll_source,
}

module _ (backoff : ℕ → ℕ) (pause_ok : Bool) (id : ℕ) where
  abbrev pub state_of : Watch → SourceState
  state_of w = state_or_new (lookup id w.poll_state)

  state_after :
      (st : SourceState) (w : Watch)
      → state_of (record w { poll_state = insert id st w.poll_state }) ≡ st
  unfolding state_or_new
  state_after st w = rw (lookup-insert_self id st w.poll_state) refl

  forgotten :
      (w : Watch)
      → state_or_new (lookup id (erase id w.poll_state)) ≡ record { fails = 0; next_allowed = 0 }
  unfolding state_or_new
  forgotten w = rw (lookup-erase id id w.poll_state, (nat_eq.beq_iff id id).1 refl) refl

  -- A failing fetch that is allowed and stays below the threshold.
  fetch_below :
      (now : ℕ) (st : SourceState) (w : Watch)
      → st.next_allowed ≤ now
      → st.fails + 1 < 3
      → fetch_source backoff now false pause_ok id st w ≡ record w {
        poll_state =
            insert id
              (record { fails = st.fails + 1; next_allowed = now + backoff st.fails })
              w.poll_state;
      }
  unfolding fetch_source source_failed
  fetch_below now st w h k =
      let same : st.fails + 1 - 1 ≡ st.fails = omega arith in
      rw (le→ltb now st.next_allowed h, gt→leb 3 (st.fails + 1) k, same) refl

  -- A failing fetch that is allowed and reaches the threshold.
  fetch_third :
      (now : ℕ) (st : SourceState) (w : Watch)
      → st.next_allowed ≤ now
      → 3 ≤ st.fails + 1
      → fetch_source backoff now false pause_ok id st w ≡ record {
        poll_state = erase id w.poll_state;
        paused = if pause_ok then w.paused ++ id ∷ [] else w.paused;
        alerts = w.alerts ++ record { level = critical; event = "source_pause" } ∷ [];
      }
  unfolding fetch_source source_failed
  fetch_third now st w h k = rw (le→ltb now st.next_allowed h, le→leb 3 (st.fails + 1) k) refl

  abbrev pub fail_at : ℕ → Watch → Watch
  fail_at now w = poll_source backoff now false pause_ok id w

  fail_below :
      (now : ℕ) (w : Watch) (n t : ℕ)
      → state_of w ≡ record { fails = n; next_allowed = t }
      → t ≤ now
      → n + 1 < 3
      → (state_of (fail_at now w) ≡ record { fails = n + 1; next_allowed = now + backoff n })
        × ((fail_at now w).alerts ≡ w.alerts)
        × ((fail_at now w).paused ≡ w.paused)
  unfolding poll_source
  fail_below now w n t e h k =
      let st : SourceState = record { fails = n; next_allowed = t } in
      rw (e, fetch_below now st w h k)
        (state_after (record { fails = n + 1; next_allowed = now + backoff n }) w, refl, refl)

  fail_third :
      (now : ℕ) (w : Watch) (n t : ℕ)
      → state_of w ≡ record { fails = n; next_allowed = t }
      → t ≤ now
      → 3 ≤ n + 1
      → (state_of (fail_at now w) ≡ record { fails = 0; next_allowed = 0 })
        × ((fail_at now w).alerts
            ≡ w.alerts ++ record { level = critical; event = "source_pause" } ∷ [])
        × ((fail_at now w).paused ≡ (if pause_ok then w.paused ++ id ∷ [] else w.paused))
  unfolding poll_source
  fail_third now w n t e h k =
      let st : SourceState = record { fails = n; next_allowed = t } in
      rw (e, fetch_third now st w h k) (forgotten w, refl, refl)

  fresh_state :
      (w : Watch)
      → lookup id w.poll_state ≡ none
      → state_of w ≡ record { fails = 0; next_allowed = 0 }
  unfolding state_or_new
  fresh_state w h = rw h refl

  -- A source that has not failed and whose next three polls fail, each after the wait that the failure
  -- before it has set, is paused at the third and not before: the first two leave the pauses and the
  -- notices alone, the third pauses it if that statement succeeds and sends one critical notice, and the
  -- failures are counted from the start again.
  pub pauses_at_third :
      (t1 t2 t3 : ℕ) (w : Watch)
      → lookup id w.poll_state ≡ none
      → t1 + backoff 0 ≤ t2
      → t2 + backoff 1 ≤ t3
      → let w2 = fail_at t2 (fail_at t1 w) in
        (w2.alerts ≡ w.alerts)
        × (w2.paused ≡ w.paused)
        × ((fail_at t3 w2).alerts
            ≡ w.alerts ++ record { level = critical; event = "source_pause" } ∷ [])
        × ((fail_at t3 w2).paused ≡ (if pause_ok then w.paused ++ id ∷ [] else w.paused))
        × (state_of (fail_at t3 w2) ≡ record { fails = 0; next_allowed = 0 })
  pauses_at_third t1 t2 t3 w h wait1 wait2 =
      let (s1, a1, p1) = fail_below t1 w 0 0 (fresh_state w h) (omega arith) (omega arith) in
      let (s2, a2, p2) = fail_below t2 (fail_at t1 w) 1 (t1 + backoff 0) s1 wait1 (omega arith) in
      let (s3, a3, p3) =
        fail_third t3 (fail_at t2 (fail_at t1 w)) 2 (t2 + backoff 1) s2 wait2 (omega arith) in
      (a2 ∙ a1, p2 ∙ p1, a3 ∙ rw (a2 ∙ a1) refl, p3 ∙ rw (p2 ∙ p1) refl, s3)
