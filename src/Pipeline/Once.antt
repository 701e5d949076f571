-- ===== src/Pipeline/Once.antt =====
-- Publishing to one target, and the other targets (backend/internal/pipeline/target.go).
use auto_seed_relay.Prelude.{
  ℕ, ◌≡◌, ◌≢◌, refl, ◌∙◌, Bool, true, false, [], ◌∷◌, ◌++◌, Option, none, some, String, arith,
  Bool-cases, inl, inr,
}
use auto_seed_relay.Store.Rows.{Db, RelayRecord}
use auto_seed_relay.Engine.Submit.Job.{Level, warning}
use auto_seed_relay.Pipeline.Publish.{
  RelayOne, Reply, accepted, refused, duplicate, auth_expired, other_error, Target, Job, is_done,
  with_db, say, log, fail_record, set_role, cross_seed, finish_join, finish_cross_seed,
  settle_reply, send, after_claim, after_read, after_prepare, publish_to_one_target,
}
use auto_seed_relay.Pipeline.Frame.{
  count-append, row_of, Leaves, append_log-row, get_record-row, set_record_role-row,
  mark_published-row, update_record_attempt-row, update_record_status-row, upsert_record-row,
  cross_seed-row,
}

module _ (p : RelayOne) (s t : ℕ) (site : Target) (n : t ≢ site.id) where
  logged-Leaves :
      (i j : Job) (l : Level) (e level action : String)
      → Leaves s t i j
      → Leaves s t i (say l e (log s level action j))
  logged-Leaves i j l e level action h = record {
    row = append_log-row s t s level action j.db ∙ h.row;
    quiet = h.quiet;
  }

  failed-Leaves :
      (i j : Job) (e : String) → Leaves s t i j → Leaves s t i (fail_record s site.id e j)
  failed-Leaves i j e h = record {
    row = update_record_attempt-row s t site.id "failed" e j.db n ∙ h.row;
    quiet = h.quiet;
  }

  set_role-Leaves :
      (i j : Job) (role : String) → Leaves s t i j → Leaves s t i (set_role s site.id role j)
  set_role-Leaves i j role h = record {
    row = set_record_role-row s t site.id role j.db n ∙ h.row;
    quiet = h.quiet;
  }

  finish_join-Leaves :
      (i j : Job) (db : Db) (e : Option String)
      → Leaves s t i j
      → row_of s t db ≡ row_of s t j.db
      → Leaves s t i (finish_join p s site.id (db, e) j).0
  unfolding finish_join
  finish_join-Leaves i j db (some e) h k =
      failed-Leaves i (with_db db j) (p.redact e) (record { row = k ∙ h.row; quiet = h.quiet })
  finish_join-Leaves i j db none h k = record {
    row =
        append_log-row s t s "info" "cross_seeding" _
        ∙ update_record_status-row s t site.id "cross_seeding" "" db n
        ∙ k
        ∙ h.row;
    quiet = h.quiet;
  }

  finish_cross_seed-Leaves :
      (i j : Job) → Leaves s t i j → Leaves s t i (finish_cross_seed p s site j).0
  unfolding finish_cross_seed
  finish_cross_seed-Leaves i j h =
      finish_join-Leaves i j (cross_seed s site.swarm j.db).0 (cross_seed s site.swarm j.db).1 h
        (cross_seed-row s t site.swarm j.db)

  settle_reply-Leaves :
      (r : Reply) (i j : Job) → Leaves s t i j → Leaves s t i (settle_reply p s site r j).0
  unfolding settle_reply
  settle_reply-Leaves accepted i j h = record {
    row =
        append_log-row s t s "info" "published" _
        ∙ mark_published-row s t site.id p.now j.db n
        ∙ h.row;
    quiet = h.quiet;
  }
  settle_reply-Leaves (refused e) i j h = failed-Leaves i j (p.redact e) h
  settle_reply-Leaves (duplicate e) i j h =
      finish_cross_seed-Leaves i (set_role s site.id "seeder" j) (set_role-Leaves i j "seeder" h)
  settle_reply-Leaves (auth_expired e) i j h =
      logged-Leaves i (fail_record s site.id (p.redact e) j) warning "auth_expired" "warning"
        "auth_expired" (failed-Leaves i j (p.redact e) h)
  settle_reply-Leaves (other_error e) i j h =
      logged-Leaves i (fail_record s site.id (p.redact e) j) warning "publish_failed" "warning"
        "publish_failed" (failed-Leaves i j (p.redact e) h)

  send-Leaves : (i j : Job) → Leaves s t i j → Leaves s t i (send p s site j).0
  unfolding send
  send-Leaves i j h =
      settle_reply-Leaves site.reply i (record j { sent = j.sent ++ site.id ∷ [] })
        (record { row = h.row; quiet = ground (arith, count-append t j.sent (site.id ∷ [])) })

  after_claim-Leaves :
      (o : Option Bool) (i j : Job) → Leaves s t i j → Leaves s t i (after_claim p s site o j).0
  unfolding after_claim
  after_claim-Leaves none i j h = h
  after_claim-Leaves (some true) i j h = send-Leaves i j h
  after_claim-Leaves (some false) i j h =
      finish_cross_seed-Leaves i (set_role s site.id "seeder" j) (set_role-Leaves i j "seeder" h)

  after_read-Leaves :
      (o : Option (Option RelayRecord)) (i j : Job)
      → Leaves s t i j
      → Leaves s t i (after_read p s site o j).0
  unfolding after_read
  after_read-Leaves none i j h = h
  after_read-Leaves (some (some old)) i j h = elim (Bool-cases (is_done old.status)) [
    | inl done ↦ rw done h
    | inr live ↦ rw live (send-Leaves i j h)
  ]
  after_read-Leaves (some none) i j h =
      after_claim-Leaves _ i _
        (record { row = upsert_record-row s t site.id j.db n ∙ h.row; quiet = h.quiet })

  after_prepare-Leaves : (o : Option String) (j : Job) → Leaves s t j (after_prepare p s site o j).0
  unfolding after_prepare
  after_prepare-Leaves (some e) j = record { row = refl; quiet = refl }
  after_prepare-Leaves none j =
      after_read-Leaves _ j _ (record { row = get_record-row s t s site.id j.db; quiet = refl })

  -- Publishing to one target leaves the record of every other target alone and does not ask its site.
  pub publish-Leaves : (j : Job) → Leaves s t j (publish_to_one_target p s site j).0
  unfolding publish_to_one_target
  publish-Leaves j = after_prepare-Leaves site.prepared j
