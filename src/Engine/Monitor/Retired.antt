-- ===== src/Engine/Monitor/Retired.antt =====
-- What the retirement of a seed leaves (backend/internal/engine/monitor.go).
use auto_seed_relay.Prelude.{
  ℕ, ◌≡◌, ◌≢◌, refl, ap, ◌∙◌, Bool, true, false, List, [], ◌∷◌, Option, none, some, String, arith,
  if◌then◌else◌, ◌==◌, ◌&&◌, any, keep, Bool-cases, inl, inr,
}
use auto_seed_relay.Store.Rows.{Db, RelayRecord, query, find, mem_str}
use auto_seed_relay.Store.Seeds.{validate_record_status}
use auto_seed_relay.Store.Records.{
  has_key, list_records_by_seed, mark_retired, update_record_status,
}
use auto_seed_relay.Pipeline.Frame.{row_of, query-row, append_log-row, update_record_status-row}
use auto_seed_relay.Pipeline.Clean.{
  IsClean, query-IsClean, append_log-IsClean, update_record_status-IsClean,
}
use auto_seed_relay.Pipeline.Success.{update_record-hit}
use auto_seed_relay.Engine.Submit.Job.{Engine}
use auto_seed_relay.Engine.Monitor.Retire.{
  is_published_status, with_engine_db, close_record, after_mark_retired, retire_record,
  retire_records, drop_replicas, close_seed, retire_seed,
}
use auto_seed_relay.Engine.Monitor.Dropped.{drop_replicas-none}
use auto_seed_relay.Engine.Monitor.Untouched.{
  set_status-replicas, drop_replicas-row, set_status-row, mark_retired-row, mark_retired-IsClean,
  mark_retired-ok,
}

if-IsClean :
    (c : Bool) (x y : Engine) → IsClean x.db → IsClean y.db → IsClean (if c then x else y).db
if-IsClean true x y h k = h
if-IsClean false x y h k = k

module _ (s t : ℕ) (reason : String) where
  abbrev IsRetired : Engine → Type 0
  IsRetired e =
      (r : RelayRecord) × (row_of s t e.db ≡ some r)
      × (r.status ≡ "retired")
      × (r.retire_reason ≡ reason)

  -- The loop at the record itself.
  close-IsRetired :
      (r : RelayRecord) (e : Engine)
      → IsClean e.db
      → row_of s t e.db ≡ some r
      → IsRetired (close_record s t (with_engine_db (mark_retired s t reason e.db).0 e))
  unfolding close_record mark_retired update_record_status validate_record_status mem_str
  close-IsRetired r e h k =
      let e1 = (mark_retired s t reason e.db).0 in
      let r1 = record r {
        retired_at = e.db.unixepoch;
        retire_reason = reason;
        updated_at = e.db.unixepoch;
      } in
      let hit : row_of s t e1 ≡ some r1 = update_record-hit s t _ e.db r h (λ now q. refl) k in
      (
        record r1 { status = "retired"; last_error = ""; updated_at = e1.unixepoch },
        append_log-row s t 0 "info" "retired" _
            ∙ update_record-hit s t _ e1 r1 (mark_retired-IsClean s t reason e.db h) (λ now q. refl)
                hit,
        refl,
        refl,
      )

  retire_record-clean :
      (r : RelayRecord) (e : Engine)
      → IsClean e.db
      → retire_record s reason r e ≡ (
          if is_published_status r.status
          then close_record s r.target_id
              (with_engine_db (mark_retired s r.target_id reason e.db).0 e)
          else e)
  unfolding retire_record after_mark_retired
  retire_record-clean r e h = rw (mark_retired-ok s r.target_id reason e.db h) refl

  close-IsClean :
      (t' : ℕ) (e : Engine)
      → IsClean e.db
      → IsClean (close_record s t' (with_engine_db (mark_retired s t' reason e.db).0 e)).db
  unfolding close_record
  close-IsClean t' e h =
      append_log-IsClean 0 "info" "retired" _
        (update_record_status-IsClean s t' "retired" "" _ (mark_retired-IsClean s t' reason e.db h))

  close-row :
      (t' : ℕ) (e : Engine)
      → t ≢ t'
      → row_of s t (close_record s t' (with_engine_db (mark_retired s t' reason e.db).0 e)).db
        ≡ row_of s t e.db
  unfolding close_record
  close-row t' e n =
      append_log-row s t 0 "info" "retired" _
      ∙ update_record_status-row s t t' "retired" "" _ n
      ∙ mark_retired-row s t t' reason e.db n

  retire_record-IsClean :
      (q : RelayRecord) (e : Engine) → IsClean e.db → IsClean (retire_record s reason q e).db
  retire_record-IsClean q e h =
      rw (retire_record-clean q e h)
        (if-IsClean (is_published_status q.status) _ e (close-IsClean q.target_id e h) h)

  abbrev hits : RelayRecord → Bool
  hits q = (q.target_id == t) && is_published_status q.status

  -- A record of another target, or one that is not published, leaves the record alone.
  retire_record-miss :
      (q : RelayRecord) (e : Engine)
      → IsClean e.db
      → hits q ≡ false
      → row_of s t (retire_record s reason q e).db ≡ row_of s t e.db
  retire_record-miss q e h m = elim (Bool-cases (is_published_status q.status)) [
    | inr quiet ↦ rw (retire_record-clean q e h) (rw quiet refl)
    | inl live ↦ rw (retire_record-clean q e h) (rw live (close-row q.target_id e (ground arith)))
  ]

  retire_record-hit :
      (q r : RelayRecord) (e : Engine)
      → IsClean e.db
      → hits q ≡ true
      → row_of s t e.db ≡ some r
      → IsRetired (retire_record s reason q e)
  retire_record-hit q r e h m k =
      let same : q.target_id ≡ t = ground arith in
      let live : is_published_status q.status ≡ true = ground arith in
      rw (retire_record-clean q e h) (rw (live, same) (close-IsRetired r e h k))

  retire_record-keeps :
      (q : RelayRecord) (e : Engine)
      → IsClean e.db
      → IsRetired e
      → IsRetired (retire_record s reason q e)
  retire_record-keeps q e h d = elim (Bool-cases (hits q)) [
    | inl hit ↦ retire_record-hit q d.0 e h hit d.1
    | inr miss ↦ (d.0, retire_record-miss q e h miss ∙ d.1, d.2, d.3)
  ]

  retire_records-keeps :
      (qs : List RelayRecord) (e : Engine)
      → IsClean e.db
      → IsRetired e
      → IsRetired (retire_records s reason qs e)
  unfolding retire_records
  retire_records-keeps [] e h d = d
  retire_records-keeps (q ∷ qs) e h d =
      retire_records-keeps qs (retire_record s reason q e) (retire_record-IsClean q e h)
        (retire_record-keeps q e h d)

  retire_records-IsClean :
      (qs : List RelayRecord) (e : Engine)
      → IsClean e.db
      → IsClean (retire_records s reason qs e).db
  unfolding retire_records
  retire_records-IsClean [] e h = h
  retire_records-IsClean (q ∷ qs) e h =
      retire_records-IsClean qs (retire_record s reason q e) (retire_record-IsClean q e h)

  retire_records-IsRetired :
      (qs : List RelayRecord) (r : RelayRecord) (e : Engine)
      → IsClean e.db
      → any hits qs ≡ true
      → row_of s t e.db ≡ some r
      → IsRetired (retire_records s reason qs e)
  unfolding retire_records
  retire_records-IsRetired [] r e h a k = cc
  retire_records-IsRetired (q ∷ qs) r e h a k = elim (Bool-cases (hits q)) [
    | inl hit ↦
        retire_records-keeps qs _ (retire_record-IsClean q e h) (retire_record-hit q r e h hit k)
    | inr miss ↦
        retire_records-IsRetired qs r (retire_record s reason q e) (retire_record-IsClean q e h)
          (rw miss at a) (retire_record-miss q e h miss ∙ k)
  ]

  any_listed :
      (r : RelayRecord) (rows : List RelayRecord)
      → find (has_key s t) rows ≡ some r
      → is_published_status r.status ≡ true
      → any hits (keep (λ q. q.seed_id == s) rows) ≡ true
  any_listed r [] h p = cc
  any_listed r (q ∷ rows) h p = elim (Bool-cases (has_key s t q)) [
    | inl here ↦ ground arith
    | inr there ↦ ground (arith, any_listed r rows (rw there at h) p)
  ]

  listed_records :
      (db : Db)
      → IsClean db
      → (list_records_by_seed s db).1 ≡ some (keep (λ q. q.seed_id == s) db.records)
  unfolding list_records_by_seed query
  listed_records db h = rw h refl

  list_records_by_seed-IsClean : (db : Db) → IsClean db → IsClean (list_records_by_seed s db).0
  unfolding list_records_by_seed
  list_records_by_seed-IsClean db h = query-IsClean _ db h

  list_records_by_seed-row : (db : Db) → row_of s t (list_records_by_seed s db).0 ≡ row_of s t db
  unfolding list_records_by_seed
  list_records_by_seed-row db = query-row s t _ db

  close_seed-IsRetired :
      (o : Option (List RelayRecord)) (qs : List RelayRecord) (r : RelayRecord) (e : Engine)
      → o ≡ some qs
      → IsClean e.db
      → any hits qs ≡ true
      → row_of s t e.db ≡ some r
      → IsRetired (close_seed s reason o e)
  unfolding close_seed
  close_seed-IsRetired none qs r e o h a k = cc
  close_seed-IsRetired (some ps) qs r e o h a k =
      let d = retire_records-IsRetired ps r e h (ground arith) k in
      let e' = retire_records s reason ps e in
      (
        d.0,
        set_status-row s t s "retired" reason (with_engine_db (drop_replicas s e'.db) e')
            ∙ drop_replicas-row s t s e'.db
            ∙ d.1,
        d.2,
        d.3,
      )

  close_seed-none :
      (o : Option (List RelayRecord)) (qs : List RelayRecord) (e : Engine)
      → o ≡ some qs
      → IsClean e.db
      → keep (λ q. q.seed_id == s) (close_seed s reason o e).db.replicas ≡ []
  unfolding close_seed
  close_seed-none none qs e o h = cc
  close_seed-none (some ps) qs e o h =
      let e' = retire_records s reason ps e in
      ap (keep (λ q. q.seed_id == s))
        (set_status-replicas s "retired" reason (with_engine_db (drop_replicas s e'.db) e'))
      ∙ drop_replicas-none s e'.db (retire_records-IsClean ps e h)

-- When no statement fails, the retirement of a seed leaves it without replicas, and each of its records
-- that was published has the status "retired" and the reason. A key stands for its first record.
pub retire_seed-IsRetired :
    (s t : ℕ) (reason : String) (r : RelayRecord) (e : Engine)
    → e.db.faults ≡ []
    → find (has_key s t) e.db.records ≡ some r
    → is_published_status r.status ≡ true
    → let e' = retire_seed s reason e in
      ((r' : RelayRecord) × (find (has_key s t) e'.db.records ≡ some r')
        × (r'.status ≡ "retired")
        × (r'.retire_reason ≡ reason))
      × (keep (λ q. q.seed_id == s) e'.db.replicas ≡ [])
unfolding retire_seed
retire_seed-IsRetired s t reason r e h k p =
    let rows = keep (λ q. q.seed_id == s) e.db.records in
    let e1 = with_engine_db (list_records_by_seed s e.db).0 e in
    let clean = list_records_by_seed-IsClean s t reason e.db h in
    let listed = listed_records s t reason e.db h in
    (
      close_seed-IsRetired s t reason _ rows r e1 listed clean
          (any_listed s t reason r e.db.records k p) (list_records_by_seed-row s t reason e.db ∙ k),
      close_seed-none s t reason _ rows e1 listed clean,
    )
