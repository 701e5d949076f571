-- ===== src/Store/Migrated.antt =====
-- Migrations that are interrupted and resumed (backend/internal/store/migrate.go).
use auto_seed_relay.Prelude.{
  ℕ, ◌≡◌, ◌≢◌, ◌≤◌, ◌<◌, refl, ap, ◌∙◌, sym, Bool, true, false, List, [], ◌∷◌, ◌++◌, String, leb,
  leb→le, le→leb, arith, append_assoc, append-nil, subst, Bool-cases, inl, inr,
}
use auto_seed_relay.Store.Rows.{next_fault, later_faults}
use auto_seed_relay.Store.Migrate.{
  Migration, Schema, after_step, exec_each, finish_migration, roll_back, apply_migration,
  sort_migrations, next_migration, migrate_each, migrate_fs, split_statements, pieces, at_top,
}
use auto_seed_relay.Store.Split.{char_codes, joined, pieces_join, has_version}
use auto_seed_relay.Store.Due.{due_after, covers}

module _ (trim : String → String) where
  unfoldable pub scripts : List Migration → List String
  scripts [] = []
  scripts (m ∷ ms) = split_statements trim m.sql ++ scripts ms

  exec_each_lem :
      (ss : List String) (d : Schema)
      → ((exec_each ss d).1 ≡ true → (exec_each ss d).0.executed ≡ d.executed ++ ss)
        × (d.faults ≡ [] → (exec_each ss d).1 ≡ true × ((exec_each ss d).0.faults ≡ []))
  unfolding exec_each
  exec_each_lem [] d = (λ h. sym (append-nil d.executed), λ c. (refl, c))
  exec_each_lem (s ∷ ss) d = elim (Bool-cases (next_fault d.faults)) [
    | inl bad ↦ rw bad (λ h. absurd cc, λ c. absurd (let k = ap next_fault c in cc))
    | inr fine ↦
        let (a, b) = exec_each_lem ss (record (after_step d) { executed = d.executed ++ s ∷ [] }) in
        rw fine (λ h. a h ∙ append_assoc d.executed (s ∷ []) ss, λ c. b (ap later_faults c))
  ]

  -- What one migration leaves.
  record Applied (m : Migration) (d : Schema) (r : Schema × Bool) : Type 0 where
    pub all : r.1 ≡ true → r.0.executed ≡ d.executed ++ split_statements trim m.sql
    pub bumped : r.1 ≡ true → r.0.version ≡ m.version
    pub nothing : r.1 ≡ false → (r.0.executed ≡ d.executed) × (r.0.version ≡ d.version)
    pub clean : d.faults ≡ [] → (r.1 ≡ true) × (r.0.faults ≡ [])

  failed-Applied :
      (m : Migration) (d e : Schema)
      → d.faults ≢ []
      → Applied m d (record d { faults = e.faults }, false)
  failed-Applied m d e bad = record {
    all = λ h. absurd cc;
    bumped = λ h. absurd cc;
    nothing = λ h. (refl, refl);
    clean = λ c. absurd (bad c);
  }

  finish-Applied :
      (m : Migration) (d : Schema) (r : Schema × Bool)
      → (r.1 ≡ true → r.0.executed ≡ d.executed ++ split_statements trim m.sql)
      → (d.faults ≡ [] → r.1 ≡ true × (r.0.faults ≡ []))
      → Applied m d (roll_back d (finish_migration m.version r))
  unfolding finish_migration
  finish-Applied m d (e, false) h k = failed-Applied m d e (λ c. let l = (k c).0 in absurd cc)
  finish-Applied m d (e, true) h k = elim (Bool-cases (next_fault e.faults)) [
    | inl bad ↦
        rw bad (failed-Applied m d (after_step e) (λ c. let l = ap next_fault (k c).1 in cc))
    | inr fine ↦ elim (Bool-cases (next_fault (later_faults e.faults))) [
      | inl bad ↦
          rw (fine, bad)
            (failed-Applied m d (after_step (after_step e))
              (λ c. let l = ap (λ fs. next_fault (later_faults fs)) (k c).1 in cc))
      | inr still ↦
          rw (fine, still)
            (record {
              all = h;
              bumped = λ g. refl;
              nothing = λ g. absurd cc;
              clean = λ c. (refl, ap (λ fs. later_faults (later_faults fs)) (k c).1);
            })
    ]
  ]

  apply-Applied : (m : Migration) (d : Schema) → Applied m d (apply_migration trim m d)
  unfolding apply_migration finish_migration
  apply-Applied m d = elim (Bool-cases (next_fault d.faults)) [
    | inl bad ↦ rw bad (record {
      all = λ h. absurd cc;
      bumped = λ h. absurd cc;
      nothing = λ h. (refl, refl);
      clean = λ c. absurd (let k = ap next_fault c in cc);
    })
    | inr fine ↦
        let (a, b) = exec_each_lem (split_statements trim m.sql) (after_step d) in
        rw fine (finish-Applied m d _ a (λ c. b (ap later_faults c)))
  ]

  -- A run: some of what was due is done, in its order, and the rest is what is due now.
  pub record Resumes (before : Schema) (ms : List Migration) (current : ℕ) (r : Schema × Bool)
      : Type 0 where
    pub done : List Migration
    pub left : List Migration
    pub split : due_after current ms ≡ done ++ left
    pub executed : r.0.executed ≡ before.executed ++ scripts done
    pub still_due : due_after r.0.version ms ≡ left
    pub higher : current ≤ r.0.version
    pub complete : r.1 ≡ true → left ≡ []
    pub clean : before.faults ≡ [] → r.1 ≡ true

  next-Resumes :
      (m : Migration) (ms : List Migration) (d : Schema) (r : Schema × Bool)
      → leb m.version d.version ≡ false
      → Applied m d r
      → ((e : Schema) → Resumes e ms e.version (migrate_each trim ms e.version e))
      → Resumes d (m ∷ ms) d.version (next_migration (migrate_each trim ms) m.version r)
  unfolding due_after scripts
  next-Resumes m ms d (e, false) new a rest = record {
    done = [];
    left = m ∷ due_after m.version ms;
    split = rw new refl;
    executed = (a.nothing refl).0 ∙ sym (append-nil d.executed);
    still_due = rw ((a.nothing refl).1, new) refl;
    higher = let k = (a.nothing refl).1 in omega arith;
    complete = λ h. absurd cc;
    clean = λ c. absurd (let k = (a.clean c).0 in cc);
  }
  next-Resumes m ms d (e, true) new a rest =
      let r : Resumes e ms m.version (migrate_each trim ms m.version e) =
        subst (λ x. Resumes e ms x (migrate_each trim ms x e)) (a.bumped refl) (rest e) in
      let reached = r.higher in
      record {
        done = m ∷ r.done;
        left = r.left;
        split = rw new (ap (λ x. m ∷ x) r.split);
        executed =
            r.executed
            ∙ ap (λ x. x ++ scripts r.done) (a.all refl)
            ∙ append_assoc d.executed (split_statements trim m.sql) (scripts r.done);
        still_due =
            rw (le→leb m.version (migrate_each trim ms m.version e).0.version reached) r.still_due;
        higher = ground arith;
        complete = r.complete;
        clean = λ c. r.clean (a.clean c).1;
      }

  each-Resumes :
      (ms : List Migration) (d : Schema) → Resumes d ms d.version (migrate_each trim ms d.version d)
  unfolding migrate_each due_after scripts
  each-Resumes [] d = record {
    done = [];
    left = [];
    split = refl;
    executed = sym (append-nil d.executed);
    still_due = refl;
    higher = omega arith;
    complete = λ h. refl;
    clean = λ c. refl;
  }
  each-Resumes (m ∷ ms) d = elim (Bool-cases (leb m.version d.version)) [
    | inl old ↦
        let r = each-Resumes ms d in
        let reached = r.higher in
        let old' = leb→le _ _ old in
        rw old (record {
          done = r.done;
          left = r.left;
          split = rw old r.split;
          executed = r.executed;
          still_due =
              rw (le→leb m.version (migrate_each trim ms d.version d).0.version (omega arith))
                r.still_due;
          higher = r.higher;
          complete = r.complete;
          clean = r.clean;
        })
    | inr new ↦ rw new (next-Resumes m ms d _ new (apply-Applied m d) (each-Resumes ms))
  ]

  -- Whichever steps fail, a run of the migrations executes the statements of the first of those that are due,
  -- whole migrations in the order of their versions, and what it has not executed is exactly what is due
  -- after it: a later run goes on there. It returns no error only if nothing is left, and none without a
  -- fault. Every version above that of the database is among those due. A script is cut at semicolons
  -- only: its pieces with a semicolon between each two are the script.
  pub migrate_resumes :
      (ms : List Migration) (d : Schema)
      → let r = migrate_fs trim ms d in
        let sorted = sort_migrations ms in
        ((done : List Migration) × (left : List Migration) × (due_after d.version sorted
            ≡ done ++ left)
          × (r.0.executed ≡ d.executed ++ scripts done)
          × (due_after r.0.version sorted ≡ left)
          × (r.1 ≡ true → left ≡ []))
        × (d.faults ≡ [] → r.1 ≡ true)
        × ((v : ℕ)
            → has_version v ms ≡ true
            → d.version < v
            → has_version v (due_after d.version sorted) ≡ true)
        × ((script : String) → joined (pieces at_top "" script) ≡ char_codes script)
  unfolding migrate_fs scripts
  migrate_resumes ms d = elim (Bool-cases (next_fault d.faults)) [
    | inl bad ↦ rw bad (
      (
        [],
        due_after d.version (sort_migrations ms),
        refl,
        sym (append-nil d.executed),
        refl,
        λ h. absurd cc,
      ),
      (λ c. absurd (let k = ap next_fault c in cc)),
      covers ms d,
      pieces_join,
    )
    | inr fine ↦
        let r = each-Resumes (sort_migrations ms) (after_step d) in
        rw fine (
          (r.done, r.left, r.split, r.executed, r.still_due, r.complete),
          (λ c. r.clean (ap later_faults c)),
          covers ms d,
          pieces_join,
        )
  ]
