-- ===== src/Engine/Monitor/Counted.antt =====
-- Counting the critical notices of the monitor (backend/internal/engine/monitor.go).
use text.Mathlib.Text.{◌==◌ as str_eq}
use auto_seed_relay.Prelude.{
  ◌+◌, ◌≡◌, refl, ap, ◌∙◌, sym, not, List, [], ◌∷◌, String, arith, if◌then◌else◌, ◌==◌, ◌&&◌,
  string_eq, Bool-cases, inl, inr,
}
use auto_seed_relay.Engine.Submit.Job.{Engine, warning, critical, notify}
use auto_seed_relay.Engine.Monitor.Watch.{
  Monitor, count_online, announce_outage, observe_statuses, critical_disk, announce_disk,
}
use auto_seed_relay.Engine.Monitor.Announced.{alarms, alarms-append, none_online}
use auto_seed_relay.Qb.Manager.{Status}

count_online-alarms :
    (event : String) (statuses : List Status) (e : Engine)
    → alarms event (count_online statuses e).0.notices ≡ alarms event e.notices
unfolding count_online
count_online-alarms event [] e = refl
count_online-alarms event (s ∷ statuses) e = elim (Bool-cases s.online) [
  | inl on ↦ rw on (count_online-alarms event statuses e)
  | inr off ↦ rw off (
      count_online-alarms event statuses (notify warning "offline" e)
      ∙ alarms-append event e.notices (record { level = warning; event = "offline" } ∷ [])
      ∙ omega arith)
]

count_online-zero :
    (statuses : List Status) (e : Engine)
    → ((count_online statuses e).1 == 0) ≡ none_online statuses
unfolding count_online
count_online-zero [] e = refl
count_online-zero (s ∷ statuses) e = elim (Bool-cases s.online) [
  | inl on ↦ rw on (ground arith)
  | inr off ↦ rw off (count_online-zero statuses (notify warning "offline" e))
]

-- One look at the health.
pub record Observed (statuses : List Status) (m m' : Monitor) : Type 0 where
  pub flag : m'.all_offline ≡ none_online statuses
  pub counted :
      alarms "offline" m'.engine.notices
      ≡ alarms "offline" m.engine.notices
        + (if none_online statuses && not m.all_offline then 1 else 0)
  pub no_disk : alarms "disk" m'.engine.notices ≡ alarms "disk" m.engine.notices
  pub same_disk : m'.disk_state ≡ m.disk_state

pub observe_statuses-Observed :
    (statuses : List Status) (m : Monitor) → Observed statuses m (observe_statuses statuses m)
unfolding observe_statuses announce_outage
observe_statuses-Observed statuses m =
    let e = (count_online statuses m.engine).0 in
    let zero_iff = count_online-zero statuses m.engine in
    let quiet = count_online-alarms "offline" statuses m.engine in
    let quiet_disk = count_online-alarms "disk" statuses m.engine in
    elim (Bool-cases (none_online statuses)) [
      | inr up ↦
          rw (zero_iff, up)
            (record {
              flag = sym up;
              counted = rw up (quiet ∙ omega arith);
              no_disk = quiet_disk;
              same_disk = refl;
            })
      | inl down ↦ elim (Bool-cases m.all_offline) [
        | inl known ↦
            rw (zero_iff, down, known)
              (record {
                flag = rw down refl;
                counted = rw down (quiet ∙ omega arith);
                no_disk = quiet_disk;
                same_disk = refl;
              })
        | inr new ↦
            rw (zero_iff, down, new)
              (record {
                flag = sym down;
                counted = rw down (
                    alarms-append "offline" e.notices
                      (record { level = critical; event = "offline" } ∷ [])
                    ∙ ap (λ k. k + 1) quiet);
                no_disk =
                    alarms-append "disk" e.notices
                      (record { level = critical; event = "offline" } ∷ [])
                    ∙ omega (arith, quiet_disk);
                same_disk = refl;
              })
      ]
    ]

-- One look at a disk.
pub record Disked (level prev : String) (e e' : Engine) : Type 0 where
  pub counted :
      alarms "disk" e'.notices
      ≡ alarms "disk" e.notices
        + (if str_eq level "critical" && not (str_eq prev "critical") then 1 else 0)
  pub no_health : alarms "offline" e'.notices ≡ alarms "offline" e.notices

pub announce_disk-Disked :
    (level prev : String) (e : Engine) → Disked level prev e (announce_disk level prev e)
unfolding announce_disk critical_disk
announce_disk-Disked level prev e = elim (Bool-cases (str_eq level "critical")) [
  | inl full ↦ elim (Bool-cases (str_eq prev "critical")) [
    | inl known ↦
        rw (full, known) (record { counted = rw (full, known) (omega arith); no_health = refl })
    | inr new ↦
        rw (full, new)
          (record {
            counted =
                rw (full, new)
                  (alarms-append "disk" e.notices
                    (record { level = critical; event = "disk" } ∷ []));
            no_health =
                alarms-append "offline" e.notices (record { level = critical; event = "disk" } ∷ [])
                ∙ omega arith;
          })
  ]
  | inr room ↦ elim (Bool-cases (str_eq level "low")) [
    | inr fine ↦ rw (room, fine) (record { counted = rw room (omega arith); no_health = refl })
    | inl low ↦ elim (Bool-cases (str_eq prev "low")) [
      | inl known ↦
          rw (room, low, known) (record { counted = rw room (omega arith); no_health = refl })
      | inr new ↦
          rw (room, low, new)
            (record {
              counted = rw room (
                  alarms-append "disk" e.notices (record { level = warning; event = "disk" } ∷ []));
              no_health =
                  alarms-append "offline" e.notices
                    (record { level = warning; event = "disk" } ∷ [])
                  ∙ omega arith;
            })
    ]
  ]
]
