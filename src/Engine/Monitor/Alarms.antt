-- ===== src/Engine/Monitor/Alarms.antt =====
-- The critical notices of the monitor over any rounds (backend/internal/engine/monitor.go).
use text.Mathlib.Text.{◌==◌ as str_eq}
use auto_seed_relay.Prelude.{
  ◌+◌, ◌≡◌, refl, ap, ◌∙◌, Bool, false, not, List, [], ◌∷◌, none, some, String, arith,
  if◌then◌else◌, ◌&&◌, lookup, insert, lookup-insert, string_eq, Bool-cases, inl, inr,
}
use auto_seed_relay.Engine.Submit.Job.{Engine}
use auto_seed_relay.Engine.Monitor.Watch.{
  Monitor, observe_health, observe_statuses, disk_level, previous, announce_disk, monitor_disk,
}
use auto_seed_relay.Engine.Monitor.Announced.{
  alarms, Look, health, disk, look, looks, none_online, outages, set_level, fillings,
}
use auto_seed_relay.Engine.Monitor.Counted.{observe_statuses-Observed, announce_disk-Disked}

-- The monitor remembers what the specification does.
record Remembers (down : Bool) (f : String → String) (m : Monitor) : Type 0 where
  pub offline : m.all_offline ≡ down
  pub disks : (name : String) → previous (lookup name m.disk_state) ≡ f name

abbrev Alarms : Bool → (String → String) → List Look → Monitor → Monitor → Type 0
Alarms down f ls m m' =
    (alarms "offline" m'.engine.notices ≡ alarms "offline" m.engine.notices + outages down ls)
    × (alarms "disk" m'.engine.notices ≡ alarms "disk" m.engine.notices + fillings f ls)

set_previous :
    (name level n : String) (m : Monitor) (f : String → String)
    → ((k : String) → previous (lookup k m.disk_state) ≡ f k)
    → previous (lookup n (insert name level m.disk_state)) ≡ set_level name level f n
set_previous name level n m f h = elim (Bool-cases (str_eq name n)) [
  | inl same ↦ rw (lookup-insert name n level m.disk_state, same) refl
  | inr other ↦ rw (lookup-insert name n level m.disk_state, other) (h n)
]

looks-Alarms :
    (ls : List Look) (down : Bool) (f : String → String) (m : Monitor)
    → Remembers down f m
    → Alarms down f ls m (looks ls m)
unfolding looks look observe_health monitor_disk outages fillings
looks-Alarms [] down f m r = (omega arith, omega arith)
looks-Alarms (health [] ∷ ls) down f m r = looks-Alarms ls down f m r
looks-Alarms (health (s ∷ statuses) ∷ ls) down f m r =
    let m' = observe_statuses (s ∷ statuses) m in
    let o = observe_statuses-Observed (s ∷ statuses) m in
    let rest =
      looks-Alarms ls (none_online (s ∷ statuses)) f m'
        (record { offline = o.flag; disks = λ n. rw o.same_disk (r.disks n) }) in
    (
      rest.0
          ∙ ap (λ k. k + outages (none_online (s ∷ statuses)) ls)
              (o.counted
                ∙ ap
                    (λ d.
                      alarms "offline" m.engine.notices
                      + (if none_online (s ∷ statuses) && not d then 1 else 0))
                    r.offline)
          ∙ omega arith,
      omega (arith, rest.1, o.no_disk),
    )
looks-Alarms (disk st name none ∷ ls) down f m r = looks-Alarms ls down f m r
looks-Alarms (disk st name (some free) ∷ ls) down f m r =
    let level = disk_level st free in
    let prev = previous (lookup name m.disk_state) in
    let m' = record m {
      engine = announce_disk level prev m.engine;
      disk_state = insert name level m.disk_state;
    } in
    let d = announce_disk-Disked level prev m.engine in
    let rest =
      looks-Alarms ls down (set_level name level f) m'
        (record { offline = r.offline; disks = λ n. set_previous name level n m f r.disks }) in
    (
      omega (arith, rest.0, d.no_health),
      rest.1
          ∙ ap (λ k. k + fillings (set_level name level f) ls)
              (d.counted
                ∙ ap
                    (λ p.
                      alarms "disk" m.engine.notices
                      + (if str_eq level "critical" && not (str_eq p "critical") then 1 else 0))
                    (r.disks name))
          ∙ omega arith,
    )

-- For any looks of a monitor that has seen nothing yet, at the health of all instances or at the disk of
-- one: it has sent one critical notice for each time that all instances went offline and one for each time
-- that the disk of an instance became critically full, by its strategy of that time, and no others.
pub alarms_exact :
    (ls : List Look) (e : Engine)
    → let m = looks ls (record { engine = e; all_offline = false; disk_state = [] }) in
      (alarms "offline" m.engine.notices ≡ alarms "offline" e.notices + outages false ls)
      × (alarms "disk" m.engine.notices ≡ alarms "disk" e.notices + fillings (λ n. "") ls)
unfolding lookup
alarms_exact ls e =
    looks-Alarms ls false (λ n. "") (record { engine = e; all_offline = false; disk_state = [] })
      (record { offline = refl; disks = λ n. refl })
