-- ===== src/Engine/Monitor/Watch.antt =====
-- `observeHealth` and `monitorDisk` of backend/internal/engine/monitor.go, with what the monitor keeps
-- between its rounds. Free space is a number of bytes, compared with the thresholds in GB exactly; the
-- program compares the quotient as a float, which is exact below 2^53 bytes.
use text.Mathlib.Text.{◌==◌ as str_eq}
use auto_seed_relay.Prelude.{
  ℕ, ◌+◌, ◌*◌, ◌^◌, Bool, true, false, List, [], ◌∷◌, Option, none, some, String, if◌then◌else◌,
  ltb, ◌==◌, lookup, insert, string_eq,
}
use auto_seed_relay.Store.Seeds.{append_log}
use auto_seed_relay.Engine.Strategy.{Strategy}
use auto_seed_relay.Engine.Submit.Job.{Engine, warning, critical, notify}
use auto_seed_relay.Engine.Monitor.Retire.{with_engine_db}
use auto_seed_relay.Qb.Manager.{Status}

-- The engine with `qbAllOffline` and `diskState`.
pub record Monitor : Type 0 where
  pub engine : Engine
  pub all_offline : Bool
  pub disk_state : List (String × String)

abbrev pub with_engine : Engine → Monitor → Monitor
with_engine e m = record m { engine = e }

-- The loop over the statuses: how many are online, with a warning for each that is not.
unfoldable pub count_online : List Status → Engine → Engine × ℕ
count_online [] e = (e, 0)
count_online (s ∷ statuses) e =
    let (e', online) = count_online statuses (if s.online then e else notify warning "offline" e) in
    (e', if s.online then online + 1 else online)

-- `CompareAndSwap`, and the notice if it has swapped.
unfoldable pub announce_outage : Monitor → Monitor
announce_outage m =
    if m.all_offline
    then m
    else record m { engine = notify critical "offline" m.engine; all_offline = true }

unfoldable pub observe_statuses : List Status → Monitor → Monitor
observe_statuses statuses m =
    let (e, online) = count_online statuses m.engine in
    if online == 0
    then announce_outage (with_engine e m)
    else record m { engine = e; all_offline = false }

-- `observeHealth`; without instances there is nothing to observe.
unfoldable pub observe_health : List Status → Monitor → Monitor
observe_health [] m = m
observe_health (s ∷ statuses) m = observe_statuses (s ∷ statuses) m

abbrev pub gigabyte : ℕ
gigabyte = 2 ^ 30

unfoldable pub disk_level : Strategy → ℕ → String
disk_level st free =
    if ltb free (st.disk_critical_gb * gigabyte)
    then "critical"
    else if ltb free (st.disk_low_gb * gigabyte)
    then "low"
    else "ok"

abbrev pub previous : Option String → String
previous none = ""
previous (some state) = state

unfoldable pub critical_disk : Engine → Engine
critical_disk e =
    let e' = notify critical "disk" e in
    with_engine_db (append_log 0 "critical" "disk_critical" e'.db).0 e'

unfoldable pub announce_disk : String → String → Engine → Engine
announce_disk state prev e =
    if str_eq state "critical"
    then if str_eq prev "critical" then e else critical_disk e
    else if str_eq state "low"
    then if str_eq prev "low" then e else notify warning "disk" e
    else e

-- `monitorDisk`, with what the query answers.
unfoldable pub monitor_disk : Strategy → String → Option ℕ → Monitor → Monitor
monitor_disk st name none m = m
monitor_disk st name (some free) m =
    let state = disk_level st free in
    record m {
      engine = announce_disk state (previous (lookup name m.disk_state)) m.engine;
      disk_state = insert name state m.disk_state;
    }
