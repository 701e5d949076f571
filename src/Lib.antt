-- ===== src/Lib.antt =====
-- Verification library of AutoSeedRelay, a service that relays torrents from a source site to target
-- sites. It models the Go code under backend/internal.
--
-- Parts and files:
--   Prelude    Boolean tests on native numbers, lists, association lists, signed integers.
--   Breaker    notifier/breaker.go: `Breaker.Do` as two locked phases (`begin`, `settle`) with the call in
--              flight between them; `Invariant` runs any interleaving of phases of any number of calls.
--   Bencode    bencode/bencode.go: `Encode` is `encode`, `parse` is `parse` with its two loops
--              `parse_items` and `parse_fields`, then `Decode`, `InfoHash`, `LoadTorrent`, `WriteTorrent`.
--   Store      store/seeds.go, status.go, seen.go, activity.go, relay.go, replicas.go: one function for
--              each statement, on a record of tables; the list `faults` says which statements fail;
--              store/migrate.go: the migrations and the cutting of scripts (`Migrate`).
--   Engine     engine/engine.go: the worker pool with Start, Stop and enqueue as a step relation
--              (`Lifecycle.Pool`), the recovery at a start (`Lifecycle.Recovered`) and `ResendSeed`
--              (`Lifecycle.Resend`); engine/retry.go: `RetryQueue` (`Retry.Queue`), the pause of
--              `retryLoop`, and `submitJob` and `rebuildRetryQueue` (`Submit.Job`), on the store above;
--              engine/poller.go: `ingestItem` (`Poll.Ingest`), `pollSource` and `sourceFailed`
--              (`Poll.Source`); engine/dispatcher.go: `SelectQB` (`Dispatcher.Select`);
--              engine/monitor.go: `observeHealth` and `monitorDisk` (`Monitor.Watch`), `monitorSlow` and
--              `abortSlowTorrent` (`Monitor.Abort`), `shouldRetire` and `retireCheck` (`Monitor.Retire`).
--   Pipeline   pipeline/target.go and pipeline.go: `publishToOneTarget` (`Publish`), `Relay` (`Relay`), what
--              a publish leaves alone (`Frame`, `Once`, `Done`), and its results (`Clean`, `Success`,
--              `Outcome`). The answers of sites, qBittorrent and the parser are records of inputs.
--   Api        api/ops_seeds.go: `deleteSeed` with its transaction, and `resendSeed` (`Ops`).
--   Qb         qb/manager.go: the registry of instances (`Manager`); qb/qb.go: the login and the requests
--              with their retry (`Client`); qb/client.go: `IsSlow` with its tracker (`Slow`).
--   Router     notifier/router.go: `Notify` with its aggregation windows (`Window`).
--   Auth       auth/ratelimit.go: `allow` (`RateLimit`); auth/session.go and middleware.go: the session
--              cookie and the gate of the API (`Session`); auth/manager.go: the password hash and the
--              session secret in app_settings (`Settings`).
--   Backup     backup/backup.go: `Restore`, and backup/validate.go: `ValidateZip` (`Restore`).
--   Source     source/download.go: which addresses are dialed (`Address`), the download of a torrent file
--              (`Download`), and the registry of pending torrents (`Pending`).
--
-- How they interact: the poller marks an item as seen, creates a seed and hands it to the workers.
-- `submitJob` runs the pipeline that it is given, writes through the store, enqueues into the retry
-- queue and hands notices to the notifier router, whose instances each have a breaker. The pipeline
-- claims a record for each target and publishes; the monitor retires seeds that are published, and
-- aborts and requeues those whose torrent the qb client finds slow. `ResendSeed` and `deleteSeed` work on
-- the same tables and the same queue. The monitor watches what the registry of instances reports.
--
-- Fuel: `parse` takes one unit for each call and each turn of a loop; `Decode` gives it twice the
-- length of the text and two, as each byte is read by at most one value and one turn of a loop. The
-- attempts of a download are counted down from the source's own bound of five.
--
-- A statement is one of the store package (`Store.Operations`); what `ResendSeed` and `deleteSeed` delete
-- on the raw handle stands with them (`Engine.Lifecycle.Resend`, `Api.Ops`).
--
-- Not modelled: SQLite (a statement does what its SQL text says, or fails and changes nothing), SHA-1,
-- HMAC, bcrypt, base64, zip, JSON and the file system (arguments), the wording of messages, the target
-- adapters and the parsing of feeds and pages (what they answer is an argument), the text heuristics of
-- parser, titler, mteam and descr, the flusher goroutine of the router, the part of the monitor that
-- matches listed torrents with replicas, the export of backups, the configuration tables,
-- the other HTTP handlers, the start-up, and the web dashboard. Goroutines of one relay run are taken in
-- order. Times are numbers; the clock is an argument of whatever reads it.
pub mod Prelude
pub mod Breaker
pub mod Backup
pub mod Bencode
pub mod Source
pub mod Store
pub mod Engine
pub mod Pipeline
pub mod Api
pub mod Auth
pub mod Qb
pub mod Router
