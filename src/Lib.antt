-- ===== src/Lib.antt =====
-- A model of the zooid relay: a Nostr relay in Go with groups (NIP-29), relay membership (NIP-43), a
-- management API (NIP-86) and a PostgreSQL store.
--
-- How the parts work together. The relay framework khatru calls the handlers of `Instance`
-- (zooid/instance.go) for each request and event. They ask `ManagementStore` (zooid/management.go) who
-- is a member of the relay and what is banned, and `GroupStore` (zooid/groups.go) who may read and
-- write in a group. Both keep caches in memory and publish signed events through one `EventStore`
-- (zooid/events.go), which reads and writes two tables. `Config` (zooid/config.go) holds policies,
-- roles and retention times.
--
-- Which file models what:
--   Prelude     names of the library, Boolean tests, lists, maps and results that all files share
--   Nostr       events, filters, and `Externals`: what the code calls of the nostr library, of the
--               JSON decoder and of PostgreSQL, as functions with documented laws
--   Config      `Role`, `Config` and the rights; Config.Retention: `ParseRetentionDuration`,
--               `validateRetention`, `HasRetention`, `GetRetention`
--   Events      Table: `saveEventWith`, `deleteEventWith`; Query: `buildSelectQuery`,
--               `queryEventsWith`, `CountEvents`; Replace: `replaceEventOnce`; Store: `SaveEvent`,
--               `ReplaceEvent`, `StoreEvent`, `SignAndStoreEvent`, `DeleteEvent`, `QueryEvents`; Answers,
--               Replaced, Batches, Failures, Backoff, Attempts, Retries: what is
--               proved of them
--   Debounce    `scheduleRewrite`, and its goroutines as a step relation (Debounce.Runs)
--   Groups      State, Tags, Members, Metadata, Publish, Access, Writes: zooid/groups.go in the order
--               of the file; Warm: its `WarmCaches`; Membership, Latest, Reading, Flags, Deletion,
--               Writes.Rejected, Warm.Snapshots, Warm.Tail, Warm.Kept, Warm.Started: what is
--               proved of it
--   Management  Admins, Store, Warm, Joins, Api: zooid/management.go; Start, Lists, Bans,
--               Joins: what is proved of it
--   Instance    State, Requests, Saved: the handlers; Start: the end of `MakeInstance`; Gate, Served,
--               Users, Started: what is proved of them
--   Blossom     zooid/blossom.go: the files and who may use them; Gates: what is proved of it
--   Registry    zooid/lib.go: `Dispatch`, `Start` and the events of its watcher, as a step relation in
--               Registry.Hosts; Hosts, Served: what is proved of it
--   Retention   zooid/retention.go: the batches; Passes: the run over groups and instances; Counts,
--               Batches, Steps, Runs, Clean: what is proved of them
--   Schema      `Get` and `Set` of zooid/kv.go and `RunMigrations` of zooid/migrate.go; Applied,
--               Reads, Once: what is proved of them
--   Metrics     the gauges of zooid/metrics.go, and Messages: its counts of messages; Selected,
--               Exported: which groups they name
--   Migrate     cmd/migrate/main.go; Rows, Counts, Unfilled, ForeignKey: what is proved of it
--   Tests       a concrete relay, and the theorems below at work on it
--
-- How state and operations correspond. A Go struct is a record with the source's field names in lower
-- case. A `sync.Map` is an association list, a set a list that holds an element once, keys and ids are
-- numbers. An operation takes the store and returns the error, `none` for nil, with the store
-- afterwards; an operation of `GroupStore` or `ManagementStore` carries the event store inside. A map
-- without a key answers `none`, and the caller's default is written out. A panic of the Go code is
-- `none` where a model can meet it.
--
-- Bounds and fuel. What the database and the clock do is the `plan` of the event store, one reply for
-- each transaction to come: a commit, a serialization conflict, a deadline or a fault, with the time
-- that it takes and the random number of the sleep behind it. The retries of `ReplaceEvent` recurse on
-- the attempts that are left, which is the loop's own bound; they count the nanoseconds that are spent
-- of the 60 s of their budget, apart from the clock in seconds that stamps events, and the panic of
-- `rand.IntN` is a failure of its own, which a caller that ignores errors ignores as well. A deadline
-- that passes while a transaction runs is the reply's choice. Reads may break off: `scan` says how many rows a query yields. Retention values are natural numbers checked against
-- the range of an int64; times and kinds are natural numbers. A goroutine's steps in Debounce.Runs are
-- atomic as the mutex makes them. Methods of the other stores are not interleaved.
--
-- The cleaner's loop takes as fuel one more than the number of events: a batch that is not the last
-- deletes something. `Planner` is what PostgreSQL does with a LIMIT, `Texts` the standard library on
-- texts and templates, `Postgres` and `Source` the two databases of the migration tool, with the state
-- of the destination abstract. `MakeInstance` is an argument of the registry's steps, since it depends
-- on the files at the time of the call. An iteration order that Go leaves open is the order of a list.
--
-- What is not modelled: the first part of `MakeInstance` and the set-up statements of the tables,
-- which wire libraries together; the tickers and the histograms; the namespaced `KV`, which nothing
-- uses; reading and writing the configuration files, and the calls of the management API that change
-- them; the relay binary. Randomness is an argument.
pub mod Prelude
pub mod Nostr
pub mod Config
pub mod Events
pub mod Debounce
pub mod Management
pub mod Groups
pub mod Instance
pub mod Blossom
pub mod Registry
pub mod Retention
pub mod Schema
pub mod Migrate
pub mod Metrics
pub mod Tests
