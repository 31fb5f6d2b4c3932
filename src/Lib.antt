-- ===== src/Lib.antt =====
-- Verification of simple-mining-proxy, a Stratum V1 relay between ASIC miners and mining pools.
--
-- The program. Miners connect to one address; a session of each is relayed to the active pool. The
-- configuration (pools, the active one, the fallback order) is one JSON file behind a store; the
-- pool manager changes it on behalf of the API, checks the addresses of the pools in the
-- background and drains sessions when the active pool changes. Timed switching and block hunting
-- move the farm to a solo pool for a while and back, through the manager; profit switching
-- compares the coins of the pools and switches through it as well. Sessions count shares, which
-- the history turns into charts, and a monitor tells when an ASIC sends none. A guard protects the
-- login of the panel, an event log tells the operator what happened. The settings, which the
-- operator edits while the proxy runs, lie in the same file and are checked before they count.
--
-- What models what (paths from the repository's root):
-- [State] internal/state/state.go. `File`, `Pool` and `Address` are the records of the source;
-- State.Fields is `PoolFieldErrors`, State.Store is `check`, `Mutate` and `Open`, with the disk
-- and the memory of the store as two fields; State.Valid says what a well-formed file is.
-- [Pools] internal/pool/manager.go. Pools.Edit, Pools.Ids, Pools.Input and Pools.Change are the
-- closures that `activate`, `SetProfitHome`, `Delete`, `SetFallback`, `Create` and `Update` hand
-- to `Mutate`; Pools.Requests puts them behind one type of request against the store of State.
-- [Health] internal/pool/health.go and internal/pool/probe.go. Health.Updates
-- is the entry of an address, Health.Refresh the status of a pool and `chooseLocked`,
-- Health.Record the operations on the maps, Health.DialOrder `orderedAddresses`, Health.Forget
-- what an edit drops, Health.Probes the background checks with what a result must meet to count.
-- [Timed] internal/timed/timed.go and hunt.go. Timed.Stints is the bookkeeping and `StartNow`,
-- Timed.Hunt the hunter, Timed.Steps is `step` with `leave`, `back`, `stepHunt` and `maybeHunt`,
-- on a farm that consists of the store of State and the switcher; its switches are those of Pools.
-- [Drain] the drains of internal/session/registry.go, as steps of any number of goroutines that
-- interleave, each step being what happens under `drainMu`.
-- [Guard] internal/admin/guard.go, with `attempt` as one function.
-- [Events] internal/events/events.go, the ring buffer with its indices, and `Throttled`.
-- [Stratum] `Worker` and `RewriteLogin` of internal/stratum/rewrite.go, and `IDKey` of message.go.
-- Stratum.Lines is linereader.go, over the pieces that the buffered reader gives.
-- [Session] internal/session/session.go, with `ResultTrue`, `IsJob`, `StringAt` and `NumberAt` of
-- internal/stratum/message.go. Session.Miner is `authorize`, `submit` and `fromMiner`,
-- Session.Upstream is `fromPool`, the deadlines and a round of `poolLoop`; Session.Runs takes the
-- messages of both sides as they come, over a session and the counters of Stats.
-- [Stats] internal/stats/stats.go, the ring of minutes and the counters.
-- [Routing] `Pick`, `Mode`, `Effective` and `checkFailback` of internal/pool/manager.go and
-- `checkFailover` of internal/pool/probe.go, over the maps of Health.
-- [Monitor] internal/monitor/monitor.go, `check` as one function; Monitor.Names is `NameLess`.
-- [Profit] internal/profit/switcher.go, `decide` over Routing's snapshot; Profit.Schedule is
-- `Check` with `due` and the cache of the market.
-- [History] internal/history/point.go; History.Recorder is the locked part of `record` in
-- history.go, with the points whose write failed in lists of their own; History.Buckets is
-- `buckets` of query.go, for what the files held when they were read and the series of the lock.
-- [Listener] the limits of internal/listener/listener.go, as steps of connections that interleave.
-- [Notifier] internal/telegram/notifier.go over the changes of Monitor.
-- [Settings] internal/settings/registry.go and store.go. Settings.Registry is the table `Defs` with
-- `crossCheck`; Settings.Codec is `parse` and `encode`, over what `json` and `time` do to a text;
-- Settings.Build is the loops of `build` and `Prepare`, and Settings.Store puts `Save` on the store
-- of State.
-- [Base] Boolean tests, lists, texts and maps that the parts share.
--
-- Conventions. A text is the list of its bytes, and ASCII where the source folds case or trims. A
-- time is a number of nanoseconds since Go's zero time, so that 0 is `IsZero`, and the clock does
-- not go back; the differences that the source computes are then written as sums on the other
-- side. A Go map is an association list with each key once. A lock makes an operation one step.
-- What the program learns from outside is an argument: whether a write to the disk succeeds,
-- whether `net.ParseIP` accepts a host, whether a password is right, the latency and the outcome
-- of a check, the shuffled sessions of a drain, the outcome of a dial, the market. The difficulty
-- factor of a block is a whole number of thousandths, with 1200 and 2000 for the limits 1.2 and 2;
-- the ratio 0.8 of two latencies is compared as five to four.
--
-- Bounds. Loops over lists are recursions on the list. The line reader gets one round more than
-- there are pieces to come, and every round takes a piece or stops. The search for a free id tries
-- one candidate for each pool and one more. What concerns the length of an id is stated for fewer
-- than ten million pools, since the number of a candidate may have seven digits. Counters are
-- unbounded numbers; the 64-bit ones of the source do not wrap in the life of a process.
--
-- A number in the JSON of a setting is exact, and within what 64 bits hold; `json` and
-- `time.ParseDuration` are parameters, of which is asked that they read what they print.
--
-- Floating-point figures (difficulties, hashrates, revenues) are whole numbers, in a unit as small
-- as one likes; a percentage of two of them is compared by a product. The average of miners in a
-- point of the charts is kept as its product with the seconds.
--
-- Not modelled: JSON decoding, the network (connections, dialing, TLS, the admin server,
-- Telegram), the format of the history's files, what a query makes of the steps, the lists of coins in a
-- profit report, and the real-time target formula in floating point. A step of the switcher is one
-- transition: what an operator does while it waits for a pool check is not modelled. Events are
-- values of Health and left out of Timed. Among addresses that failed at the same time,
-- `sort.Slice` of the guard may drop any; the model drops the first.
mod Base
pub mod State
pub mod Pools
pub mod Health
pub mod Guard
pub mod Timed
pub mod Stratum
pub mod Stats
pub mod Session
pub mod Routing
pub mod Monitor
pub mod Profit
pub mod History
pub mod Listener
pub mod Notifier
pub mod Drain
pub mod Settings
pub mod Events
