-- ===== src/Lib.antt =====
-- Journarr follows a media request from Seerr to Jellyfin: webhooks and pollers append events to a
-- log, the projector folds the log into requests, items, downloads and stage transitions, and the
-- control plane acts on what was reached. These modules model the database, the projector and what
-- feeds and drives them.
--
-- Store (backend/internal/store): the database `Db` is a record of tables, each a list of rows in the
-- order of its ids (Store/Rows.antt; the stage catalog and the state columns are in
-- Store/Stages.antt). Each Go method is a function on `Db`: media.go is Store/Items.antt and
-- Store/Paths.antt, requests.go Store/Requests.antt and Store/Listing.antt, transitions.go
-- Store/Transitions.antt, downloads.go Store/Downloads.antt and Store/Normalize.antt, correlate.go
-- Store/Correlate.antt, events.go Store/Events.antt and Store/Decimal.antt, flow.go Store/Tasks.antt,
-- stuck.go and release.go Store/Stuck.antt, removal.go Store/Removal.antt. A SELECT, UPDATE or INSERT
-- is a scan of Base/Lists.antt; a new row has the id after the largest. A statement that a CHECK or a
-- foreign key can refuse returns an `Option`; other statements do not fail. An empty text stands for
-- a NULL one, `none` for a season or episode of -1.
--
-- Pipeline (backend/internal/pipeline): `Projector` (Pipeline/Projector.antt) is the state of the one
-- goroutine: the database, the cached settings, the touched requests, what was published and the
-- queue of fan-outs. Each handler is a function from an event's id and decoded payload
-- (Pipeline/Ops.antt) to its outcome and the next state: seerr.go is Pipeline/Seerr.antt and
-- Pipeline/Seasons.antt, fanout.go Pipeline/Fanout.antt, grabs.go Pipeline/Grabs.antt and
-- Pipeline/Imports.antt, arrarr.go Pipeline/Arrarr.antt and Pipeline/Notices.antt, tdarr.go
-- Pipeline/Tdarr.antt, and handle, drain, flushTouched and retryFanouts Pipeline/Drain.antt. A
-- transition that is new is published and passed to OnStageApplied of backend/internal/flow
-- (Flow/Settings.antt), which enqueues tasks.
--
-- The order in which Go iterates a map is a parameter (`range` for the items of an event, `order` for
-- touched requests, `shuffle` for due fan-outs), and so is what Sonarr answers; nothing is assumed of them. The loop of drain
-- runs on fuel, one more than the number of events: a full batch marks at least one of them. itoa has
-- the 20 places of its buffer, enough for an int64.
--
-- What a handler does to the database is a sequence of the statements `Write` of Store/Writes.antt,
-- followed handler by handler under Pipeline/Writes; what each statement keeps is proved once under
-- Store/Writes, and carried to the passes in Pipeline/Passes.antt.
--
-- Actions (backend/internal/actions/actions.go): Retry, Cancel and ResendNotify are
-- Actions/Retry.antt, Actions/Cancel.antt and Actions/Resend.antt. The clients' answers are the
-- parameter `Clients`, the calls are kept in a list. The worker of
-- backend/internal/flow/controller.go is Flow/Controller.antt (drain, exec, execNotify) and
-- Flow/Sweep.antt (sweep); its notifier and what other goroutines write while a notice is sent are
-- parameters.
--
-- Alert.antt is Observe of backend/internal/alert/alert.go. The mutex makes each call one step, so
-- that a history of health results is a list; what is sent is a list of alerts.
--
-- Poll (backend/internal/poll): each poller's pass is a function on the database and the answers of
-- the services: arrhistory.go is Poll/History.antt, with HistorySince of
-- backend/internal/clients/arrmedia.go in Poll/HistoryPages.antt and the cursors of
-- store/correlate.go in Poll/Cursors.antt; release.go is Poll/Release.antt, tvwaiting.go
-- Poll/TvWaiting.antt, presence.go Poll/Presence.antt, seerrreq.go Poll/SeerrRequests.antt,
-- arrqueue.go Poll/ArrQueue.antt, jellyfin.go Poll/Jellyfin.antt. Poll/Deliveries.antt and
-- Poll/Writes.antt follow what a pass does to the database, as System.antt needs it. The page budget
-- of HistorySince is the source's own bound; a cursor is read back as it was written below 2 ^ 63.
--
-- Ingest (backend/internal/ingest): the guard `wrap` is Ingest.antt, arr.go Ingest/ArrHooks.antt,
-- seerr.go Ingest/SeerrHook.antt, arrarr.go and tdarr.go Ingest/OtherHooks.antt. A handler takes the
-- decoded body and an `Emitter` (Poll/Emit.antt): the database and whether the projector was woken.
--
-- Actions/RemovalPlan.antt, with its data in Actions/RemovalPlan/Data.antt, and Actions/Remove.antt
-- are PlanRemoval, Remove and humanBytes of backend/internal/actions/remove.go. Calls that change
-- something are kept in a list, in their order. The loop of humanBytes has fuel 6, one more than the
-- divisions an int64 needs.
--
-- Actions/Menu.antt is Available and SeasonSearch of backend/internal/actions/registry.go.
--
-- Storage.antt is Mounts of backend/internal/storage/storage.go: the disks that the instances report,
-- merged by path and size, sorted and cached.
--
-- Auth.antt is backend/internal/auth/auth.go: login, callback, logout and the guards, on what one
-- browser holds. The OIDC libraries and the cookie store are parameters, and cookies can be neither
-- forged nor read.
--
-- Updates.antt is backend/internal/updates/updates.go: which tag of a repository is the latest
-- release, and whether it is newer than the version that runs.
--
-- Broker.antt is backend/internal/api/sse.go: what is published goes to the open pages, whose buffers
-- of 32 frames are the source's own; each use of the mutex and each round of a handler is a step.
--
-- System.antt lets passes, deliveries, the pollers, time, Retry, Cancel and ResendNotify interleave.
--
-- Not modelled: JSON, HTTP and the clients of other services; the health poller, the other actions
-- and the web pages; errors of the database as such, panics, and the wrap-around of int64. Texts are
-- lists of code points, and lowering, trimming and the lengths at which a text is cut are those of
-- ASCII.
pub mod Base
pub mod Pipeline
pub mod Store
pub mod Flow
pub mod Actions
pub mod Alert
pub mod Auth
pub mod Poll
pub mod Ingest
pub mod Storage
pub mod System
pub mod Broker
pub mod Updates
pub mod Tests
