-- ===== src/Lib.antt =====
-- Threat Intel Arbiter takes threat events from feeds, drops those on warning or notice lists,
-- matches the others against an organisation's tech stack, scores them, decides on an action by
-- the SSVC tree, and routes alerts to channels. A dashboard with accounts stands beside it.
--
-- Which file models which part (paths from the repository's root):
--   Common        texts, lists, maps and signed integers as Go has them
--   Model         internal/model/threat_event.go
--   Filter        internal/filter/filter.go: Allow, FilterEvents, LoadWarningCVEs, LoadNoticeEvents
--   Matching      internal/match: Version (version/version.go: Detect, Parse, InRange), Cve
--                 (cve_matcher.go), Kev (kev_matcher.go), Sector (sector_matcher.go), Tag (tag.go),
--                 Engine (engine.go); Scan and Number recognise what the regular expressions,
--                 strconv and time.Parse do there
--   Risk          internal/risk: Ssvc (ssvc.go: SSVCTree), Score (engine.go: Score and its factors),
--                 Explain (engine.go: Explain; alert.go: DedupKey)
--   Inventory     internal/config/techstack.go: ParseTechStackReader, ComputeDelta
--   Config        internal/config/config.go: LoadAll and its loaders; Pollers (cmd/arbiter/main.go:
--                 the pollers that are started for the sources)
--   Access        RateLimit (internal/api/ratelimit.go), Users (internal/store/users.go), Legacy (its
--                 verifyLegacy, splitN, indexOf), Argon (its hashPassword, verifyHash,
--                 verifyArgon2), Login and Guards (internal/api/auth.go:
--                 handleLogin, handleLogout, sessionFromCookie, requireAuth, requireAdmin,
--                 handleAdminUsers)
--   Database      internal/store/db.go: Open and its migrations, which Statements lists
--   Notify        internal/notify/router.go: Route; Channels (Register, the console and file
--                 notifiers, and the notifiers that cmd/arbiter/main.go registers), Webhook (slack.go),
--                 Email (email.go), Crowdstrike (internal/notify/crowdstrike.go: Ip,
--                 Validation and Export for the checks of an indicator, Queue for the critical
--                 sections of Notify, flush and pruneSent, Schedule for their interleavings, Token
--                 for NewCrowdstrikeNotifier and getToken, Sending for send and flush)
--   Alerts        internal/risk/alert.go: NewAlert; internal/store/alerts.go
--   Source        internal/source: Misp (misp.go: NormalizeMISPEvent; Cpe for parseCPE), Kev (kev.go:
--                 NormalizeKEV, fetchAndSend), Client (the requests of both), Poller (poller.go: Run's start and poll)
--   Pipeline      cmd/arbiter/main.go: the loop over the events of the queue
--   Dashboard     Client, Settings, Stack and Alert: getClientIP and the handlers for settings, the
--                 tech stack and alerts of internal/api/server.go over internal/store/settings.go
--                 and techstack.go; Routes (registerRoutes), Search (handleAlerts,
--                 parseRiskScore), Overview (handleStatus, handleTechStack, handleAdminImport,
--                 handleAdminPull; handleSession of auth.go)
--   Startup       cmd/arbiter/main.go: what comes before that loop, from LoadAll to
--                 seedSettingsFromEnv
--   Samples       concrete values on which the theorems are instantiated
--
-- An event of Source comes to Pipeline.handle_event, which tags it, asks Filter.allow, and runs the
-- matchers of Matching.Engine.run; the matches are the input of Risk.Score.score. The alert carries
-- its severity and confidence, is saved in the tables of Alerts, goes to the channels that
-- Notify.route finds, and the event's indicators go to the queue of Notify.Crowdstrike.
--
-- State is passed explicitly: a method on a locked value is a function from its state to the next.
-- A Go map is an association list, or the list of its keys where it only holds `true`. A table of
-- the database is a list of its rows. The clock, hash functions, random texts and what a notifier
-- does are arguments.
--
-- Numbers: a CVSS score is counted in tenths, a time in nanoseconds, the risk score is the fraction
-- of two numbers and is compared with thresholds in hundredths, so no rounding is modelled. The product
-- of the configured maxima of a score wraps around as an `int` of 64 bits; the sums of factors stay
-- below 20 and are unbounded integers. Lower case is that of ASCII letters, and the masks of
-- settings count characters where the code cuts bytes. The numbers of rows are left out. The numbers of versions keep the
-- bounds of strconv.Atoi. The fuel of the decimal printing in Common.Text is one
-- more than the number itself, which has fewer digits. That of Notify.Crowdstrike.Token.Waiting is
-- the number of times that getToken looks at the shared token; one more than the looks until the
-- request under way has ended is enough. A poll takes at most five pages, as in
-- the source.
--
-- Not modelled: the start of the server and its page, the timers and the shutdown of the goroutines,
-- the HTTP and SMTP clients (what a request gives is an argument or an action), the SQL engine, the
-- libraries for JSON, CSV, base64 and Argon2id (their functions are arguments), the logging, and what
-- Go's net package accepts beyond the forms of addresses that Ip parses.
pub mod Common
pub mod Model
pub mod Samples
pub mod Source
pub mod Filter
pub mod Matching
pub mod Risk
pub mod Inventory
pub mod Config
pub mod Access
pub mod Database
pub mod Notify
pub mod Alerts
pub mod Pipeline
pub mod Dashboard
pub mod Startup
