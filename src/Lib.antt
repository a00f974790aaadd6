-- ===== src/Lib.antt =====
-- Haim Yahad: a bot on WhatsApp that carries furniture from donors to receivers around Beit Shean.
--
-- A customer's message becomes a plan of commands; a command reads and writes the request that it
-- is about, inside a transaction of the database, and answers with a reply and with notices to
-- other people. When both parties of a request have given their details and approved their part,
-- a date of transport is proposed; when both have approved that date, the request is coordinated
-- on the run of that date, which has a limited number of places.
--
-- The parts, and the files that model them:
--   src/domain/types.ts               Domain, and Prelude/Results for the failures
--   src/domain/policies.ts            Policies: Phone (canonicalPhone), Intents (norm and the
--                                     intents), Places (the settlements), Items (itemError),
--                                     Parties (ownParty, mutable, photoGate), Questions and Wording
--                                     (nextQuestion), Readiness (readyToProposeSchedule and
--                                     readyToCoordinate), Calendar (nextTuesday), Status (statusText)
--   src/infrastructure/store.ts       Store: Tables (the database and its transactions), Requests
--                                     (request, save, create), Outbox (outbound), Transport
--                                     (prepareTransportRun, proposeScheduleDate, coordinate),
--                                     Approval (resolveCapacityApproval), Matches (candidates,
--                                     linkPhoto, matchPhoto), Regions (region)
--   src/application/commands.ts       Commands: Base (the helpers), Opening (donate and
--                                     receive_from_donor), Searching (seek, interest), Linking (the
--                                     commands on the second party), Cancelling (cancel, escalate),
--                                     Details, Facts, Approving, Advancing (next, and the end of
--                                     apply); Commands itself is the dispatch of apply
--   src/application/security.ts       Security (redactSecrets)
--   src/domain/ai-guards.ts           Guards (applyClaimGuard, probeReply)
--   src/application/engine.ts         Engine: Ordering (which commands of a plan run, and in what
--                                     order), Scheduling (the end of a turn, where a date is
--                                     proposed and the request is coordinated), Sending (send).
--                                     Inbox: Identity (ingestNext), Turns (the two transactions of
--                                     processNext), Endings (capture, the denial in process, the
--                                     frame of finish and the one of finishFault, finishUnclear,
--                                     finishPhotoHold, finishOutside and finishPressure, the
--                                     releases); Inbox itself is the tables and ingest of
--                                     src/infrastructure/store.ts
--   src/application/runtime.ts        Integrations (deliverIntegration, recoverIntegrationQueue),
--                                     Operations (the sweep over the waiting requests)
--   src/infrastructure/media.ts       Media (detectMedia, put, get), Media/Download (allowedMediaUrl,
--                                     downloadMedia)
-- Regex is the part of JavaScript's regular expressions that the program's patterns use, Prelude
-- what the modules share, and Examples the theorems at concrete requests. Below a module that
-- models code stand the modules of its theorems, each named for what it shows.
--
-- How the code is read. A date is the number of its day, counted from 1970-01-01, and an instant a
-- number of milliseconds; the day and the hour in Jerusalem are given with the instant, since the
-- data of time zones are the platform's. An identifier is a number, and a new one is the next that
-- nothing bears. The database is a record of lists of rows, a transaction is a function of it that
-- returns a result and the new database or a failure, and what it wrote before a failure is gone. A
-- write through a reference that the code holds to a party of a request is an update of the first
-- party that passes the test of the search. Unicode's normalisation and the order of texts are
-- arguments (nfkc, before), and so are SHA-256, the parser of addresses and fetch where media is
-- stored or downloaded. The storage of media is a directory whose calls may fail, each as an
-- argument says; a close that fails counts as a sync that fails. The queue takes every job that is
-- sent. Texts are lists of code points; the Hebrew of the program is written in escapes.
--
-- Bounds and fuel. The matcher of Regex gives an iteration of a star the length of the text as
-- fuel, which is enough because an iteration that consumes nothing is cut off by it and no other
-- iteration leaves the text as long as it was; the searches for all matches have the same fuel, and
-- the patterns that they are used with match no empty text. Numbers are unbounded: the capacity of
-- a run is at most 100 and the quantities of items are small.
--
-- The loop that orders the commands of a plan has their number as fuel, which is enough since a
-- step leaves one command fewer.
--
-- Not modelled: the rest of src/application/engine.ts, which waits for a customer to be quiet, has
-- a turn planned and applies the commands (what finish, finishFault, finishUnclear,
-- finishPhotoHold, finishOutside and finishPressure do between their guards and their last writes
-- is an argument of Inbox/Endings); src/application/rule-planner.ts and
-- src/infrastructure/ai.ts, which make the plans; src/domain/customer-language.ts; of
-- src/application/runtime.ts the start and stop of the workers and what it reports; and the input
-- and output around them (src/http.ts, src/config.ts, src/server.ts, src/db, the rest of
-- src/application, src/infrastructure/waha.ts, src/infrastructure/webhook.ts,
-- src/infrastructure/queue.ts). Of the store, the reading of a context, the access list and the
-- clean-up of a phone are left out. Columns that only report (error codes of a failure, delivery
-- states, instants of a delivery) are left out too.
pub mod Prelude
pub mod Regex
pub mod Domain
pub mod Policies
pub mod Store
pub mod Commands
pub mod Guards
pub mod Security
pub mod Engine
pub mod Inbox
pub mod Integrations
pub mod Media
pub mod Operations
pub mod Examples
