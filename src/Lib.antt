-- ===== src/Lib.antt =====
-- The office attendance backend (FastAPI, SQLAlchemy, PostgreSQL; the Python package app/).
--
-- Employees check in from their office's network or by a GPS position, a heartbeat keeps their day
-- alive, a scheduler closes and flags days, and admins decide on accounts and days. Everything goes
-- through one PostgreSQL database, in transactions.
--
-- Which file models which part:
-- Time.antt: app/timeutil.py. Instants are microseconds since year 1 (UTC), wall times the same count on
--   the clock of a zone; zoneinfo is the record Zones of two functions on names.
-- Model.antt: app/models.py. Enums has the CHECKed words, Rows a record for each table and the database
--   Db, Tables the statements on one table, Laws what the statements do to a lookup.
-- Session.antt: app/database.py. An Action is a function on the durable and the current state of a
--   transaction with a Result; request is a handler from a new session to the durable state.
-- World.antt: app/config.py (Settings), and the libraries as records of functions: Floats (IEEE
--   doubles and math), Addresses (ipaddress), Secrets (bcrypt, jose and hashlib as
--   app/security.py calls them). Clock has the readings of the clock that one request makes.
-- Presence.antt: app/presence.py and app/geo.py (evaluate_shift, find_office_by_ip, nearest_office,
--   _classify, ensure_off_day, apply_presence_event). Shift, Nearest, Writer and Taps have the
--   lemmas on the phases, the nearest office, one upsert and sequences of upserts.
-- Ip.antt: app/ip_utils.py (normalize_ip, get_client_ip, is_non_public_ip); Ip/Text: str.split and strip;
--   Ip/Proxy: forged headers.
-- Attendance.antt: app/routers/attendance.py. Guard is _guard_shift, Checkin the two check-in
--   endpoints, Heartbeat the heartbeat. Safety and Success are about who is checked in; Beating,
--   Verdicts and Evidence about what a heartbeat changes.
-- Nightly.antt: app/nightly_service.py. Rows, Body, Settled, Loop, Rounds, Totals and Again follow a
--   round of the loop, then the loop, then a second run.
-- Scheduler.antt: app/scheduler.py (run_locked and the jobs) and app/app_state.py; Process is the process
--   of app/scheduler_main.py over APScheduler. Frontend.antt: the files that app/main.py serves, over a
--   file system.
-- Deps.antt: app/deps.py and app/audit.py. Devices: app/device_service.py, with Cap on its cap. Auth: app/routers/auth.py.
-- Admin.antt: app/routers/admin.py (Employees, Days, Views), and app/bootstrap.py;
--   Review is about the review of a GPS check-in.
-- Rosters.antt: app/routers/rosters.py; Defaults and Calls are about its invariant.
-- Offices.antt: app/routers/offices.py. Addresses, Writes and Calls are about its invariant, Network
--   about the check-ins that it lets through. Patch: the optional fields of a PATCH in app/schemas.py.
-- Security.antt: the tokens of app/security.py; Auth/Tokens follows them from a login to a request.
--   Numerals: Python's str and int of whole numbers.
-- Reports.antt: app/routers/reports.py, with Calendar for Python's dates. Counts, Totals, Reader and Csv are
--   about the report, its sums and its export.
-- Seed.antt: seed.py. Sole, Steps, Employees, RosterLoop, EmployeeLoop and Again lead to a second run.
-- Debug.antt: app/routers/debug.py and the middleware of app/main.py; Clock is about the clock that is set.
-- Schemas.antt: the response bodies of app/schemas.py. Api.antt: app/main.py, one function from a call and its
--   route to a transaction. Routes are the routes by who may call them, Bodies the validators of
--   app/schemas.py; Undone, Reads and Errors are about failures, also of rendering a float that JSON does not
--   have; Permits about who may call.
-- Days.antt: app/models.py attendance_days across all that writes to it. Tables, Writes, Keeps, Checkins,
--   Beats, Jobs, Requests, Decisions, Answers and Calls follow its invariant from a statement to any
--   sequence of calls and jobs; Idle and Sweep are about the idle check-out.
-- Accounts.antt: the invariant of accounts, across Auth and Admin.
-- Links.antt: the references from users to rosters and from rosters to offices, across accounts,
--   rosters and offices, and the nightly job after any such requests.
-- Migrations.antt: alembic/versions/, the statements of a revision on the catalogue of the database; Initial,
--   Requests, Sources, Additive and Destructive are the five revisions, Chain runs them in order.
-- Base.antt: shared tests, list operations and their lemmas. Tests: a concrete world and the theorems
--   at concrete inputs.
--
-- Every loop of the program runs over a result set, so the model recurses on lists and needs no
-- fuel. Statements of one transaction run one after another. Concurrent requests meet in the row lock
-- of the upsert and in the advisory lock: the first is a list of upserts in some order, the second
-- the list of the keys that others hold. A float is a value that only the functions of Floats
-- read, NaN and the infinities among them. Ids come from a sequence that moves on a conflict too. A free-text message of a response
-- is left out, the fields of its JSON are kept; the free JSON of an audit row is reduced to its
-- subject. PresenceEvent.confidence is left out, since nothing reads it.
--
-- The response of a write is reduced to what it says beside the row that was written; reading the row
-- back after the commit does not fail, as the user of a day is there by its foreign key.
--
-- An unknown zone is an exception of the check-ins, the heartbeat, the history and the nightly job, where
-- the office is looked up; in the idle check-out, where a later lookup would raise it, it is left out.
-- So are the ValueError of math.asin where rounding takes its argument above 1 (between antipodes), a
-- body that is not JSON, and a stored override that isoformat did not write.
--
-- Not modelled: the CORS middleware, the mount of /assets and the signal handlers of app/main.py and
-- app/scheduler_main.py (Starlette's and asyncio's), the database URL, app/attendance_service.py (it
-- cannot be imported) and what the migrations do to rows.
pub mod Base
pub mod Numerals
pub mod Time
pub mod Calendar
pub mod Model
pub mod Session
pub mod World
pub mod Security
pub mod Schemas
pub mod Presence
pub mod Ip
pub mod Patch
pub mod Attendance
pub mod Nightly
pub mod Scheduler
pub mod Deps
pub mod Devices
pub mod Auth
pub mod Admin
pub mod Accounts
pub mod Rosters
pub mod Offices
pub mod Links
pub mod Reports
pub mod Seed
pub mod Debug
pub mod Api
pub mod Frontend
pub mod Days
pub mod Migrations
pub mod Tests
