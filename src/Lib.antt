-- ===== src/Lib.antt =====
-- NSYSU Student Studio: the write path of the course selection, the state behind the login, and the
-- reads of the school's pages that decide what may be written.
--
-- The program is a web service between students and the school's old course-selection pages. A batch
-- of adds and drops is previewed, confirmed with a token, queued as a job, and submitted by a worker
-- that replays the school's own form. The parts, with the files that model them:
--
--   Write/Canonical   backend/app/write/canonical.py: the canonical form of a batch, its segments, its
--                     hash and its token (`canonical_ops`, `parse_canonical_segments`, ...)
--   Write/Timetable   backend/app/write/timetable.py: period codes, the clash test, fused day texts
--   Write/Preview     backend/app/write/preview.py: `evaluate_ops`, the verdicts on a batch
--   Write/Payload     backend/app/write/payload.py: the payload built over the scraped form
--   Write/Form        the same file: what is read off the page of the form
--   Write/Jobs        backend/app/write/jobs.py, backend/app/models/write.py and
--                     backend/app/auth/students.py: the tables, and each statement on them as a function
--                     from database to database; Write/Jobs/Steps is their step relation
--   Write/Transport   `_transport_call` of backend/app/write/engine.py
--   Write/Response    backend/app/write/response.py: the verdicts in the school's reply
--   Write/Reconcile   backend/app/write/reconcile.py: the end of a retried batch
--   Write/Engine      backend/app/write/engine.py: `execute_ticket`, which uses all of the above
--   Write/Queue       backend/app/write/queue.py and queue_loop.py: the tickets and the loop over them
--   Write/Request, Write/Lookup, Write/Resolve, Write/Api
--                     backend/app/api/write.py with write/schemas.py and write/catalog.py: the preview,
--                     from the request to the stored record of its token
--   Write/Submit      backend/app/api/write_submit.py: the confirmation, up to the queued job
--   Write/JobView     backend/app/api/write_jobs.py: the records page
--   Write/Lifecycle   backend/app/write/audit_lifecycle.py: the archive of the old audit rows
--   Selections        backend/app/selections/parse.py and store.py
--   Selcrs            backend/app/selcrs/http.py: the backoff of a request
--   Stage             backend/app/stage/detect.py: the stage, and when writing is possible
--   Stage/Probe       backend/app/api/write_probe.py and stage.py: the live probe of the stage
--   Catalog           backend/app/catalog/rows.py and persist.py, backend/app/models/courses.py: the
--                     courses of a semester, and the replacement of a semester's snapshot
--   Catalog/Schedule  backend/app/catalog/schedule.py: the ticks of the ingest, under its lock
--   Export/Ics        backend/app/export/ics.py and timeslots.py: the events of a plan's calendar
--   Semester          backend/app/semester.py: the code of the current semester
--   Solver            backend/app/solver/loop.py: the captcha loop
--   Auth/Redis        backend/tests/fake_redis.py: the store behind the AuthRedis protocol
--   Auth/Breaker, Auth/Lockout, Auth/Sessions
--                     backend/app/auth/breaker.py, lockout.py and sessions.py
--   Auth/Tokens       backend/app/write/confirm.py and csrf.py, and the lock of
--                     backend/app/catalog/schedule.py
--   Common            texts as lists of code points, lists, results, sorting, decimal numbers
--   Examples          the theorems at concrete inputs
--
-- The modules under these hold what is shown of their parent's definitions, and are named for it; only
-- Write/Response/Fragments, Write/Jobs/Reads, Selections/Store, Stage/Probe, Catalog/Persist,
-- Catalog/Schedule and Export/Ics hold more of the model.
--
-- State is passed explicitly: the tables are a record of lists, the Redis store a record of
-- functions from names, and an operation gives the state behind it. An exception is a value of
-- `Result`, or `none` where there is one kind of it; an exception that the engine does not catch
-- carries what it leaves, which the queue loop goes on with. In the engine the school's answers are
-- functions of the number of the attempt, and `meanwhile` is what other transactions do to the
-- database before each of the engine's own; nothing is assumed of them, but where the queue loop's
-- statements are followed, that they are made of statements too. The `for` loops are recursions on
-- the rounds that are left: three attempts for a call, the rows of the form, the seven weekdays, the
-- attempts of the solver.
-- The scans of a page take as many rounds as it has characters, and each round drops at least one.
-- Times are whole seconds.
--
-- Parameters, since their code is not in the repository: the HTML, URL and JSON libraries, the cron and
-- date parsers, SHA-256, SHA-1 and HMAC, the Unicode tables (`\w`, NFKC), the OCR, and the school.
-- `str.isdigit` and the `\d` of the patterns are the ASCII digits here. The Redis server is
-- modelled by the store that the program's own tests put in its place. Not modelled: the other HTTP
-- handlers, the scraping of the catalog, the writing of calendar files, the enrolment relays, the
-- scripts and the front end.
pub mod Common
pub mod Write
pub mod Selections
pub mod Selcrs
pub mod Stage
pub mod Solver
pub mod Auth
pub mod Catalog
pub mod Semester
pub mod Export
pub mod Examples
