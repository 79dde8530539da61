-- ===== src/Lib.antt =====
-- Right Hire, a resume screening service, as a library of definitions and proofs.
--
-- A recruiter uploads a sheet of candidates for a job; each row becomes a candidate and a message on
-- a queue; a worker takes the messages, reads the resume, filters, matches, judges and scores, and
-- writes an evaluation. A watchdog requeues what a crashed worker left behind.
--
-- The parts and their files:
--   Base and its children     texts, dicts, tables as lists, integers, exact fractions
--   Schemas, Config, Store    app/schemas.py, app/config.py, app/models.py
--   Http                      what the routes of app/api share: a handler runs on the system and
--                             answers with a value or a status
--   Queue                     app/queue.py and app/api/ingest.py:_enqueue_candidates
--   Sheet                     app/pipeline/ingest.py: column detection and the parsing of sheets
--   Drive                     app/pipeline/ingest.py: Google Drive links and the download of resumes
--   Jobs                      app/api/jobs.py, with Progress and Responses
--   Candidates                app/api/ingest.py: Batch (upload, with Preview), Retry, Cancel, Resume,
--                             Remove, Edit
--   Admin                     app/api/billing.py, app/api/admin.py: Grants, Deletion, Users
--   Accounts                  app/auth.py, app/api/auth.py: Limit, Unique
--   Pipeline                  app/pipeline: Filters, Match, Score, Judge, and Skills (with
--                             app/skills)
--   Llm                       app/llm, app/pipeline/parse.py: Limiter, Retry, Local, Reading
--   Results                   app/api/results.py: Messages, Card, Pages, Overrides, Stats
--   Ui                        ui/right_hire_ui/states: Rows and Queue (the results page), with Loads,
--                             Actions, Calibrate, Selection and Counts; Create (the criteria of a job)
--   Worker                    app/workers/tasks.py: Process and Description (the tasks), Sweep and
--                             Schedule (the watchdog)
--   Linked                    all of these together: Requests, Routes, Uploads, Edits, Work, Reach
--   Lifecycle                 the statuses of candidates as a machine of their own, and each request
--                             as a step of it
--   Tests                     concrete inputs, with Models, Views, Flow and Network
--
-- The state is `System`: the tables as lists of rows, the queue as a list of messages, the stored
-- files by path, and two counters that number the attempts to enqueue and the UUIDs drawn. What comes
-- from outside is an argument: `World` has the clock, the answer to each attempt, and the UUIDs;
-- `Readers`, `Paths`, `Storage` and `Services` have what openpyxl, csv, json, pathlib, Redis, the
-- models and the providers return, an exception being `none`. A worker's run is one run of `Step`,
-- which keeps what was written before an exception, as the commits do; a commit itself does
-- not fail, but where a credit request refers to a deleted user.
-- A row that is assigned its own values is not written, and keeps its `updated_at`. A handler runs
-- with no other between its statements, and on the user that was loaded for the request.
--
-- Floats are exact fractions, so no rounding but the code's own `round` takes place. Texts are lists
-- of code points; `lower` and `strip` are right for ASCII. Error messages are a kind with the numbers
-- that they print. Loops over lists are structural, so there is no fuel.
--
-- Where the code's float products decide an index (int(n * 0.70), int(s / step)), they are an
-- argument, `Floats`. The clients in app/llm run on what the endpoint answers to each try and on the
-- readings of the clock; `try` loops have as many steps as the settings allow tries.
--
-- The handlers of the web pages run on what the API answers; in Ui/Queue/Loads/Complete that is the
-- modelled route of app/api/results.py. They run with no other between their statements, and the
-- flags that are set only while one runs are left out.
--
-- Not modelled: the payloads of the clients in app/llm, the loading of models and of the taxonomy,
-- the layout of the web pages, the upload wizard, the account panel and the submission of a job, scripts and migrations.
pub mod Base
pub mod Schemas
pub mod Config
pub mod Store
pub mod Http
pub mod Queue
pub mod Sheet
pub mod Drive
pub mod Jobs
pub mod Candidates
pub mod Admin
pub mod Accounts
pub mod Llm
pub mod Results
pub mod Ui
pub mod Pipeline
pub mod Worker
pub mod Linked
pub mod Lifecycle
pub mod Tests
