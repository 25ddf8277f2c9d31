-- ===== src/Lib.antt =====
-- ocr-serving: a model of the OCR service of this repository and its correctness.
--
-- The service takes documents over HTTP and reads them with one vision-language model. The gateway
-- (src/ocr_serving/gateway) checks the caller's key, its rate and its quota, stores the upload, writes
-- the state of a job and enqueues it on a Redis stream. A worker (src/ocr_serving/workers) takes the
-- job from the consumer group, splits the document into pages and regions, has each read by the
-- engine, joins the texts, writes the artifacts, and acknowledges the entry. While it runs, it
-- publishes events to a stream of the job, which clients follow over SSE or a WebSocket.
--
-- Files and what they model, by paths from the root of the repository:
--   Schemas      src/ocr_serving/common/schemas.py: enums with their values, and records
--   Filetype     src/ocr_serving/common/filetype.py: sniff, matches_extension, describe
--   Storage      src/ocr_serving/common/storage.py: LocalBlobStore on a dict of files
--   Retention    src/ocr_serving/common/retention.py: sweep
--   RateLimit    src/ocr_serving/common/ratelimit.py: the Lua script, RateLimiter, PageQuota
--   Config       src/ocr_serving/common/config.py: the settings with their defaults, api_key_map, the
--                keys; Config.Values: cors_origin_list, the log level's validator
--   Events       src/ocr_serving/common/events.py: publish, read_events, set_status, parse_state, …
--   Queue        src/ocr_serving/common/queue.py: JobQueue; Queue.Backend: the interface of the stream
--   Database     src/ocr_serving/common/db.py: the tables, the SQL statements and Database
--   Wire         what the clients rely on of the lines of a response
--   Engine       src/ocr_serving/common/engine.py: ocr_page_stream and _consume_stream; Engine.Payload:
--                OCRClient, _payload, health
--   Mock         src/ocr_serving/serving/mock/server.py: chat_completions
--   Gateway      src/ocr_serving/gateway/auth.py and main.py: submit; Gateway.Jobs: result, cancel,
--                artifacts; Gateway.Ops: probes; Gateway.Middleware: gateway/middleware.py;
--                Gateway.Files: the artifacts as sent; Gateway.Recent: recent_jobs
--   Streaming    src/ocr_serving/gateway/main.py: _event_source, stream, websocket_stream; Streaming.Frames:
--                _sse and the text of the frames
--   Smoke        scripts/smoke.py: stream_job
--   Housekeeping src/ocr_serving/workers/cpu_worker.py: the loops of heartbeat, retention and metrics
--   Logging      src/ocr_serving/common/logging.py: SafeLogger, JsonFormatter
--   Benchmarks   benchmarks/harness.py: run_level, classify; Benchmarks.Report: benchmarks/report.py
--   Documents    src/ocr_serving/workers/documents.py: opening, page counts, DPI, clean_text;
--                Documents.Rendering: iter_pages
--   Layout       src/ocr_serving/workers/layout.py: reading order, tiles, crops; Layout.Detections: the
--                decoding of the model's output
--   Postprocess  src/ocr_serving/workers/postprocess.py, whole
--   Preprocess   src/ocr_serving/workers/preprocess.py: prepare, deskew, downscale_to_budget
--   Relay        src/ocr_serving/workers/cpu_worker.py: TokenRelay
--   Pages        src/ocr_serving/workers/cpu_worker.py: _prepare_page, the regions and the results of
--                _process_page; Pages.Pool: _process_pages, the tasks of the pages as a step relation
--   Feed         src/ocr_serving/workers/cpu_worker.py: aiter_pages, the bounded queue of pages
--   Slots        src/ocr_serving/workers/cpu_worker.py: run, _reclaim_loop and request_stop
--   Worker       src/ocr_serving/workers/cpu_worker.py: _fail, _write_artifacts; Worker.Process: _process,
--                _run_job
-- Base holds what they share: Boolean tests on numbers, lists, texts as lists of code points, dicts
-- as association lists, stable sorting, and the stripping and splitting of lines. Effects is the
-- outside world. The children of a module hold its theorems; Tests applies them to concrete inputs.
--
-- Code that talks to Redis, PostgreSQL, the clock, the file system, pymupdf or uuid is a sequence
-- of requests. A request is a `Call`; an environment answers it from a state of its own, or raises,
-- and nothing is assumed of it. `World` keeps the log of the calls, the latest first, so that a
-- theorem says what was sent and in which order. An exception is a value of `Error`, `try` is
-- `catch`, and an action is a function of the world, `Exec`. Pure code is translated to functions,
-- files to a dict.
--
-- Numbers are natural numbers. Coordinates of regions are whole pixels, midpoints are kept doubled
-- (`cut2`), tokens of the bucket are thousandths, its rate is a whole number of tokens a second,
-- and times are milliseconds or, in the blob store, seconds; a time stamp is the text that
-- `isoformat` prints for it, which an `Env` may or may not be able to read. `decimal` and `int_of`
-- are Python's `str` and `int` on digits. Loops are structural recursion where the source walks a
-- list. The recursive cut runs on the six rounds that the source allows; the loop over tiles runs
-- on fuel, the height of the region and one more, which is enough because each step moves down,
-- except for the budget that is named below. `decimal` has one round for each unit of its number,
-- of which it needs the digits.
--
-- The pages of a job are tasks that share variables (Pages.Pool). Where a task stands is a `Stage`,
-- a `Move` is what one task does between two points at which others may run, and a `Step` is a move
-- of any task, the creation of the next one, its entry into the semaphore, or the call of `gather`.
-- Every order of the tasks is a run of these steps. Exceptions of the publishes, of decoding and of
-- the engine are moves, and so is a flush that raises before the future of a page is set. The
-- cancellation of a job, which is looked for while the tasks are created, and a renderer that
-- raises are left out; the texts of the regions that a page has read are any `Reading`, which
-- `run_regions` computes.
--
-- The deltas of a page go through one relay that its regions share (Relay): a call or a flush runs
-- alone up to its publish, which is then under way, and arrives or raises later, in any order.
--
-- Parameters stand for code outside the repository: the SHA-256 digest, pydantic's JSON, the JSON
-- decoder, Unicode normalisation, case and character classes, the attributes of log records, the
-- arithmetic of time stamps, XREAD in the streams, the client's connection, and OpenCV's
-- suppression of boxes. What JobQueue relies on of a Redis stream with a consumer group is an
-- interface of laws (Queue.Backend): its keys begin with neither `job:` nor `quota:`, the queue and
-- its dead letters are two streams. Its theorems hold over every environment that has them; Tests
-- has one. Worker takes `process_pages` as a parameter, an action on the world; Pages.Pool models
-- its tasks apart from the world. Not modelled: the start of the processes and the closing of their
-- connections, rendering and the pixels of images, the set-up of logging and its console format,
-- metrics, the adapters of serving frameworks, and the statistics of the benchmarks.
pub mod Base
pub mod Schemas
pub mod Filetype
pub mod Storage
pub mod Retention
pub mod RateLimit
pub mod Layout
pub mod Config
pub mod Postprocess
pub mod Preprocess
pub mod Effects
pub mod Logging
pub mod Housekeeping
pub mod Events
pub mod Database
pub mod Documents
pub mod Queue
pub mod Wire
pub mod Engine
pub mod Mock
pub mod Relay
pub mod Pages
pub mod Feed
pub mod Slots
pub mod Worker
pub mod Gateway
pub mod Streaming
pub mod Smoke
pub mod Benchmarks
mod Tests
