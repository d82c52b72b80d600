-- ===== src/Lib.antt =====
-- The speech-to-text pipeline of this repository: a request names an audio file; the orchestrator
-- cuts it into chunks; workers have each chunk transcribed by CLOVA; the last of them merges the
-- transcript; a correction worker corrects it. The parts share one PostgreSQL database and talk
-- through Redis streams, into which a publisher copies the rows of an outbox table. Here these
-- parts are functions on the rows of the database.
--
-- Files and code:
-- - Base and its children: texts as lists of code points, lists, the rows of a table.
-- - Float: Python's float as an interface with the few laws of IEEE doubles that are used; NaN is
--   outside the model. Whole microseconds are its instance in the tests.
-- - Status, Status/Graph: JobStatus and ChunkStatus of app/db/models.py and the transition tables of
--   app/services/job_state.py.
-- - Errors: app/core/exceptions.py and the exceptions that the services raise themselves.
-- - Events: app/queue/constants.py and the payloads of app/queue/events.py; Codec: its envelope.
-- - Validator: app/correction/validators.py.
-- - Db, Db/Session: the tables of app/db/models.py as lists of rows, a transaction as a function that
--   may raise and then changes nothing, and app/queue/inbox.py. Primary and unique keys are checked:
--   a second row raises integrity_error. The rows of the correction logs have no id of their own.
-- - Orchestrator, Orchestrator/Process: app/services/orchestrator.py and the limits of
--   app/stt/audio_converter.py.
-- - Vad, Vad/Pack: app/stt/vad.py; Vad/Frames, Vad/Packs and Vad/Chunks have the theorems on it.
-- - Clova, Clova/Record, Clova/Failure, Clova/Process: app/services/clova_worker.py, with one function
--   per method and a helper for each branch; Clova/Effects and Clova/Outcome say what its transactions
--   leave in the database.
-- - Merger: app/stt/merger.py; Merger/Order and Merger/Times have the theorems on it.
-- - CorrectionWorker, CorrectionWorker/Failure, CorrectionWorker/Process:
--   app/services/correction_worker.py and the handling of one message in app/workers/correction.py;
--   CorrectionWorker/Poison is about failed jobs.
-- - Outbox: app/queue/outbox.py and app/queue/consumer.py, with theorems in Outbox/Batch, Outbox/Later
--   and Outbox/Once; a commit that fails after the messages are sent is one of the publisher's outcomes.
-- - Semaphore: app/queue/semaphore.py over an interface of the Redis commands on one sorted set.
-- - Pipeline and its children: all transactions together as the steps of one store, an invariant that
--   each keeps (a child per transaction), what follows from it (Step), and what single transactions
--   and messages do (Lease, Process, Results, Failed, Saved, Request).
-- - Provider: app/stt/providers/clova.py, from the outcome of the request; Provider/Answers has the
--   theorems on it.
-- - Workers: one message of app/workers/clova.py and of app/workers/orchestrator.py; Workers/Handled has
--   the theorem on the leases.
-- - Api: app/api/v1/internal_transcriptions.py; Api/Views relates it to the pipeline. Each query of the
--   status reads the store of its own moment; the queries of the result read one store.
-- - Storage: app/storage/local.py over an interface of the file system, without symbolic links.
-- - Correction: app/correction/terms/term_dictionary.py. Correction/Patterns and Correction/Rules:
--   app/correction/rule_based_corrector.py, with theorems in Rules/Select and Rules/Rewrite.
--   Correction/Glossary, with Glossary/Distinct: glossary.py. Correction/Prompt: prompts.py and
--   llm_client.py. Correction/Lines, Correction/Audit and Correction/Service: service.py, with theorems
--   in Service/Kept, Service/Places, Service/Logs and Service/Reviews. Correction/Ids and
--   Correction/Ingestion: terms/term_ingestion.py, with theorems in Ingestion/Calls, Ingestion/Unique,
--   Ingestion/Again and Ingestion/Total.
-- - Tests: a run of one chunk, and each theorem applied to concrete data.
--
-- Choices: The text of the database's own errors is a placeholder. A row lock is held to the end
-- of a transaction, so each transaction is one step, and the functions that span several of them
-- take `others`, what other workers commit in between. Times of the clock are whole microseconds
-- and are arguments, as are the ids from uuid4, the answers of storage, provider, language model,
-- ffmpeg, webrtcvad and Redis; the correction worker takes the correction as an argument. Which
-- characters are letters, digits or spaces to Python, and how it reads the values of a JSON text,
-- are interfaces with the laws that are used. A step that records the outcome of a chunk is for an
-- event that stands in the outbox. A text of an exception that the code words differently from
-- place to place, without reading it again, has one form. Loops are recursions on their lists.
-- read_frames runs on fuel, one more than the number of bytes, which falls with every read of a
-- frame; str_int on fuel above the number of digits.
--
-- Not modelled: the HTTP routes, the storage on S3, configuration, logging, migrations and
-- scripts, which move data in and out; the command line of the term ingestion, a file of terms in
-- which a row lacks one of the three required keys or holds null in a field or a value of another
-- type, what an interrupted write leaves of that file, and the endless loops of the workers around
-- the handling of a message.
pub mod Base
pub mod Float
pub mod Status
pub mod Errors
pub mod Events
pub mod Db
pub mod Merger
pub mod Vad
pub mod Orchestrator
pub mod Clova
pub mod Pipeline
pub mod CorrectionWorker
pub mod Semaphore
pub mod Outbox
pub mod Validator
pub mod Provider
pub mod Api
pub mod Storage
pub mod Workers
pub mod Correction
pub mod Codec
pub mod Tests
