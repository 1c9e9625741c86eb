-- ===== src/Lib.antt =====
-- Radio Chatter: a program that records radio streams with ffmpeg, cuts the recording into chunks of
-- a minute and into the pieces of sound between silences, stores them, and tells its clients.
--
-- The program's parts and how they interact. `Preprocess` (pkg/preprocess.go) runs ffmpeg and reads
-- its stderr; for what it understands it makes callbacks. The archiver (pkg/archive.go) takes those
-- callbacks and sends one archive operation for each chunk file, with the pieces of sound in it.
-- When an operation is executed, it stores the chunk in a blob storage under the hash of its content
-- (pkg/blob/storage.go, on disk in pkg/on_disk_storage/storage.go), saves a row (pkg/models.go), and
-- deletes the file. `StartProcessing` (pkg/process.go) starts both for a stream. A loop looks for
-- transmissions without a transcription and asks a speech-to-text service for their texts
-- (pkg/transcribe.go). Clients read the rows page by page, subscribe to new ones, and register
-- streams (pkg/graphql), through handlers (pkg/handlers) with a chain of middleware
-- (pkg/middleware). The commands (cmd/radio-chatter) set the parts up from a configuration. A
-- broadcast channel hands messages to any number of listeners; only tests use it yet
-- (pkg/broadcast.go).
--
--   Common     shared names, lists, texts, Go's errors, and the integers over the native numbers
--   Duration   `time.Duration`, an int64 whose operations wrap
--   Regex      the part of Go's `regexp` that the patterns use, matched by backtracking
--   Ffmpeg     pkg/preprocess.go: `parse_stderr` is `parseStderr`, `process` is `state.process`,
--              `scan` is `bufio.Scanner` over lines. A callback is a value in the list returned.
--              Lines reads one line, Protocol is the order of the callbacks.
--   Archiver   pkg/archive.go: the record `Archiver` is `archiver`, and `on_start_writing`,
--              `on_silence_start`, `on_silence_end`, `on_finished`, `complete_file` its methods. A
--              method returns the new state and what it sent. `step` is one callback and `run` all of
--              them. Clock is an independent account of the stream in whole numbers.
--   Blob       pkg/blob/storage.go: `key_string` is `Key.String`, `parse_key` is `ParseKey` with
--              `hex.Decode` of Blob/Hex. The record `Storage` is the interface, and `IsStorage` what
--              it promises, which the clients rely on and OnDisk/Fills provides.
--   Files      the calls of `os` on files, with their failures
--   OnDisk     pkg/on_disk_storage: `store` and `link` are `Store` and `Link`. Server has the goroutines
--              of `New` and what `Close` meets, as a step relation, and Serving `server`.
--   Models     pkg/models.go: the rows, and `db.Save` of gorm as a parameter
--   Clip       pkg/archive.go: the times in `splitAudio`
--   Commands   how commands end, and `commandWasCancelled` of pkg/transcribe.go
--   Split      pkg/archive.go: Group has `splitChunk`: its goroutines are jobs in a phase each, a schedule
--              says which makes the next step, and the steps are those of `splitAudio`. Sound, Ends
--              and Interleaved are about what the phases of a job mean, its end, and all of them.
--   Execute    pkg/archive.go: `execute` is `ArchiveOperation.Execute`
--   Preprocess pkg/preprocess.go: `preprocess` is `Preprocess`, with what ffmpeg does as a parameter
--   Processing pkg/process.go: the loop of `archive`. Jobs has the two jobs and `start_processing`;
--              Reported and Pipeline follow a chunk file from the line of ffmpeg into the storage.
--   Transcribe pkg/transcribe.go: `transcribe_once`, and `backlog` for the inner loop of
--              `Transcribe`, which is `transcribe_loop` of Transcribe/Loop
--   Whisper    pkg/transcribe.go: `download` is `downloadUrl`, `transcribe` and `speech_to_text` the methods
--              of `WhisperTranscriber`
--   Broadcast  pkg/broadcast.go: `subscribe`, `unregister`, `clear`, and `broadcast_message` for the
--              loop of the goroutine. Each is one step, as it runs under the mutex; `act` is one step
--              of any of the goroutines. A panic is `none`.
--   Base64     the encoding of the identifiers
--   Ids        pkg/graphql/helpers.go: `modelId` and `decodeModelId`, with `%d` and `strconv.Atoi`
--   Paging     pkg/graphql/pagination.go: `page` is `Page`, and `walk` a client that follows cursors.
--              Newest has a database that answers in the other order.
--   Polling    pkg/graphql/helpers.go: `poll_round` is `poll` and a round of the loop of `begin`
--   Lookup     pkg/graphql/helpers.go: `getByID`, `getParentObject` and `signedURL`
--   Graphql    pkg/graphql: Nodes has the types of pkg/graphql/model, and the conversions of helpers.go,
--              Gorm the database as a parameter, Resolvers and Subscriptions the resolvers of
--              schema.resolvers.go and the loop of `begin`. `follow` is a client that follows cursors.
--   Middleware pkg/middleware: `apply` is `Apply`, and `spyResponseWriter` of logging.go. Contexts has
--              `RequestID`, `Logging` and `Recover`, with handlers that may panic, and Served what the
--              first two do together.
--   Handlers   pkg/handlers: `healthz`, `routes` and `router`
--   CommandLine
--              cmd/radio-chatter: `config_format`, `setup_storage`, `setup_database`, the logger of gorm,
--              `OpenDatabase` of pkg/models.go; Streams has the commands on streams, and
--              Download the one that processes them, and Serve the server, as a step relation
--   Tests      runs of the definitions, and the theorems applied to concrete cases.
--
-- Bounds. An int64 is an integer whose operations wrap; the theorems about times assume that the
-- recording is shorter than 2^62 ns, about 146 years, so that nothing wraps. Fuel is taken by
-- `backlog`, for which one more than the number of transmissions that wait or come while it runs is
-- enough, by `walk`, for which one more than the number of rows is, and by the digits of a uint, of
-- which there are at most 20. Everything else is by structural recursion.
--
-- Parameters. The floating point numbers of `parseSeconds` are the record `Floats`, of which
-- nothing is assumed. SHA-256 is a function into keys of 32 bytes. Of gorm it is assumed that
-- `Save` of a row fills in the primary key and the times and nothing else (`FillsIn`), and that the
-- query for transmissions without a transcription counts as SQL says (`Counts`); that a page has as
-- many of the rows behind its cursor as its limit says, or all of them if they are fewer, each at
-- most once and in any order, since the query names none (`Serves`); that a poll is answered with
-- the rows that were created since the time it names, again in any order (`Answers`), and that a
-- row that is added later was not created earlier (`InTurn`); that a stream that was saved is found
-- and one that was deleted is not, and that `Delete` leaves its struct alone (`KeepsStreams`). The
-- router, the recovery, the compression and CORS are the record `Gorilla`: it is assumed that the
-- recovery answers a panic with the code 500 and tells its logger, that the compression hands a
-- request on (`IsGorilla`), and that CORS does so with the request at hand (`IsHandedOn`). What the
-- network makes the server of the storage fail with is the record `Failures`. The speech-to-text
-- service may answer anything.
--
-- Not modelled: most log lines; how the two jobs of a stream interleave, of which the second runs
-- after the first here; what the queries of gorm return beyond the assumptions; the flags of the
-- commands, and the commands that only start the parts; generated code.
pub mod Common
pub mod Duration
pub mod Regex
pub mod Ffmpeg
pub mod Archiver
pub mod Blob
pub mod Files
pub mod OnDisk
pub mod Models
pub mod Clip
pub mod Commands
pub mod Split
pub mod Execute
pub mod Transcribe
pub mod Base64
pub mod Ids
pub mod Paging
pub mod Middleware
pub mod Polling
pub mod Lookup
pub mod Whisper
pub mod Processing
pub mod Preprocess
pub mod Graphql
pub mod Handlers
pub mod CommandLine
pub mod Broadcast
mod Tests
