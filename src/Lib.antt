-- ===== src/Lib.antt =====
-- iplsgo is a web gateway to Oracle: it gives each user's session a worker with a database
-- connection, calls PL/SQL procedures with the parameters of HTTP requests, and answers with what
-- they produce. This library models its core and proves what the list below says.
--
-- A request comes to the handler of server.go (newOwa), which finds who sends it and the connection
-- of that user (users.go), computes the session and the task (commonUtils.go) and the CGI
-- environment (cgienvparams.go), and calls `Run` of otasker/worker.go. `Run` hands the work to the
-- session's worker over channels; the worker's tasker (otasker/oratasker.go) connects, prepares the
-- parameters and executes; otasker/describe.go keeps the types of the arguments of each procedure.
-- otasker/oraparsemultipart.go reads forms with files. The handler turns the result into an answer.
-- auth.go wraps handlers with authentication. The configuration, which reader.go reads and parseConfig
-- of server.go applies, gives the users and the routes.
--
-- Files and code:
--   Prelude: numbers, texts as lists of bytes, Go's integers. Gostd: the functions of Go's standard
--     library that the code uses, and maps as association lists.
--   Task: the request and the result that components share (worker.go, oratasker.go).
--   Text: addCR, removeCR, trimRightCRLF, ExtractFileName and quoting (oratasker.go).
--   Http: header maps, requests and responses of net/http.
--   Users: getUserInfo, getConnectionParams, updateUsers. Auth: Authenticator, initiateNTLM.
--   Crutches: encodeFilename (otasker/crutches.go); Crutches/Headers: parseHeaders, fixContentType;
--     Crutches/Meta: fixMeta.
--   Multipart: ReadFormEx, RemoveAll, Open, readFileItems (otasker/oraparsemultipart.go);
--     Multipart/Requests: ParseMultipartFormEx, makeFileItems.
--   Describe: the cache of descriptions, Describe, ProcedureInfo, ArgumentInfo (otasker/describe.go).
--   Config: parseConfig, resetConfig. Reader: readConfig and the ticks of startReading (reader.go).
--   Tasker: the fields and the log of a tasker; Tasker/Connection: connect, disconnect,
--     evalSessionID, CloseAndFree, Break, killSession; Tasker/Errors: packError, UnMask;
--     Tasker/Chunks: getRestChunks and its use in `run`.
--   Params: prepareParam and prepareStringParam (Params/Scalar, Params/Tab, Params/Prepare) and the
--     loop over the parameters of a request in `run`.
--   Run: the monad of a method with its deferred calls; Run/Variables: the Oracle variables;
--     Run/Upload: saveFile, saveFileToDB; Run/Reply: what `run` makes of the answer; Run/Body: `run`;
--     Run/Request: Run and dumpError.
--   Worker: the state of all workers and goroutines; Worker/Steps: `Run` and `Break` as steps.
--   Handler: makeHandlerID, makeTaskID, makeWaitForm; Handler/Env: makeEnvParams; Handler/Owa and
--     Handler/Reply: newOwa before and after `Run`.
-- The other files hold proofs; each Tests file has the concrete inputs.
--
-- Concurrency: a state of Worker holds each goroutine's position between two operations on a lock or
-- a channel, a step is one operation, and an interleaving is a list of events, of any length, any
-- number of goroutines and any timer. Loops are structural recursion, on lists of bytes, parameters
-- or events. Fuel is needed in `decimal`, where a number bounds the count of its digits, and in the
-- loop of getRestChunks, which the database ends: one more than the number of chunks is enough.
--
-- The fuel of a tasker's Run is that of the loop of getRestChunks. Out of fuel the loop is still
-- running (`runs_on` of Tasker/Chunks, `Exit.running` of Run), which is no panic: nothing deferred is
-- done. A database whose chunks end within the fuel is part of IsRegular (Run/Regular).
--
-- Panics are values. A step that is closed but not open, a nil connection, a NULL session id
-- (`noted_sid`), a row of a description with a column of another type (`typed_rows`), a NULL in a
-- reply and a route that the router does not take (`register` of Config) give `none` or `panicked`.
--
-- Parameters: the Oracle driver with the statements that it executes, NTLM, JSON decoding, UUIDs, the
-- clock, Unicode's case mappings and white space, time.Parse, media types, the reader of
-- mime/multipart, temporary files, the routes that httprouter takes, and the order in which Go walks a map, which is that of the
-- association list. What a theorem needs of them is a named hypothesis: `opens`, that the driver
-- gives a connection when it reports no error; `live`, that a held connection is alive; `Texts`, that
-- the session id is never NULL; IsRegular, that replies and descriptions have the values that are
-- read; `takes`, that the router takes the routes of a configuration.
--
-- Not modelled: stat.go (info and Collect, which read a tasker's log and sort by a field that is found
-- by reflection), timer.go (a pool that nothing uses), initReading, SOAP, templates and logs, the
-- program's start, and the texts of the PL/SQL blocks, which are data of a tasker. A tasker's Run is
-- not split into steps: the mutex cafMutex keeps it apart from CloseAndFree, and Break and Info only
-- read the tasker. What a panic of `run` has written to the log in the part that panicked is not kept.
mod Prelude
pub mod Gostd
pub mod Task
pub mod Text
pub mod Http
pub mod Users
pub mod Auth
pub mod Crutches
pub mod Config
pub mod Tasker
pub mod Describe
pub mod Multipart
pub mod Params
pub mod Reader
pub mod Run
pub mod Handler
pub mod Worker
