-- ===== src/Lib.antt =====
-- flight-test-lab: a synthetic device under test, and the learning application around it.
--
-- The repository has three programs in Python. `simulator/simulator.py` is the device under test
-- (DUT): a threaded TCP server that reads one JSON request per line, answers each with one line, and
-- injects the faults that its configuration asks for. `src/testlab` is the client that tests it.
-- `learning/` is a local web application that teaches with both: `learning/server/curriculum.py` loads
-- lessons, `learning/server/progress.py` keeps what the learner has done and decides what counts as
-- complete, and `learning/server/app.py` calls both for each HTTP request.
--
-- Which file models which part:
--
--   Simulator/Nesting     `exceeds_nesting_limit`: the walk over an explicit stack.
--   Simulator/Decode      `_parse_int`, `decode_request`, and the raise of the digit limit at import.
--   Simulator/Protocol    `build_response`.
--   Simulator/Faults      `FaultConfig`, `load_fault_config`, `resolve_fault_config`. Its children show
--                         what is accepted: Bounds, Choice (the command line), Manifest (the file).
--   Simulator/Framing     `readline(limit)` and `rstrip` over a list of bytes.
--   Simulator/Connection  `DutRequestHandler.handle`: the function `handle` takes the bytes of a
--                         connection to the list of its effects. Its children show what the client
--                         gets (Replies, Service), what the log says (Evidence) and when the process
--                         ends (Termination).
--   Simulator/Startup     `main`, `configure_logging` and `run_server`, over a parsed command line. Delay
--                         is about when the process gets ready.
--   Curriculum            the records of `curriculum.py` and the block queries of `Lesson`.
--   Curriculum/Values     `_require_str`, `_require_str_list`, and what the checks are given (`Site`).
--   Curriculum/Blocks     `_validate_blocks`.
--   Curriculum/Schema     `_parse_lesson`, with `Toolchain.satisfies` of `learning/server/toolchain.py`.
--   Curriculum/Load       `load_curriculum` over a record of files (Files), with the interview
--                         questions (Interview). Gathering, Places and Order are about what it lets
--                         through.
--   Progress              the state of `ProgressStore`. A field is absent, null or a value, which is
--                         what the loader admits.
--   Progress/Record       the change that each method makes to one record.
--   Progress/Store        the methods that write, as actions of the monad in Exec: a state and an
--                         exception. Safety and Methods show which states they never raise on.
--   Progress/Completion   the completion gates: `_lesson_is_complete_locked`,
--                         `_lesson_completion_locked`, `mark_complete`, `completion_map`,
--                         `resume_lesson_id`. Rule and Verdict say what they are to compute; Loaded
--                         puts them over a curriculum that the loader accepts.
--   Progress/History      any sequence of calls.
--   Progress/Loading      `_record_is_valid` and `_load`, over the JSON value that the file holds. Typed
--                         reads a record into the types of Progress; Sound is about what is loaded.
--   Progress/Queries      `concept_mastery`, `interview_weights`, `lesson_status`, with exact fractions
--                         where the code has floats, and the OverflowError of an integer too large for one. Weights is about what the draw is given.
--   Validators            `CheckResult`, `truncate` and the registry of `learning/server/validators.py`.
--   Checks/Pytest         `run` of `learning/checks/pytest_check.py`. Proof says when it passes.
--   Toolchain             `learning/server/toolchain.py` over a given machine. Detection is about what
--                         is found, Requirements about the lessons that are offered by it.
--   Server                `learning/server/app.py`. A request is a thread of steps on the shared state
--                         (Thread). Request and Text read the headers and the body, Origin is
--                         `_same_origin`, Payload the answers, Views `_lesson_public`; Steps, Checks
--                         and Interview are the POST handlers, Reads and Static the GET handlers, and
--                         Router `do_GET` and `do_POST`.
--                         What a thread may end with: Safety, Servable (what the loader lets through),
--                         Answers, Posts, Answered; threads together: Schedule, Liveness. What a
--                         thread may change: Effects, ReadOnly, Refusals, Unchanged, Shutdown. Which
--                         requests and files are refused: Trust, Contained.
--   Client                `LabClient` of `src/testlab/client.py`. Waiting is about `wait_until_ready`,
--                         Exchange puts the client before the DUT's `handle`.
--   Json, Json/Loads      JSON values, and `json.loads` after its scanner, with its hooks.
--   Dict, Result, Exec    Python's dict in insertion order, exceptions as values, methods.
--   Tests                 concrete runs.
--
-- How the parts meet: `handle` uses Framing, Decode, Protocol and a `FaultConfig`; Decode and Faults
-- use the hooks of Json/Loads; Completion uses the records that Store writes and the lessons of
-- Curriculum; the Server calls the methods of Store and Completion, one step each since a method holds
-- the store's lock; Toolchain says what the loader of Curriculum may offer; the Client talks to
-- `handle`.
--
-- Parameters: the scanner of `json.loads` and `bytes.decode("utf-8", errors="replace")` are functions
-- that a section takes, with no hypothesis on them but one: what the Client and the DUT exchange reads
-- back from its JSON text with the same entries. For the server, `urlparse`, `unquote`, `str.lower` and
-- `int` of a text are fields of the record `Python`, the checks of the registry those of `Registry`, the
-- files of the page those of `Disk`, and `random.choices` a function; so are the child process of the
-- pytest check and its `re.search`, and which files and ports the DUT process can have. `str(value)`
-- of a JSON value and the wording of `requirement_reason` are fields of the record `Site`, and the
-- files a record of what they hold.
-- `now` is what `_now()` answers in a call; the code asks once for each time it writes, the model once
-- for each call.
--
-- Fuel and bounds: the walk of the nesting check has one round more than the value has parts; the loop
-- of a connection one round more than the client sends bytes; a completion walk one nested call more
-- than the curriculum has lessons, since each adds a lesson to the set `seen`. The
-- client's wait is given the readings of its clock as a list. A DUT that the client asks is given the
-- milliseconds that an exchange takes besides the DUT's own delay, for the client's timeout. The limits of the program (100 levels,
-- 4300 digits, 1,048,576 bytes, a delay of a day) are the program's own numbers. Python's integers are
-- unbounded, and so are the model's.
--
-- Assumptions on the data: the completion theorems ask that each lesson record has every field, as
-- `_lesson_record_locked` makes it, and that the prerequisites of a lesson are of lower rank than it,
-- for some ranking, such as their places in the program, which the loader compares. The index of a
-- hint is not negative.
--
-- Not modelled: DEBUG records and the peer's address; failures of sockets and of the disk; the text of
-- the state's file, and its `version` once it is loaded; the wording of the server's messages, the
-- draining of a refused body and the start of the server; the lock that lets one check run at a time,
-- since a check is a given function; a read of the client that never ends,
-- since its peer sends bytes for ever without a newline; the value that `clamp_timeout` computes, and the
-- processes of the validators; the other
-- lesson checks and the instance lock; the C++ DUT. Threads take a lock for each method and for the
-- request counter, so their interleavings are sequences of these steps; nothing is said of interleavings inside
-- a step.
pub mod Prelude
pub mod Result
pub mod Dict
pub mod Json
pub mod Exec
pub mod Simulator
pub mod Curriculum
pub mod Progress
pub mod Validators
pub mod Toolchain
pub mod Server
pub mod Checks
pub mod Client
pub mod Tests
