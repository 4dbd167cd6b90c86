-- ===== src/Lib.antt =====
-- Verification of the machine state of secondhand, a fleet of coding agents that one command,
-- hand, plans, launches, watches and tears down.
--
-- The program's commands (cmd/) work on a home directory that holds one SQLite database
-- (internal/store/store.go) and, for each task, a report file (internal/state/report.go). The
-- database has the tasks, the attempts at each task and the deliveries of messages to the running
-- attempt; a worker appends lines to its report file, and the watcher, the status view and the
-- supervisor read it with a cursor that they keep in the task's row.
--
-- - Base: the names of the library that the other modules share, tests on numbers and texts,
--   lists, results, and key types.
-- - Report models internal/state/report.go. Report/Line has ParseReportLine, LastReportedState and
--   TerminalReport; Report/Space the strings.TrimSpace and strings.Cut that they use, on UTF-8
--   bytes; Report/Cursor has ReportCursor, covers and reportCursorFor; Report/Tail has readReport
--   and TailReport; Report/Terminal has classifyReportBytes, TerminalReportInData and
--   CurrentReportCursor. Report/Lines is the description without a loop that the readers are
--   measured by, and Report/Polling a reader that polls after every write.
-- - Store models internal/store/store.go. Store/Types has the rows and the two transition tables;
--   Store/Tables the database as a value, with the statements, constraints and transactions that
--   the methods use; Store/Lifecycle the methods that create, move, end and delete tasks and
--   attempts; Store/Facts the methods that record one fact; Store/Teardown the records of a
--   teardown; Store/Sends the deliveries; Store/Holds the holds and the project registry;
--   Store/History the readers. Each method is one function of the engine's answers, its arguments
--   and the database, and gives its result and the database that it leaves. Its guards stand in
--   the order of the source, and a method that is refused gives the error that the source returns.
-- - Store/Ownership is the abstract machine: which task owns which attempt. Store/Refinement
--   relates each method to the labelled steps that it may make, and Store/Runs is about sequences
--   of calls. Store/Sends/Rows and Store/Sends/Keeping are about what deliveries leave of earlier
--   ones. A send that is read keeps its message, which the source's readers of metadata leave out.
-- - Attention models internal/attention/attention.go; Attention/Verdict says what its answer comes
--   to.
-- - Watcher models internal/watcher. Watcher/State has Event and TaskState, Watcher/Status and
--   Watcher/Announcements the classifiers of internal/watcher/events.go, Watcher/Filter its
--   filters, Watcher/Limit, Watcher/LimitHolds and Watcher/Episodes
--   internal/watcher/usagelimit.go, over the store's holds and the steering; Watcher/Log,
--   Watcher/Restart, Watcher/Resume and Watcher/Recording have appendEventLog, resumeTaskState,
--   syncTaskState, restoreLimitResumeState, autoRecordPR and what they call of
--   internal/watcher/watcher.go. Watcher/Dispatch has handleEvent. A classifier that changes
--   *TaskState gives the state that it leaves. Watcher/Latches, Watcher/Limit/Backoff,
--   Watcher/Episodes/Schedule, Watcher/Episodes/Unresolved and Watcher/Restart/Memory are about
--   these.
-- - Steering models internal/steering/send.go: Steering/Request has Request and Error,
--   Steering/Execution has Execute, and Steering/Delivery its end, over the store's sends.
--   Steering/Outcomes is about what the caller is told, Steering/Silence about a send that is
--   still pending.
-- - Routing models internal/routing: Routing/Profile has the checks of profile.go and
--   validation.go, Routing/Resolver has resolver.go. Routing/Choice and Routing/Flags are about
--   the route.
-- - State/PullRequest models the pull-request URLs of internal/state/pr.go, State/Identifier
--   ValidateID of internal/state/task.go, Age and Shellquote internal/age/age.go and
--   internal/shellquote/shellquote.go.
-- - Tests runs the model on concrete inputs.
--
-- What is an argument: the answer of os.ReadFile, the digest of the bytes that a cursor covers
-- (crypto/sha256 and encoding/hex), and how the SQLite engine answers a call where it can fail for
-- reasons of its own (Engine: a begin, a statement or a commit that is busy or broken; a statement
-- that fails inside a transaction has the effect of a broken commit). Where a statement changes no
-- row, the source reads the row again to choose its error; what it reads then is the argument
-- `later`, any database, since other writers may have come between. A transaction is one step,
-- which is what the engine's write lock gives.
--
-- Arguments too are the answers of the pane, the locks and the clock to one message (Answers) and
-- to one tick (Tick, whose Sighting is what the harness's screen shows of a usage limit), Go's
-- formatting and parsing of instants and the texts that the store keeps bytes as (Codec),
-- filepath.Base and strings.ToUpper (Texts), whether the project takes a pull request (Admission),
-- and the harness catalogue and probes (Catalogue, Availability). A message reads the database
-- once before it has the task lock and once under it: the first is the argument `early`.
--
-- Instants are natural numbers of nanoseconds with 0 for Go's zero time. Numbers are natural: the
-- model's ids, ordinals and offsets never wrap, where the source has int64. A lifecycle or state
-- is one of the words of its CHECK constraint, or `unset` for the empty text.
--
-- The loop of TailReport runs on fuel, one more than the bytes that are left to read, and each
-- round consumes at least one byte.
--
-- The loop of limitBackoff runs on the attempts, which is how often the source's loop runs at
-- most.
--
-- Not modelled: the raw writers CreateTask, UpdateTask and UpdateAttempt, the lists of rows and
-- schema migration of internal/store; the poll loop, the ownership of the watch and the sending of
-- notifications of internal/watcher; FindPRURLs of internal/state, and its functions that open the
-- database and forward to the store; the stored configuration of internal/routing; and the other
-- packages.
pub mod Age
pub mod Attention
pub mod Base
pub mod Report
pub mod Routing
pub mod Shellquote
pub mod State
pub mod Steering
pub mod Store
pub mod Tests
pub mod Watcher
