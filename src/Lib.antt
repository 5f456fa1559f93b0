-- ===== src/Lib.antt =====
-- A verification library for reclient, the remote build execution client: reproxy is a proxy that
-- runs the actions of a build remotely or locally, and decides for each action what its inputs are,
-- where it runs and what is reported of it.
--
-- What is modelled, by file:
--   Prelude     Names and lemmas that are shared: maps as association lists, results with panics,
--               insertion sort for package sort, and path/filepath on Unix, lexically.
--   Args        internal/pkg/inputprocessor/args/scanner.go, the scanner of command lines.
--               `read_next_flag`, `next` and `look_ahead` are ReadNextFlag, Next and LookAhead.
--   Flags       internal/pkg/inputprocessor/flags/flags.go and flagsparser/flagsparser.go: the
--               flags of a command, and the parser that uses the scanner and knows no flag.
--   Labels      internal/pkg/labels/labels.go: the labels of an action, to and from maps, and the
--               key that the forecast uses (`to_key` is ToKey).
--   Forecast    internal/pkg/reproxy/forecast.go: a ring of the latest download latencies for each
--               kind of action (`Samples`), filled by RecordSample, sorted by Run.
--   Compare     internal/pkg/reproxy/compare.go and dedup of reproxy/server.go: what compare mode
--               reports of an action that was run several times, locally and remotely.
--   DepsCache   internal/pkg/inputprocessor/depscache: the cache of dependencies (GetDeps, SetDeps),
--               its files (`Files` is minimalfilecache.go) and its form on disk (`Disk` is
--               WriteToDisk and LoadFromDir).
--   Local       internal/pkg/localresources/manager.go (NewManager, Lock and the function that it
--               returns) and internal/pkg/reproxy/localexec.go (what a local run asks for, by the
--               labels of its action).
--   Stats       internal/pkg/stats/stats.go. `Stats` is the tree of metrics with addNum, addBool and
--               addStatus; `Messages` the log records, `Logged` what each message of one adds,
--               `Collector` New, AddRecord, aggregate and finalize, `Summary` summarize and
--               statToProto, `Report` ToProto, `Bandwidth` humanReadableBytes and BandwidthStats.
--   DepsScanner internal/pkg/cppdependencyscanner/depsscannerclient/depsscannerclient.go: the address,
--               the arguments and the environment of the scanner's service, `Service` its start, stop,
--               restart and the processing of inputs, `Connect` New.
--   Ignore      internal/pkg/ignoremismatch: the rules that take mismatches out of a log record.
--   Stash       internal/pkg/reproxy/stash.go: StashFiles and restoring.
--   Rsp         internal/pkg/rsp/rsp.go: response files, Parse and ParseWithFunc.
--   Deps        internal/pkg/deps/parser.go: the dependency files that a compiler writes, and the
--               files of digests made of them, GetDeps and VerifyDepsFile.
--   Tools       internal/pkg/inputprocessor/action and clangparser: the parsers of single tools, with
--               d8 and r8 in Tools.antt, `Clang` clangparser.go, `Tables` its New, `Javac`, `Link`,
--               `Metalava` and `HeaderAbi` javac, clanglink, metalava and headerabi. They read their flags by Args and response files by Rsp.
--   Server      internal/pkg/reproxy/server.go and action.go. `Startup` is SetInputProcessor,
--               SetREClient, SetStartupErr and waitForStarted; `FailEarly` is windowedCount and
--               checkFailBuild; `Action` is runLocal, runRemote, getCachedResult and cacheLocal of an
--               action; `Run` is runAction of the server with its strategies, runLERC, runRemote,
--               runRacing and populateCommandIO; `Requests` is RunCommand up to
--               there and `Records` the keeping of log records. `Race` is race of action.go with runRemoteRace
--               and runLocalRace, as a relation between states (`Steps`). The server sends an
--               action's labels to Forecast and its reruns to Compare.
--   Tests       The theorems at concrete inputs.
--
-- How code is read. A method that holds its lock throughout is a step of its state; times are
-- numbers. A slice expression or an index out of range is a panic, which is a value of its own
-- (`none` or `panic`). Go's int is a number without wrap-around: all counts are lengths of slices or
-- numbers of flags. A range over a map visits the list that stands for the map in order; Go leaves
-- the order open, and no theorem depends on it. The fuel of the flag parser's loop is the number of
-- arguments, which is enough because every round takes one at least.
--
-- Weighted semaphores are an interface (`Semaphores`): an acquisition adds to what is held or is
-- cancelled, and a release of no more than is held succeeds. The results of the remote execution
-- library are an interface (`Results`), with the few facts that its documentation gives. How the
-- client, the input processor, the executor and the files answer while an action runs is a record
-- (`World`), over which the theorems quantify; `timed_out` in it is whether the context of a remote
-- run was ended by its timeout. The deferred function of runRemote tests the error of the result, and
-- the two tests are part of `Results`. A local run turns its environment into a map (`Environment`),
-- which panics at an entry without an equals sign, and RunCommand does so to log it. The race of
-- runRacing is any function of the action. Floating point is left out: whether the ratio of
-- fallbacks is too high is a parameter (`too_many`).
--
-- In Stats an int64 is a signed number, and its sums wrap around (`add64`); a status is its name, an
-- average is a sum and a number of values, and the start of a build is a number of seconds or the
-- largest float64. The loop of humanReadableBytes has fuel for 7 rounds, more than an int64 needs.
--
-- A race is in one of the states `State`: where its remote part, its local part and race itself are,
-- the channel between them, the signal that starts the local part, the timer of the hold-off, the two
-- contexts, and the fields of the action. A step is what one of them does between two points at which
-- the others can see it, and the steps come in any order. It begins once there is a temporary
-- directory, and its local part has an environment with an equals sign in every entry. The function `raced` of Run takes any function of the action for the race.
--
-- The scanner's service, the system's addresses, its environment and its processes are records of
-- answers (`World`, `System`); the two waits of stopService and the 10 calls of verifyService are
-- their loops with as much fuel. The regular expressions of Ignore are any function that compiles a
-- text to a test. A copy that StashFiles makes has a name of its own,
-- and which renames fail is a parameter of restoring. A handler that ParseWithFunc calls gets the
-- scanner and may change it (`reading` makes one that does not). Lock is that of a manager that is
-- not nil.
--
-- The loops over the command line of a tool and over a response file have the number of arguments as
-- their fuel, which is enough where a handler leaves its scanner no more arguments than it had. What the system and its files answer to the parsers is a record (`Machine`,
-- `Archives`); the tables of clang's flags, which llvm generates, are parameters. White space in a
-- response file is that of ASCII. The regular expressions of deps/parser.go and the store of digests
-- are parameters too (`Formats`, `Parser`); arCache, the cache of archives, is what it holds when a
-- command is parsed.
--
-- Not modelled: the network, the file system and the encoding of messages. What is in an action's
-- command and its inputs and outputs is left out of Server. The digest of a source file's
-- preprocessor lines is a parameter (`Digests`), constant through a run because it is computed
-- once for each file. The runs of the local pool, drain and shutdown, and the parsers of
-- clang-tidy, the preprocessors of C++, the reader of archives, typescript and nacl have
-- no model yet.
pub mod Prelude
pub mod Args
pub mod Flags
pub mod Labels
pub mod Forecast
pub mod Compare
pub mod DepsCache
pub mod Local
pub mod Stats
pub mod DepsScanner
pub mod Ignore
pub mod Stash
pub mod Rsp
pub mod Deps
pub mod Tools
pub mod Server
pub mod Tests
