-- ===== src/Lib.antt =====
-- catalyst-build-executor: a model of the build executor `cbe`.
--
-- `cbe` reads a manifest of definitions and build steps, builds a graph of files, sorts it, and runs
-- the command of each step whose output is out of date. The parts and their files:
--
--   Base      bytes, lists, options and loops that the parts share
--   Domain    include/cbe/domain.hpp and utility.hpp: `BuildStep`, results and errors, and the
--             file system as a parameter. `unexpected` is the error value of `std::expected`,
--             `thrown` an exception
--   Fields    the loop over a comma-separated input list (src/graph.cpp, `add_step`)
--   Depfile   the reader of dependency files (src/graph.cpp, `parseDepfile`, `extractToken` and
--             `skipWhitespace`)
--   Graph     `BuildGraph`: nodes, steps, the index from paths to nodes, and the operations
--             `get_or_create_node`, `add_resource`, `add_step` (include/cbe/graph.hpp, src/graph.cpp)
--   Topo      `BuildGraph::topo_sort`
--   Builder   `CBEBuilder` (include/cbe/builder.hpp, src/builder.cpp)
--   Parser    the text manifest (src/parser.cpp)
--   Commands  the command line of a step, in the three places of src/executor.cpp that build it
--   Scheduler the thread pool of `Executor::execute`: the ready queue, the in-degrees, the workers and
--             the notifications, as a step relation (src/executor.cpp)
--   Rebuild   `StatCache` and `needs_rebuild` (src/executor_stat_cache.cpp, src/executor.cpp)
--   Process   `process_step` and `process_exec`: what a worker does with a node outside of the lock
--             (src/executor.cpp, src/process_exec.cpp)
--   Execute   `execute` as a whole: the log, the count of the steps to build, the pool and the result
--   Binary    the cache of the manifest: `emit_bin` and `parse_bin` (src/binary.cpp)
--   Tools     `clean`, `emit_commands`, `emit_compdb` and `emit_graph` (src/executor.cpp)
--   MappedFile  the mapping of a file and its release (include/cbe/file_handle.hpp)
--   WorkEstimate  the file of estimates (src/work_estimate.cpp)
--   Chars     numbers as text, which the arguments, the estimates and the graph use
--   Cli       the arguments (src/cli_args.cpp)
--   Main      `main` (src/cbe.cpp)
--   Tests     samples, and the theorems at them
--
-- `main` reads the arguments, parses the manifest, adds the overrides and calls a tool or the executor.
-- The parser calls the builder, whose operations call the graph's; the graph reads dependency
-- files; the executor runs the nodes of the graph in the pool and asks for each step whether to
-- rebuild it. A string is a list of byte values and a `size_t` a number: an index is always one
-- into a container. A view into a mapped file is the text itself, and the files are kept in
-- `resources`. In the pool a block under the mutex is one step; a run is a sequence of steps of any
-- workers, with the events that can be seen from outside.
--
-- Loops that the source ends by itself take fuel: the length of the text for the readers, the
-- number of nodes for the depth-first search. Each is proved to be enough: the loops take a byte
-- in each round, and each call of `dfs` takes an unvisited node.
--
-- Parameters: the file system (what a path holds, when it was written, what can be removed, the order of
-- paths), the answers of the system to `MappedFile`, the start of a process, the work estimates of the pool, and in `main`
-- the working directories and the result of `execute`, whose runs are a relation. An exit code is
-- the pattern of an int in 32 bits. The cache file is that of a little-endian machine with
-- 64 bits; a read outside of the mapped file, which the source does not check, is the result
-- `invalid_read`.
--
-- Not modelled: the branches for Windows, the messages to the terminal and the help text, the JSON
-- text of compile_commands.json, whose writing is taken not to throw, and the times of the
-- profiling build. The stat cache is used by one thread here. In it different texts can be equal
-- paths, as `a//b` and `a/b` are for `std::filesystem::path`, and equal paths name one file
-- (`IsClockOf`); elsewhere a file is named by its text. An exception inside of a worker of the
-- pool is no step of a run.
pub mod Base
pub mod Domain
pub mod Fields
pub mod Depfile
pub mod Graph
pub mod Topo
pub mod Builder
pub mod Parser
pub mod Binary
pub mod Commands
pub mod Rebuild
pub mod Scheduler
pub mod Process
pub mod Tools
pub mod MappedFile
pub mod WorkEstimate
pub mod Execute
pub mod Main
pub mod Chars
pub mod Cli
mod Tests
