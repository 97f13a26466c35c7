-- ===== src/Lib.antt =====
-- scord, an I/O scheduler: a daemon that registers jobs, adhoc storages (temporary file systems that
-- a job may use), parallel file systems (PFS) and transfers of datasets; the controller scord-ctl
-- that starts and stops adhoc storages; and the library through which clients call the daemon.
--
-- The daemon keeps four registries and answers remote calls. A call runs one handler, which changes
-- the registries by their methods, and may call the controller of an adhoc storage (scord-ctl), the
-- transfer service (cargo) and Redis. Beside them a scheduler looks at all transfers once a second.
--
--   Prelude     tests, lists, association lists for `std::unordered_map`, strings
--   Types       src/lib/scord/types.hpp, src/lib/types.cpp: the data of the API
--   Metadata    src/scord/internal_types.hpp, src/scord/internal_types.cpp: what is kept for each job,
--               adhoc storage, PFS storage and transfer
--   Managers    src/scord/job_manager.hpp, src/scord/adhoc_storage_manager.hpp,
--               src/scord/pfs_storage_manager.hpp, src/scord/transfer_manager.hpp: the registries,
--               each a record of tables with one function per method. In Job and Adhoc a View is the
--               map from numbers to metadata that the tables stand for, and Invariant is about
--               sequences of calls; Job/Index is about the search by Slurm number, Adhoc/Clients
--               about the client of a storage
--   Network     src/common/net/request.hpp, src/common/net/utilities.hpp: responses, call numbers
--   Server      src/scord/rpc_server.cpp, src/scord/rpc_server.hpp: the handlers (Jobs, Adhocs,
--               Storages, Transfers), a round of the scheduler (Scheduler), all of them as one step
--               function (Requests), and proofs: Consistency for the invariant between jobs and
--               adhoc storages, Queries, Registration, Removal, Outcomes, Staging, Rounds and
--               Datasets for what single handlers do;
--               Controllers for the daemon with the controller of the repository behind it
--   Utils       src/lib/utils.cpp with two constructors of src/lib/types.c: lists of dataset routes that
--               users write. Split is the loop over separators, Routes the parser
--   Controller  src/scord-ctl/command.cpp, src/scord-ctl/config_file.cpp, src/scord-ctl/rpc_server.cpp:
--               Command for templates of command lines and what is run (Reference and Template say
--               what a template becomes), Config for the configuration file, Handlers for the calls
--               (Runs, Answers and Deployment for what they do)
--   Conversions src/lib/types_private.h, src/lib/types.cpp, src/lib/types.c: the structures of the C API
--               and the conversions between them and the values of Types
--   Locks       src/common/abt_cxx/shared_mutex.hpp: the guards of the registries' locks; Scopes takes
--               programs over two guards as sequences of operations
--   Memory      src/lib/types.c: the blocks that routes, lists of routes, job requirements, resources, contexts
--               and limits take and give back; the contents of the structures are in Conversions
--   Client      src/lib/detail/impl.cpp, src/lib/libscord.cpp (Api) and src/lib/c_wrapper.cpp (Capi): a
--               function for each procedure of the daemon over a Connection, which Client/Daemon fills
--               with the daemon's handlers; Capi/Waiting is about the wait for a transfer
--   Process     src/common/net/server.cpp, src/common/utils/signal_listener.hpp: how a process of scord or
--               scord-ctl becomes a daemon, writes its pidfile, waits for signals and stops
--   Sizes       src/common/utils/utils.cpp: sizes written with a unit; Units says which texts are sizes
--   Plugin      plugins/slurm/slurmadmcli.c, plugins/slurm/utils.c: the plugin that Slurm loads: Options of
--               users (Described is a reference for whole command lines), Settings of plugstack.conf, Nodes
--               of a job, World and Jobs for its registration and removal through the client library, Hooks for the
--               functions that Slurm calls
--   Examples    concrete inputs, and the theorems at these inputs
--
-- State is passed explicitly. A `std::shared_ptr` is an index into the list of all objects of its
-- kind that were ever made, so that two holders of a pointer see each other's changes. A handler
-- gives the state after it with an outcome, which is a response or a fault: `value()` of an error or
-- of an empty optional, or a use of a null pointer or an empty optional. A handler of the controller
-- responds, throws where its test for a directory throws, or does not end (`Handled`).
--
-- Numbers are natural numbers; the counters wrap at 2 ^ 64 and `io_procs` at 2 ^ 32, as in the
-- program. Theorems on counters assume that they do not wrap, which holds of any history of fewer
-- than 2 ^ 64 - 1 requests. Recursion is structural; three loops of the program count their rounds:
-- the loop of `split` and the loop of `eval` get a round for each byte of the text and one more, which is
-- proved to be enough for every text, and the wait for a transfer gets a number of queries, which is
-- enough if the transfer is over by then.
--
-- Parameters stand for what is outside the repository: cargo's handles and states, floats and their
-- operations, the clock and the random device, the file system and the processes that the controller
-- runs (`Machine`), the tree of a YAML file (`Yaml`), whether an allocation fails (in Utils; elsewhere
-- none does), whether a call of Argobots' lock does, and for a process what the system answers
-- (`Answers`), for the plugin `strtol`, what Slurm answers, its lists of hosts, and the resolver of
-- host names. The daemon takes addresses and controllers as `Remote`, clients take the daemon as
-- `Connection`. A method of a registry is one step because it holds the registry's lock; handlers are
-- taken one after the other, so two handlers that overlap between their calls of registries are not
-- modelled. Not modelled either: serialisation, logging but for the values that a log line reads, the
-- constructor of the daemon, the structures of one block of src/lib/types.c, the functions on paths of
-- src/common/utils/utils.cpp, which nothing calls, the command line tools, and in the plugin the
-- memory that its hooks free and how a directory is emptied.
pub mod Prelude
pub mod Types
pub mod Metadata
pub mod Managers
pub mod Network
pub mod Server
pub mod Conversions
pub mod Locks
pub mod Memory
pub mod Utils
pub mod Controller
pub mod Client
pub mod Process
pub mod Sizes
pub mod Plugin
pub mod Examples
