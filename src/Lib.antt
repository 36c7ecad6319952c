-- ===== src/Lib.antt =====
-- PMDA++ (include/pcp-cpp): C++ headers with which a program becomes a PMDA, an agent of
-- Performance Co-Pilot. An agent derives from pcp::pmda, describes its metrics with a chain of
-- call operators, and overrides fetch_value and store_value; the base class builds the tables that
-- libpcp_pmda asks for, checks the identifiers that come in, turns exceptions into error codes,
-- answers help texts, parses the command line and exports the agent's support files.
--
-- Parts, and the files that model them:
--   Metrics           metric_description.hpp: metric_description, metric_cluster and
--                     metrics_description are records, the call operators functions on them;
--                     Chain is a chain of calls, Calls and Build what it makes
--   InstanceDomain    instance_domain.hpp: the class and its call operators
--   Atom              types.hpp and atom.hpp: type<T>() and atom(); integers wrap at the width of
--                     their type, written out in Atom.Words
--   Exception         exception.hpp, and results of code that may throw
--   Pmda              pmda.hpp: State has the members and the virtual methods; Init is
--                     initialize_pmda with count_metrics and allocate_pmda_indom; Validate,
--                     Checked, Fetch, Store and HelpText are validate_instance,
--                     on_fetch_callback, on_store and on_text; LifeCycle is init_dso, run_daemon
--                     and initialize_dso; Callbacks is set_callbacks with the callback_*
--                     functions, Interface initialize_pmda with the interface, and Serving the
--                     sequences of requests that libpcp_pmda makes through it; the modules beside
--                     them hold the proofs
--   Export            pmda.hpp: the export_* methods; Support has the files of export_support_files
--                     in their order
--   CommandLine       pmda.hpp: parse_command_line and what it displays; Described has the options of
--                     the build with boost, GetOpt the build without
--   Cache             cache.hpp: lookup, perform, purge and store
--   Version           config.hpp: get_pcp_runtime_version
--   Daemon            pmda.hpp: the virtual run_daemon and the default paths of the agent's files;
--                     Program is the static run_daemon and init_dso around it and initialize_dso
--   Units             units.hpp
--   Simple            example/simple/simple.cpp: Defs has the members, fetch_value and store_value,
--                     Metrics get_supported_metrics, TimeNow begin_fetch_values with timenow_check,
--                     timenow_clear, timenow_init and timenow_refresh, Agent the class with all
--                     its virtual methods, Program its name and number, simple_init and main; the
--                     others hold the proofs
--   SimpleCpu         example/simplecpu/simplecpu.cpp: Stat reads the text of /proc/stat, Defs has
--                     the class, Program its name and number, simplecpu_init and main; the others
--                     hold the proofs
--   Trivial           example/trivial/trivial.cpp: Defs has the class, Program its name and
--                     number, trivial_init and main; the others hold the proofs
--   Map, Base         std::map and std::set with their orders; numbers, strings and lists
--   Pcp               the constants and pure functions of libpcp, a parameter with named laws
--   Tests             the theorems at concrete inputs, and runs of the model
--
-- State: code that changes the members and may throw is a function from the members to a result
-- and the members after it (Pmda.State.Method). Instance domains are reached by pointers: a
-- pointer is an address, a heap gives the object at each address, and set-up changes objects
-- through the heap. Every pointer in a description that is not NULL leads to an object. The virtual
-- methods of an agent are a record (Pmda.State.Agent); the agent's own members are a type that the
-- theorems quantify over, and so is what its surroundings tell, which may differ from one request
-- to the next (Pmda.Serving.Serves). Log messages, written files and strdup'ed texts are part of the state.
-- An assertion of initialize_pmda is an Option that is none where it fails. The interface is
-- not among the members: Pmda.Interface has initialize_pmda with what set_callbacks writes there.
--
-- Parameters: libpcp and libpcp_pmda (constants, PMDA_PMID, pmErrStr, pmdaInit, pmdaFetch,
-- pmdaStore, pmdaText, pmdaGetOpt, the pmdaCache functions, pmSetDebug), boost::program_options, the
-- file system, the time and the floating-point conversions. The theorems state what they rely on:
-- the codes of errors are negative, the types are numbered in ascending order, and the parts of a
-- PMDA_PMID of 12 and 10 bits can be read back. A conversion of a floating-point number to an integer
-- type that does not have it is undefined in C++; the parameter gives some value there, on which
-- nothing relies. pmdaMain is what its callbacks do to the members, and it ends by returning or by
-- an exception of theirs.
--
-- Loops are recursion on the list or map that is iterated. Numbers are printed on fuel, one more
-- than the number: each round divides by the base. The numbers in a line of /proc/stat are read on
-- fuel, one more than the line has characters: each takes a character. The loop of pmdaGetOpt runs
-- on fuel that the theorem about it measures. Code is selected as for a 64-bit machine with
-- PCP 3.12.2 or later and boost; PCP_CPP_PMDA_INTERFACE_VERSION and PCP_CPP_NO_ID_VALIDITY_CHECKS
-- are parameters (Pmda.State.Config).
--
-- Not modelled: what libpcp_pmda writes for the callbacks that only pass their arguments on, and the
-- values that are written to their output arguments; tests and build files.
pub mod Base
pub mod Map
pub mod Pcp
pub mod Exception
pub mod InstanceDomain
pub mod Metrics
pub mod Atom
pub mod Cache
pub mod Version
pub mod Pmda
pub mod Export
pub mod CommandLine
pub mod Daemon
pub mod Units
pub mod Simple
pub mod SimpleCpu
pub mod Trivial
pub mod Tests
