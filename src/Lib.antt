-- ===== src/Lib.antt =====
-- ISPTAP computes worst case execution times of programs on processors with an instruction
-- scratchpad or an instruction cache. It reads a listing (src/parser), rebuilds the control flow
-- graph (src/graph), runs a data flow analysis on the memory state graph (src/memory), and solves a
-- linear program for the longest path. The library models the abstract memory states of this data
-- flow analysis, which decide whether a fetch is a hit or a miss: a state for each node of the
-- memory state graph, an update for the instructions of a node, and a join where paths meet. Each
-- maintainer is proved against the concrete memory that it is about.
--
-- Which file models what
--   Prelude         the libraries' names, lists over the native numbers, Boolean tests, and the
--                   failure of an assertion: `none` is the abort.
--   MemUsage        src/util/mem_usage_stats.cpp, the counters of memory states.
--   ContextStack    src/graph/context_stack.cpp, the call sites that tell contexts apart.
--   MemoryParams    src/memory/memory_params.cpp, of which isPowerOfTwo and log2.
--   AbsSet          src/memory/mem_state_maintainer.cpp and the entries of src/graph/graph_structure.h:
--                   sets of addresses with ages, their sorting, their union, the map of their ages.
--   MemStateGraph   the memory state graph of src/graph/graph_structure.h: numbered vertices and a
--                   list of edges.
--   Dfa             the work list that the data flow analyses share (analyzeCache, analyzeDISP): that
--                   it ends, and that it reaches every vertex.
--   IcacheDfa       src/memory/icache_dfa.cpp, the analysis of an instruction cache: the lines of a
--                   block (Lines), the states of the vertices (Arrives, Invariant, Analysis), the
--                   counters and penalties (Costs, Block, Penalty, Paid, Bound). The maintainer is a
--                   record of operations; Sound states its laws, Maintainers fills them.
--   LruCache        src/memory/lru_cache_state_maintainer.cpp, must and may sets of an LRU cache.
--                   LruCache/Concrete is the cache itself, written down independently of the source.
--   DmCache         src/memory/dm_cache_state_maintainer.cpp, the same for a direct mapped cache.
--   Bf              what the maintainers share that keep the set of all possible concrete states.
--   FifoCache       src/memory/fifo_cache_mem_state.cpp and
--                   src/memory/fifo_bf_cache_state_maintainer.cpp (FifoCache/Maintainer).
--   Disp            what the scratchpads of whole functions share: src/memory/disp_mem_state.cpp,
--                   getFunctionSize of src/graph/fcgobj.cpp, and the operations that the two brute
--                   force maintainers of scratchpads have in common.
--   FifoDisp        src/memory/fifo_disp_mem_state.cpp and
--                   src/memory/fifo_bf_disp_state_maintainer.cpp (FifoDisp/Maintainer).
--   StackDisp       src/memory/stack_disp_mem_state.cpp and
--                   src/memory/stack_bf_disp_state_maintainer.cpp (StackDisp/Maintainer).
--   DispDfa         src/memory/disp_dfa.cpp, the analysis of a scratchpad of functions with LRU
--                   replacement: the runs and their active functions (Runs), the states and contexts
--                   of the vertices (States, Contexts, Invariant, HandOn, Analysis), the penalties of
--                   calls and returns (Costs, Penalty, Paid, Turns, Bound, Whole), and the count of their
--                   hits and misses (Categories, Counted, Tallies, Categorized).
--   LruDisp         src/memory/lru_disp_state_maintainer.cpp, must and may sets with sizes of functions.
--                   LruDisp/Concrete is the scratchpad itself, written down independently.
--
-- How the definitions correspond to the source
-- A method that changes its object is a function from the old to the new state, a method that may
-- fail an assertion returns an Option. The std::map of a maintainer is an association list, a node
-- of the memory state graph a number. Integers are natural numbers with the wrap-around of their
-- type written out where the code adds to them: uint32_t for ages, addresses and positions,
-- uint64_t for the counters, uint16_t for the ranges that the eviction of the stack scratchpad
-- compares. The bounds under which nothing wraps are hypotheses: fewer than 2 ^ 32 lines, a
-- scratchpad of less than 2 ^ 31 bytes (FIFO, LRU) or of at most 2 ^ 16 (stack). `sizeof` is a
-- parameter (Sizes). std::sort is insertion by the same comparison. Loops are structural recursion,
-- but for three that run on fuel: the removal of duplicates, whose rounds are at most the length of
-- the vector, and the eviction of the FIFO scratchpad, each round of which removes a function, and
-- the shifts of isPowerOfTwo, of which there are at most 31; for each of them the result with this
-- fuel is proved to be the wanted one. The loop over the lines of a block has fuel 2 ^ 32, after
-- which its address repeats. The work list has fuel for all walks along forward edges from the
-- entry, and ends with it. The empty vector of concrete states stands for the memory before the
-- first access. Address 0 stands for no line in the union of address lists, so the joins of may
-- sets are about memories that do not hold line 0.
--
-- What is not modelled
-- Logging, printing and the destructors have no effect on the states. The field `max_size` of an
-- abstract set is never read. The transfer of the FIFO cache maintainer fails an assertion at once.
-- The data flow analyses over the graph with the maintainers that keep all concrete states (FIFO
-- caches and scratchpads), back edges (the analysis ignores them), the parsers, the graph
-- construction, the optimizers of the static scratchpads, the linear program and the reports are
-- not part of the library; nor are log4cxx, boost and lp_solve. The latencies that the analysis of
-- a scratchpad asks the configuration for are parameters (Timing).
pub mod AbsSet
pub mod Bf
pub mod ContextStack
pub mod Dfa
pub mod Disp
pub mod DispDfa
pub mod DmCache
pub mod FifoCache
pub mod FifoDisp
pub mod IcacheDfa
pub mod LruCache
pub mod LruDisp
pub mod MemStateGraph
pub mod MemUsage
pub mod MemoryParams
pub mod Prelude
pub mod StackDisp
