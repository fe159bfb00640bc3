-- ===== src/Lib.antt =====
-- An in-kernel sandbox that holds each process to the library calls of its own code.
--
-- The program has two halves. The toolchain runs when a program is built: LibcListGen
-- (LibcListGen/LibcFuncDump.cpp) lists the functions of a shared library with their numbers; the
-- LLVM pass (LLVM/LibcCallGraphGen.cpp) reads the listing, makes a graph of library calls of the
-- program's basic blocks with the help of GraphLib (GraphLib/GraphLib.cpp), writes the graph into
-- a memory pool with the functions of memgraphlib
-- (kernel/e0256-sandboxing/memgraphlib/memgraph.c), embeds the bytes of the pool in the program,
-- and puts a system call before each library call. The kernel half
-- (kernel/e0256-sandboxing/sandboxing.c) receives the bytes in `sandbox_init`, verifies them with
-- the same memgraphlib, and kills in `sandbox_dummycall` a process that leaves its graph.
--
-- Files and what they model:
--   Base: the helpers that all share: tests on numbers, lists, texts as lists of bytes, decimal
--     numerals with `std::stoi`, maps with texts for keys, and C's integer conversions.
--   MemGraph: memgraph.c, definitions.h, utils.h and export/memgraph.h. State has the module's
--     static variables as a record and the pool as a function from offsets to bytes; an operation
--     is a function from a state to an outcome: a value and a state, an exit of the process, or a
--     fault, which is an access outside of an allocation. Both builds, kernel and user, are
--     modelled: the macro PRINT_ERROR_AND_EXIT returns in the kernel and exits elsewhere. Alloc
--     has the allocator, Pool create_pool to load_graph, Build alloc_node and finalize_graph,
--     Verify verify_graph, Query reset_progstate, is_state_transition_valid and
--     transition_to_state. Graph is the independent view: a graph as a list of nodes with their
--     edges, how it lies in bytes, and the automaton that it is. Build/Correct, Verify/Accepts,
--     Verify/Refuses, Verify/Sound, Runs, Transition, RoundTrip and Storage relate the two, and
--     Frame has what the queries leave alone. Reload loads into a pool that is there, and
--     Verify/Overflow and Build/Stale have the arrays of node pointers that are too small.
--   Sandbox: sandboxing.c, the three system calls as functions from a kernel state to a reply,
--     over MemGraph; Trace has sequences of calls, Init the way from the toolchain, Policy what a
--     call leaves as it was, Faults the calls that C leaves undefined, Lifecycle a second
--     `sandbox_init`, and Shared the calls of several processes as a step relation.
--   LibcListGen: LibcFuncDump.cpp, over what libelf answers.
--   FileMap: LLVM/LibcCallGraphUtils.h, the reader of the listing.
--   Graaf: the interface of the third-party graph library graaf: its operations, a parameter, and
--     the laws that its documentation and that of its containers state.
--   GraphLib: GraphLib.cpp over Graaf; Names has the agreement of names and ids, InStep what keeps it
--     in both directions, Redirect the loop of `combine_vertex` over the edges, Edges the edges after
--     `combine_vertex`, Joined and Labels the edges between names, and Dot the attributes for DOT
--     output. Kept is the interface of a property of graphs that every operation keeps; InStep fills
--     it, and so do AllLabels and LabelsKept for a property of all labels.
--   Pass: the phases of LibcCallGraphGen.cpp. Source is what the pass reads of a module, Blocks
--     the graph of basic blocks, Expand ExpandBBGraph, Merge ConvertBBGraphToLibcCallGraph,
--     Combine CombineLibcgGraph, InMemory GenerateInMemoryGraph with its call of alloc_node in
--     InMemory/Swapped, its inner loop in InMemory/Rows, what it embeds in InMemory/Embeds and
--     its limit in InMemory/Limit, Inject the injected calls, and Run the phases in their order.
--     Blocks/Edges relates the graph of basic blocks to the function, and Expand/Names, Chain,
--     Move and Spells the path of a block to its calls; Expand/Others, Apart and Function take it
--     over all blocks of a function, and Lists and Compiled to the function's source.
--     Merge/Terminates, Combine/Terminates and Run/Total have their ends, Merge/Loops the control
--     edge of a vertex to itself; Blocks/Keeps, Expand/Keeps, Merge/Keeps and Combine/Keeps carry
--     what the graph operations keep through the phases, for any instance of GraphLib.Kept.
--     Combine/Done has what the last loop leaves, Run/Labels the labels of the final graph,
--     Run/Accepted and Run/Listed the way from the pass into the kernel, and Run/Killed what the
--     program meets there. Run/Changed has the pass's answer whether it changed the module.
--   Applet: busybox/miscutils/syscalltest.c, which hands its graph to the kernel and makes calls.
--   Tests: the theorems at concrete inputs.
--
-- Bounds and fuel: the pool has 2 ^ 20 bytes; words are 64 bits wide and the wrap-around of
-- `unsigned long` and the conversions to `int` are written out. The loops over nodes and edges run
-- on their counts. The merging loops of the pass run on fuel, and more fuel than the graph has
-- names is enough for each of them; the result of the pass tells spent fuel from an exception. A
-- node's number 0 also stands for "no edge", and `walk` in MemGraph.Graph is the automaton with
-- that convention.
--
-- What is a parameter: whether an allocation is granted and what fresh memory holds; copy_from_user
-- as the number of bytes that the process has at the address; the C library's `syscall`; the ELF
-- reader; graaf; `std::hash`. The loop of `combine_vertex` inserts edges into the container that it
-- goes over: which edges it comes to, the inserted ones perhaps among them, and whether the
-- container is rehashed in the loop, is a parameter too. After a rehash C++ leaves the loop
-- undefined. The laws in Graaf then say no more than that it ends and comes to edges that are
-- there, as with libstdc++, and that it comes to all edges is said only where there was no rehash.
-- What is not modelled: LLVM's own data structures, for which Pass.Source has what the pass reads
-- of them; the DOT file, which graaf writes, debugging output and command line options; the tests
-- and the build files.
pub mod Base
pub mod MemGraph
pub mod Sandbox
pub mod LibcListGen
pub mod FileMap
pub mod Graaf
pub mod GraphLib
pub mod Pass
pub mod Applet
pub mod Tests
