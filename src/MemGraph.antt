-- ===== src/MemGraph.antt =====
-- kernel/e0256-sandboxing/memgraphlib
pub mod Bytes
pub mod Metadata
pub mod Progstate
pub mod Libcalls
pub mod State
pub mod Verify
pub mod Pool
pub mod Build
pub mod Query
pub mod Alloc
pub mod Graph
pub mod Runs
pub mod Transition
pub mod RoundTrip
pub mod Storage
pub mod Reload
pub mod Frame
