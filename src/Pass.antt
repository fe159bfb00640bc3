-- ===== src/Pass.antt =====
-- LLVM/LibcCallGraphGen.cpp: the pass over a module.
pub mod Source
pub mod Blocks
pub mod Expand
pub mod Merge
pub mod Combine
pub mod InMemory
pub mod Inject
pub mod Run
