-- ===== src/Tests.antt =====
-- The theorems at concrete inputs, and runs of the definitions.
mod Library
mod Graphs
mod Memory
mod Processes
mod Kernels
mod Toolchain
mod Compiler
mod Embedding
