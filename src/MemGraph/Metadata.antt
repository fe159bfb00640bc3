-- ===== src/MemGraph/Metadata.antt =====
-- definitions.h: the fields of `struct graph_metadata`, by their offsets in bytes.
use e0256_project_final.Base.{ℕ}

abbrev pub magic : ℕ
magic = 0

abbrev pub version : ℕ
version = 8

abbrev pub checksum : ℕ
checksum = 16

abbrev pub total_size : ℕ
total_size = 24

abbrev pub graph_finalized : ℕ
graph_finalized = 32

abbrev pub num_nodes : ℕ
num_nodes = 64

abbrev pub nodes_table_offset : ℕ
nodes_table_offset = 72

abbrev pub nodes_table_size : ℕ
nodes_table_size = 80
