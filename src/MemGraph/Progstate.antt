-- ===== src/MemGraph/Progstate.antt =====
-- definitions.h: `struct abstract_progstate`, its size and the offsets of its fields.
use e0256_project_final.Base.{ℕ}

abbrev pub size : ℕ
size = 24

abbrev pub id : ℕ
id = 8

abbrev pub num_libcalls : ℕ
num_libcalls = 16
