-- ===== src/MemGraph/Libcalls.antt =====
-- definitions.h: `struct libcalls`, its size and the offsets of its fields.
use e0256_project_final.Base.{ℕ}

abbrev pub size : ℕ
size = 24

abbrev pub libcallid : ℕ
libcallid = 8

abbrev pub next_progstate : ℕ
next_progstate = 16
