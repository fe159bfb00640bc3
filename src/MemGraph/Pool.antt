-- ===== src/MemGraph/Pool.antt =====
-- memgraph.c, the pool allocator: the pool's life, and its way to and from buffers and files.
use e0256_project_final.Base.{ℕ, Bool, Option, none, some, ltb, ◌==◌, if◌then◌else◌}
use e0256_project_final.Base.Int.{pos, negsuc}
use e0256_project_final.MemGraph.Bytes.{Bytes, memset, memcpy}
use e0256_project_final.MemGraph.Metadata
use e0256_project_final.MemGraph.State.{
  Env, Ptr, at, M, ok, exited, ◌>>=◌, ◌>>◌, gets, modify, skip, crash, print_error_and_exit,
  pool_ptr, set_pool_word, memory_pool_size, graph_meta_magic_number, mempool_version,
  node_table_offset,
}
use e0256_project_final.MemGraph.Alloc.{malloc}
use e0256_project_final.MemGraph.Verify.{verify_graph}

-- A region of memory outside the pool: the caller's buffer, or a file's contents.
pub record Buffer : Type 0 where
  pub size : ℕ
  pub bytes : Bytes

-- The pool's bytes are changed as a whole; a pool that is not there is a fault.
unfoldable pub change_pool : (Bytes → Bytes) → M (Unit {0})
change_pool f s = elim s.pool [
  | none ↦ crash s
  | some b ↦ ok tt (record s { pool = some (record b { bytes = f b.bytes }) })
]

-- `MEMSET(pool, 0, size)` and `MEMCPY(pool, src, size)`: both regions must have `size` bytes.
unfoldable pub clear_pool : ℕ → M (Unit {0})
unfolding change_pool memset
clear_pool size = if ltb memory_pool_size size then crash else change_pool (memset size)

unfoldable pub copy_to_pool : Buffer → ℕ → M (Unit {0})
unfolding change_pool memcpy
copy_to_pool src size =
    if ltb memory_pool_size size
    then crash
    else if ltb src.size size
    then crash
    else change_pool (memcpy src.bytes size)

-- What `malloc` leaves in the pool does not matter, since the whole of it is cleared at once.
unfoldable pub create_pool : Env → M (Unit {0})
unfolding malloc clear_pool
create_pool env = do
  got ← malloc env memory_pool_size
  elim got [
    | none ↦ do modify (λ s. record s { pool = none }); print_error_and_exit env.build
    | some serial ↦ do
      modify λ s. record s {
        pool = some (record { serial = serial; bytes = λ _. 0 });
        pool_edge = at serial node_table_offset;
      }
      clear_pool memory_pool_size
      set_pool_word Metadata.total_size memory_pool_size
      set_pool_word Metadata.version mempool_version
      set_pool_word Metadata.magic graph_meta_magic_number
      set_pool_word Metadata.nodes_table_offset node_table_offset
      set_pool_word Metadata.num_nodes 0
  ]

unfoldable pub destroy_pool : M (Unit {0})
destroy_pool = modify (λ s. record s { pool = none })

unfoldable pub get_graph : M Ptr
get_graph = gets (λ s. pool_ptr s.pool 0)

-- `if (pool == NULL) create_pool();`
unfoldable pub ensure_pool : Env → M (Unit {0})
unfolding create_pool
ensure_pool env = do pool ← gets (λ s. s.pool); elim pool [ none ↦ create_pool env | some _ ↦ skip ]

-- `if (verify_graph() != 1) PRINT_ERROR_AND_EXIT(...)`.
unfoldable pub check_graph : Env → M (Unit {0})
check_graph env = do
  result ← verify_graph env
  elim result [
    | pos n ↦ if n == 1 then skip else print_error_and_exit env.build
    | negsuc _ ↦ print_error_and_exit env.build
  ]

unfoldable pub load_buffer : Env → Buffer → ℕ → M (Unit {0})
unfolding copy_to_pool
load_buffer env src size = do copy_to_pool src size; check_graph env

unfoldable pub forget_nodes : M (Unit {0})
forget_nodes = modify (λ s. record s { nodes = none })

-- The pool is cleared before the size is compared with the pool's.
unfoldable pub initialize_graph : Env → Option Buffer → ℕ → M (Unit {0})
unfolding ensure_pool clear_pool load_buffer forget_nodes
initialize_graph env buffer size = do
  ensure_pool env
  clear_pool size
  if ltb memory_pool_size size then print_error_and_exit env.build else elim buffer [
    | none ↦ forget_nodes
    | some src ↦ if ltb 0 size then load_buffer env src size else forget_nodes
  ]

unfoldable pub destroy_graph : M (Unit {0})
unfolding destroy_pool
destroy_graph = do destroy_pool; forget_nodes

-- The user build's `store_graph`: whether the file opens and how many bytes `fwrite` takes are the
-- system's answers. The result is the file's contents.
unfoldable pub store_graph : Bool → ℕ → M Buffer
store_graph opened written s =
    if opened
    then elim s.pool [
      | none ↦ crash s
      | some b ↦
          if written == memory_pool_size
          then ok (record { size = memory_pool_size; bytes = b.bytes }) s
          else exited
    ]
    else exited

-- The user build's `load_graph`: `none` is a file that does not open.
unfoldable pub load_graph : Env → Option Buffer → M (Unit {0})
unfolding ensure_pool copy_to_pool
load_graph env none = λ _. exited
load_graph env (some file) = do
  ensure_pool env
  if ltb file.size memory_pool_size
      then (λ _. exited)
      else do copy_to_pool file memory_pool_size; check_graph env
