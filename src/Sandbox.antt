-- ===== src/Sandbox.antt =====
-- kernel/e0256-sandboxing/sandboxing.c: the three system calls over the graph.
pub mod Trace
pub mod Init
pub mod Faults
pub mod Policy
pub mod Lifecycle
pub mod Shared
use e0256_project_final.Base.{ℕ, ◌-◌, ◌^◌, Bool, Option, none, some, ◌==◌, ltb, if◌then◌else◌}
use e0256_project_final.Base.Int.{ℤ, pos, negsuc, word_of_int}
use e0256_project_final.MemGraph.State.{Env, State, ok, exited, fault, ◌>>◌}
use e0256_project_final.MemGraph.Pool.{Buffer, initialize_graph}
use e0256_project_final.MemGraph.Query.{
  reset_progstate, is_state_transition_valid, transition_to_state,
}

-- The static `kernel_buffer`: NULL, an allocation, or a pointer to memory that was freed.
pub data KernelBuffer : Type 0 where
  empty freed : KernelBuffer
  holds : Buffer → KernelBuffer

pub record Kernel : Type 0 where
  pub graph : State
  pub kernel_buffer : KernelBuffer

-- What a system call ends in: a value in `unsigned long` for the caller, the caller killed by
-- `do_exit(SIGKILL)`, or an access that C leaves undefined, in kernel memory.
pub data Reply : Type 0 where
  returns : ℕ → Kernel → Reply
  killed : Kernel → Reply
  broken : Reply

-- What the system answers: whether the feature is configured, whether `kmalloc` grants the size,
-- and the allocator of the graph library.
pub record System : Type 0 where
  pub configured : Bool
  pub kmalloc_grants : ℕ → Bool
  pub env : Env

abbrev pub enosys : ℕ
enosys = 2 ^ 64 - 38

abbrev pub einval : ℕ
einval = 2 ^ 64 - 22

abbrev pub enomem : ℕ
enomem = 2 ^ 64 - 12

abbrev pub efault : ℕ
efault = 2 ^ 64 - 14

-- `kfree(kernel_buffer)`, which does not clear the pointer: `none` is a second free.
unfoldable pub kfree : KernelBuffer → Option KernelBuffer
kfree empty = some empty
kfree freed = none
kfree (holds b) = some freed

-- `initialize_graph(kernel_buffer, size); reset_progstate();`
unfoldable pub start_graph : System → Buffer → ℕ → State → Reply
start_graph sys buffer size g =
    elim ((initialize_graph sys.env (some buffer) size >> reset_progstate) g) [
      | ok _ g' ↦ returns 0 (record { graph = g'; kernel_buffer = holds buffer })
      | exited ↦ broken
      | fault ↦ broken
    ]

-- The loop that prints 20 bytes of the buffer reads past a shorter one.
unfoldable pub use_buffer : System → Buffer → ℕ → State → Reply
unfolding start_graph
use_buffer sys buffer size g = if ltb size 20 then broken else start_graph sys buffer size g

-- `copy_from_user` fails where the process has fewer than `size` bytes at `data`.
unfoldable pub receive : System → Buffer → ℕ → State → Reply
unfolding use_buffer
receive sys user_data size g =
    if ltb user_data.size size
    then returns efault (record { graph = g; kernel_buffer = freed })
    else use_buffer sys (record { size = size; bytes = user_data.bytes }) size g

unfoldable pub accept_data : System → Buffer → ℕ → Kernel → Reply
unfolding kfree receive
accept_data sys user_data size k = elim (kfree k.kernel_buffer) [
  | none ↦ broken
  | some _ ↦
      if sys.kmalloc_grants size
      then receive sys user_data size k.graph
      else returns enomem (record k { kernel_buffer = empty })
]

-- `sandbox_init(data, size)`: `none` is a null `data`.
unfoldable pub sandbox_init : System → Option Buffer → ℕ → Kernel → Reply
unfolding accept_data
sandbox_init sys user_data size k =
    if sys.configured
    then (if size == 0
        then returns einval k
        else elim user_data [ none ↦ returns einval k | some b ↦ accept_data sys b size k ])
    else returns enosys k

unfoldable pub sandbox_cleanup : System → Kernel → Reply
unfolding kfree
sandbox_cleanup sys k =
    if sys.configured
    then elim (kfree k.kernel_buffer) [
      | none ↦ broken
      | some b ↦ returns 0 (record k { kernel_buffer = b })
    ]
    else returns enosys k

unfoldable pub advance : ℕ → Kernel → Reply
advance number k = elim (transition_to_state number k.graph) [
  | ok state g ↦ returns (word_of_int state) (record k { graph = g })
  | exited ↦ broken
  | fault ↦ broken
]

unfoldable pub decide_call : ℕ → ℤ → Kernel → Reply
unfolding advance
decide_call number (pos n) k = if n == 0 then killed k else advance number k
decide_call number (negsuc n) k = advance number k

unfoldable pub sandbox_dummycall : System → ℕ → Kernel → Reply
unfolding decide_call
sandbox_dummycall sys number k =
    if sys.configured
    then elim (is_state_transition_valid number k.graph) [
      | ok valid g ↦ decide_call number valid (record k { graph = g })
      | exited ↦ broken
      | fault ↦ broken
    ]
    else returns 0 k
