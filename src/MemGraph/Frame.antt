-- ===== src/MemGraph/Frame.antt =====
-- What the query functions of memgraph.c leave alone, whatever the bytes of the pool are.
use e0256_project_final.Base.{
  ℕ, zero, suc, ◌≡◌, ap, ◌∙◌, Bool, true, false, ◌==◌, leb, if◌then◌else◌, arith, Bool-cases, inl,
  inr,
}
use e0256_project_final.Base.Int.{pos, word_of_int, int_of_word}
use e0256_project_final.MemGraph.State.{
  State, Ptr, null, undef, at, ok, M, ◌>>=◌, return, bind_inv, node_magic_number, edge_magic_number,
  load64, pool_word, get_node, offset,
}
use e0256_project_final.MemGraph.Libcalls
use e0256_project_final.MemGraph.Metadata
use e0256_project_final.MemGraph.Verify.{error_invalid_state}
use e0256_project_final.MemGraph.Progstate
use e0256_project_final.MemGraph.Query.{
  enter, find_edge, search_edges, is_state_transition_valid, follow, transition_to_state,
}

-- A computation that only reads.
abbrev pub Reads : {A : Type 0} → M A → Type 0
Reads {A} m = (s t : State) (v : A) → m s ≡ ok v t → t ≡ s

return-Reads : {A : Type 0} (a : A) → Reads (return a)
return-Reads a s t v h = cc

bind-Reads :
    {A B : Type 0} (m : M A) (f : A → M B) → Reads m → ((a : A) → Reads (f a)) → Reads (m >>= f)
bind-Reads m f reads after s t v h =
    let (a, u, first, second) = bind_inv m f s t h in after a u t v second ∙ reads s u a first

load64-Reads : (p : Ptr) → Reads (load64 p)
unfolding load64
load64-Reads null s t v h = cc
load64-Reads undef s t v h = cc
load64-Reads (at i a) s t v h = ground arith

find_edge-Reads : (k : ℕ) (p : Ptr) (c : ℕ) → Reads (find_edge k p c)
unfolding find_edge
find_edge-Reads zero p c = return-Reads (pos 0)
find_edge-Reads (suc k) p c =
    bind-Reads (load64 (offset p Libcalls.libcallid)) _ (load64-Reads (offset p Libcalls.libcallid))
      λ id. elim (Bool-cases (id == c)) [
        | inl same ↦ rw same (
            bind-Reads (load64 (offset p Libcalls.next_progstate)) _
              (load64-Reads (offset p Libcalls.next_progstate))
              λ next. return-Reads (int_of_word next))
        | inr other ↦ rw other (find_edge-Reads k (offset p Libcalls.size) c)
      ]

if-Reads : {A : Type 0} (b : Bool) (m n : M A) → Reads m → Reads n → Reads (if b then m else n)
if-Reads true m n hm hn = hm
if-Reads false m n hm hn = hn

search_edges-Reads : (p : Ptr) (c : ℕ) → Reads (search_edges p c)
unfolding search_edges
search_edges-Reads p c =
    bind-Reads (load64 (offset p Progstate.size)) _ (load64-Reads (offset p Progstate.size))
      λ magic.
        if-Reads (magic == edge_magic_number) _ _
          (bind-Reads (load64 (offset p Progstate.num_libcalls)) _
            (load64-Reads (offset p Progstate.num_libcalls))
            λ n. find_edge-Reads n (offset p Progstate.size) c)
          (return-Reads (pos 0))

-- `is_state_transition_valid` changes nothing.
pub valid-Reads : (c : ℕ) → Reads (is_state_transition_valid c)
unfolding is_state_transition_valid
valid-Reads c s t v h =
    bind-Reads (load64 s.start_node) _ (load64-Reads s.start_node)
      (λ magic.
        if-Reads (magic == node_magic_number) _ _ (search_edges-Reads s.start_node c)
          (return-Reads (pos 0)))
      s t v h

-- A computation that leaves the pool and the array of nodes as they are.
abbrev pub Keeps : {A : Type 0} → M A → Type 0
Keeps {A} m = (s t : State) (v : A) → m s ≡ ok v t → (t.pool ≡ s.pool) × (t.nodes ≡ s.nodes)

Keeps-Reads : {A : Type 0} (m : M A) → Reads m → Keeps m
Keeps-Reads m reads s t v h =
    let e = reads s t v h in (ap (λ (x : State). x.pool) e, ap (λ (x : State). x.nodes) e)

bind-Keeps :
    {A B : Type 0} (m : M A) (f : A → M B) → Keeps m → ((a : A) → Keeps (f a)) → Keeps (m >>= f)
bind-Keeps m f keeps after s t v h =
    let (a, u, first, second) = bind_inv m f s t h in
    let k1 = keeps s u a first in let k2 = after a u t v second in (k2.0 ∙ k1.0, k2.1 ∙ k1.1)

if-Keeps : {A : Type 0} (b : Bool) (m n : M A) → Keeps m → Keeps n → Keeps (if b then m else n)
if-Keeps true m n hm hn = hm
if-Keeps false m n hm hn = hn

enter-Keeps : (q : ℕ) → Keeps (enter q)
unfolding enter get_node
enter-Keeps q s t v h = ground arith

follow-Keeps : (c : ℕ) → Keeps (follow c)
unfolding follow
follow-Keeps c =
    bind-Keeps (is_state_transition_valid c) _
      (Keeps-Reads (is_state_transition_valid c) (valid-Reads c))
      λ result.
        if-Keeps (word_of_int result == 0) _ _ (Keeps-Reads _ (return-Reads error_invalid_state)) (
          bind-Keeps (enter (word_of_int result)) _ (enter-Keeps (word_of_int result))
            λ u. Keeps-Reads _ (return-Reads (int_of_word (word_of_int result))))

pool_word-Reads : (a : ℕ) → Reads (pool_word a)
unfolding pool_word
pool_word-Reads a s t v h = ground arith

-- Whatever is in the pool, `transition_to_state`, where it returns, leaves the pool and the array of
-- nodes as they are.
pub transition-Keeps : (c : ℕ) → Keeps (transition_to_state c)
unfolding transition_to_state
transition-Keeps c s t v h =
    bind-Keeps (pool_word Metadata.num_nodes) _
      (Keeps-Reads (pool_word Metadata.num_nodes) (pool_word-Reads Metadata.num_nodes))
      (λ num.
        if-Keeps (leb num s.current_progstate) _ _
          (Keeps-Reads _ (return-Reads error_invalid_state)) (follow-Keeps c))
      s t v h
