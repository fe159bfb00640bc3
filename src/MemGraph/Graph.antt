-- ===== src/MemGraph/Graph.antt =====
-- The automaton that the bytes of a pool stand for: what is stored where, and how it steps.
use native.Mathlib.Nat.{add-zero, add_assoc}
use e0256_project_final.Base.{
  ℕ, zero, suc, ◌+◌, ◌*◌, ◌≤◌, ◌<◌, ◌^◌, ◌≡◌, List, [], ◌∷◌, none, some, arith, length, get_elem?,
  true, false, some_inj, Option, ◌==◌, if◌then◌else◌, sym, subst, refl,
}
use e0256_project_final.MemGraph.Bytes.{Bytes, read_le}
use e0256_project_final.MemGraph.Progstate
use e0256_project_final.MemGraph.Libcalls
use e0256_project_final.MemGraph.State.{node_magic_number, edge_magic_number}

pub record Edge : Type 0 where
  pub libcallid : ℕ
  pub next_progstate : ℕ

pub record Node : Type 0 where
  pub id : ℕ
  pub edges : List Edge

abbrev pub Graph : Type 0
Graph = List Node

-- The sizes of the stored forms, and where the node of an index starts.
abbrev pub node_size : Node → ℕ
node_size n = Progstate.size + Libcalls.size * length n.edges

abbrev pub graph_size : Graph → ℕ
graph_size [] = 0
graph_size (n ∷ g) = node_size n + graph_size g

abbrev pub node_offset : Graph → ℕ → ℕ
node_offset [] i = 0
node_offset (n ∷ g) zero = 0
node_offset (n ∷ g) (suc i) = node_size n + node_offset g i

pub length-le-graph_size : (g : Graph) → length g ≤ graph_size g
length-le-graph_size [] = omega arith
length-le-graph_size (n ∷ g) = omega (arith, length-le-graph_size g)

-- The bytes `m` hold these edges, this node, these nodes from address `a`.
abbrev pub EdgesAt : Bytes → ℕ → List Edge → Type 0
EdgesAt m a [] = Unit {0}
EdgesAt m a (e ∷ es) =
    (read_le 8 m a ≡ edge_magic_number)
    × (read_le 8 m (a + Libcalls.libcallid) ≡ e.libcallid)
    × (read_le 8 m (a + Libcalls.next_progstate) ≡ e.next_progstate)
    × EdgesAt m (a + Libcalls.size) es

pub record NodeAt (m : Bytes) (a : ℕ) (n : Node) : Type 0 where
  pub magic : read_le 8 m a ≡ node_magic_number
  pub id : read_le 8 m (a + Progstate.id) ≡ n.id
  pub count : read_le 8 m (a + Progstate.num_libcalls) ≡ length n.edges
  pub edges : EdgesAt m (a + Progstate.size) n.edges

abbrev pub NodesAt : Bytes → ℕ → Graph → Type 0
NodesAt m a [] = Unit {0}
NodesAt m a (n ∷ g) = NodeAt m a n × NodesAt m (a + node_size n) g

-- Every next state fits an `int`, and so comes through the conversions unchanged.
abbrev pub EdgesFit : List Edge → Type 0
EdgesFit [] = Unit {0}
EdgesFit (e ∷ es) = (e.next_progstate < 2 ^ 31) × EdgesFit es

abbrev pub NodesFit : Graph → Type 0
NodesFit [] = Unit {0}
NodesFit (n ∷ g) = EdgesFit n.edges × NodesFit g

-- The automaton: the next state of the first edge for the call, where 0 means that there is none.
unfoldable pub edge_target : List Edge → ℕ → ℕ
edge_target [] c = 0
edge_target (e ∷ es) c = if e.libcallid == c then e.next_progstate else edge_target es c

pub edge_target-nil : (c : ℕ) → edge_target [] c ≡ 0
unfolding edge_target
edge_target-nil c = refl

unfoldable pub target : Graph → ℕ → ℕ → ℕ
target g q c = elim (get_elem? g q) [ none ↦ 0 | some n ↦ edge_target n.edges c ]

pub NodesAt-get :
    (m : Bytes) (a : ℕ) (g : Graph) (i : ℕ) (n : Node)
    → NodesAt m a g
    → get_elem? g i ≡ some n
    → NodeAt m (a + node_offset g i) n
NodesAt-get m a [] i n h e = cc
NodesAt-get m a (x ∷ g) zero n h e =
    subst (λ k. NodeAt m k n) (sym (add-zero a)) (subst (NodeAt m a) (some_inj e) h.0)
NodesAt-get m a (x ∷ g) (suc i) n h e =
    subst (λ k. NodeAt m k n) (add_assoc a (node_size x) (node_offset g i))
      (NodesAt-get m (a + node_size x) g i n h.1 e)

pub node_offset-le :
    (g : Graph) (i : ℕ) (n : Node)
    → get_elem? g i ≡ some n
    → node_offset g i + node_size n ≤ graph_size g
node_offset-le [] i n e = ground arith
node_offset-le (x ∷ g) zero n e = ground arith
node_offset-le (x ∷ g) (suc i) n e = ground (arith, node_offset-le g i n)

pub NodesFit-get :
    (g : Graph) (i : ℕ) (n : Node) → NodesFit g → get_elem? g i ≡ some n → EdgesFit n.edges
NodesFit-get [] i n h e = cc
NodesFit-get (x ∷ g) zero n h e = subst (λ (k : Node). EdgesFit k.edges) (some_inj e) h.0
NodesFit-get (x ∷ g) (suc i) n h e = NodesFit-get g i n h.1 e

pub edge_target-fits : (es : List Edge) (c : ℕ) → EdgesFit es → edge_target es c < 2 ^ 31
unfolding edge_target
edge_target-fits [] c h = omega arith
edge_target-fits (e ∷ es) c h = ground (arith, edge_target-fits es c)

-- Every edge leads to one of the first `k` nodes.
abbrev pub EdgesClosed : ℕ → List Edge → Type 0
EdgesClosed k [] = Unit {0}
EdgesClosed k (e ∷ es) = (e.next_progstate < k) × EdgesClosed k es

abbrev pub NodesClosed : ℕ → Graph → Type 0
NodesClosed k [] = Unit {0}
NodesClosed k (n ∷ g) = EdgesClosed k n.edges × NodesClosed k g

edge_target-lt : (k : ℕ) (es : List Edge) (c : ℕ) → 0 < k → EdgesClosed k es → edge_target es c < k
unfolding edge_target
edge_target-lt k [] c h closed = h
edge_target-lt k (e ∷ es) c h closed = ground (arith, edge_target-lt k es c)

pub target-lt : (k : ℕ) (g : Graph) (q c : ℕ) → 0 < k → NodesClosed k g → target g q c < k
unfolding target
target-lt k [] q c h closed = h
target-lt k (n ∷ g) zero c h closed = edge_target-lt k n.edges c h closed.0
target-lt k (n ∷ g) (suc q) c h closed = target-lt k g q c h closed.1

-- The run of the automaton over the calls from node `q`: the node it ends at, or `none` where a
-- call has no edge.
unfoldable pub walk : Graph → ℕ → List ℕ → Option ℕ
walk g q [] = some q
walk g q (c ∷ cs) = let rest = walk g (target g q c) cs in if target g q c == 0 then none else rest

pub walk_none : (g : Graph) (q : ℕ) → walk g q [] ≡ some q
unfolding walk
walk_none g q = refl

pub walk_stop :
    (g : Graph) (q c : ℕ) (cs : List ℕ) → (target g q c == 0) ≡ true → walk g q (c ∷ cs) ≡ none
unfolding walk
walk_stop g q c cs h = rw h

pub walk_more :
    (g : Graph) (q c : ℕ) (cs : List ℕ)
    → (target g q c == 0) ≡ false
    → walk g q (c ∷ cs) ≡ walk g (target g q c) cs
unfolding walk
walk_more g q c cs h = rw h
