-- ===== src/Graaf.antt =====
-- The directed graph of the graaf library, `graaf::directed_graph<std::string, std::string>`: what
-- GraphLib calls of it, and what its documentation says of these calls and C++ of the container of
-- its edges.
use e0256_project_final.Base.{
  ℕ, Bool, true, false, List, [], ◌∷◌, ◌≡◌, ◌==◌, ◌||◌, ◌&&◌, if◌then◌else◌, ◌⊎◌,
}
use e0256_project_final.Base.Text.{Text}
use mathlib.Core.List.{Memᴰ}

-- `vertex` and `edge` throw for an id that is not in the graph: GraphLib calls them for ids that
-- the library gave it, and here nothing is said of their values elsewhere.
pub record Graaf : Type 1 where
  pub Graph : Type 0
  pub empty : Graph
  pub new_vertex : Text → Graph → ℕ × Graph
  pub insert_edge : ℕ → ℕ → Text → Graph → Graph
  pub delete_edge : ℕ → ℕ → Graph → Graph
  pub delete_vertex : ℕ → Graph → Graph
  pub has_vertex : Graph → ℕ → Bool
  pub vertices : Graph → List (ℕ × Text)
  pub edges : Graph → List ((ℕ × ℕ) × Text)
  pub neighbors : Graph → ℕ → List ℕ
  pub vertex : Graph → ℕ → Text
  pub edge : Graph → ℕ → ℕ → Text
  -- `get_edges` is the container of the edges itself, and not a copy: the edges that a loop over it
  -- comes to, one after the other, where its body goes on to change the graph, and whether the
  -- container is rehashed in the loop.
  pub visited : ((ℕ × ℕ) × Text → Graph → Graph) → Graph → List ((ℕ × ℕ) × Text)
  pub rehashed : ((ℕ × ℕ) × Text → Graph → Graph) → Graph → Bool

unfoldable pub contains : List ℕ → ℕ → Bool
contains [] b = false
contains (j ∷ js) b = (j == b) || contains js b

-- Whether a list of edges has one between these vertices.
unfoldable pub contains_edge : List ((ℕ × ℕ) × Text) → ℕ → ℕ → Bool
contains_edge [] a b = false
contains_edge (((x, y), label) ∷ es) a b = ((x == a) && (y == b)) || contains_edge es a b

module _ (library : Graaf) where
  open library use {
    Graph, empty, new_vertex, insert_edge, delete_edge, delete_vertex, has_vertex, neighbors,
    vertex, edge,
  }

  -- A new vertex has an id that no vertex of the graph has; edges do not touch the vertices; a
  -- deletion takes away its vertex alone; neighbours are vertices.
  pub record Documented : Type 0 where
    pub empty_has : (i : ℕ) → has_vertex empty i ≡ false
    pub new_fresh : (v : Text) (g : Graph) → has_vertex g (new_vertex v g).0 ≡ false
    pub new_has :
        (v : Text) (g : Graph) (i : ℕ)
        → has_vertex (new_vertex v g).1 i ≡ ((new_vertex v g).0 == i) || has_vertex g i
    pub new_vertex_self : (v : Text) (g : Graph) → vertex (new_vertex v g).1 (new_vertex v g).0 ≡ v
    pub new_vertex_other :
        (v : Text) (g : Graph) (i : ℕ)
        → has_vertex g i ≡ true
        → vertex (new_vertex v g).1 i ≡ vertex g i
    pub insert_has :
        (i j : ℕ) (e : Text) (g : Graph) (k : ℕ)
        → has_vertex (insert_edge i j e g) k ≡ has_vertex g k
    pub insert_vertex :
        (i j : ℕ) (e : Text) (g : Graph) (k : ℕ) → vertex (insert_edge i j e g) k ≡ vertex g k
    pub delete_edge_has :
        (i j : ℕ) (g : Graph) (k : ℕ) → has_vertex (delete_edge i j g) k ≡ has_vertex g k
    pub delete_edge_vertex :
        (i j : ℕ) (g : Graph) (k : ℕ) → vertex (delete_edge i j g) k ≡ vertex g k
    pub delete_has :
        (i : ℕ) (g : Graph) (k : ℕ)
        → has_vertex (delete_vertex i g) k ≡ (if i == k then false else has_vertex g k)
    pub delete_vertex_other :
        (i : ℕ) (g : Graph) (k : ℕ)
        → has_vertex (delete_vertex i g) k ≡ true
        → vertex (delete_vertex i g) k ≡ vertex g k
    pub neighbors_has :
        (g : Graph) (i j : ℕ)
        → has_vertex g i ≡ true
        → Memᴰ j (neighbors g i)
        → has_vertex g j ≡ true

  -- Whether there is an edge.
  abbrev pub linked : Graph → ℕ → ℕ → Bool
  linked g a b = contains (neighbors g a) b

  -- The endpoints of the listed edges.
  abbrev pub EndsIn : Graph → List ((ℕ × ℕ) × Text) → Type 0
  EndsIn g [] = Unit {0}
  EndsIn g (((x, y), label) ∷ es) = (has_vertex g x ≡ true) × (has_vertex g y ≡ true) × EndsIn g es

  abbrev pub insert_list : List ((ℕ × ℕ) × Text) → Graph → Graph
  insert_list [] g = g
  insert_list (((x, y), label) ∷ es) g = insert_list es (insert_edge x y label g)

  -- A loop body that does nothing but insert edges between the vertices of the graph.
  abbrev pub OnlyInserts : ((ℕ × ℕ) × Text → Graph → Graph) → Graph → Type 0
  OnlyInserts body g =
      (x y : ℕ) (label : Text) (g' : Graph)
      → ((k : ℕ) → has_vertex g' k ≡ has_vertex g k)
      → has_vertex g x ≡ true
      → has_vertex g y ≡ true
      → (es : List ((ℕ × ℕ) × Text)) × (body ((x, y), label) g' ≡ insert_list es g') × EndsIn g' es

  -- Each edge that the loop comes to is in the graph at that time, with its label.
  abbrev pub Visits : ((ℕ × ℕ) × Text → Graph → Graph) → Graph → List ((ℕ × ℕ) × Text) → Type 0
  Visits body g [] = Unit {0}
  Visits body g (((x, y), label) ∷ es) =
      (has_vertex g x ≡ true)
      × (has_vertex g y ≡ true)
      × (linked g x y ≡ true)
      × (edge g x y ≡ label)
      × Visits body (body ((x, y), label) g) es

  -- `get_edges` lists the edges, which lie between vertices; the empty graph has none, and a new
  -- vertex has none either; an insertion between vertices adds its edge alone, and the deletion of a
  -- vertex takes away the edges at the vertex alone. A loop over `get_edges` whose body inserts
  -- edges comes to edges of the graph alone, those that its body has inserted perhaps among them,
  -- and, where the container is not rehashed, to each edge that was there at first. After a rehash
  -- C++ leaves the loop undefined; of it is said only that it ends and comes to edges that are
  -- there, as with libstdc++, where the loop goes on from the edge that it is at.
  pub record DocumentedEdges : Type 0 where
    pub edges_ends : (g : Graph) → EndsIn g (library.edges g)
    pub edges_linked :
        (g : Graph) (a b : ℕ)
        → has_vertex g a ≡ true
        → has_vertex g b ≡ true
        → contains_edge (library.edges g) a b ≡ linked g a b
    pub new_linked :
        (v : Text) (g : Graph) (a b : ℕ)
        → has_vertex (new_vertex v g).1 a ≡ true
        → has_vertex (new_vertex v g).1 b ≡ true
        → linked (new_vertex v g).1 a b ≡ (has_vertex g a && has_vertex g b) && linked g a b
    pub insert_linked :
        (i j : ℕ) (e : Text) (g : Graph) (a b : ℕ)
        → has_vertex g i ≡ true
        → has_vertex g j ≡ true
        → linked (insert_edge i j e g) a b ≡ ((i == a) && (j == b)) || linked g a b
    pub delete_linked :
        (i : ℕ) (g : Graph) (a b : ℕ)
        → linked (delete_vertex i g) a b ≡ (if (i == a) || (i == b) then false else linked g a b)
    pub visited_there :
        (body : (ℕ × ℕ) × Text → Graph → Graph) (g : Graph)
        → OnlyInserts body g
        → Visits body g (library.visited body g)
    pub visited_all :
        (body : (ℕ × ℕ) × Text → Graph → Graph) (g : Graph)
        → OnlyInserts body g
        → library.rehashed body g ≡ false
        → (a b : ℕ) → has_vertex g a ≡ true
        → has_vertex g b ≡ true
        → linked g a b ≡ true
        → contains_edge (library.visited body g) a b ≡ true

  -- The deletion of an edge takes away that edge alone; an insertion where there is no edge gives
  -- the new one its label, and where there is one it keeps that one's label or gives its own; the
  -- labels of the other edges stay, in the deletion of a vertex too, and `get_edges` lists them.
  pub record DocumentedLabels : Type 0 where
    pub delete_edge_linked :
        (i j : ℕ) (g : Graph) (a b : ℕ)
        → linked (delete_edge i j g) a b ≡ (if (i == a) && (j == b) then false else linked g a b)
    pub insert_label :
        (i j : ℕ) (e : Text) (g : Graph)
        → has_vertex g i ≡ true
        → has_vertex g j ≡ true
        → linked g i j ≡ false
        → edge (insert_edge i j e g) i j ≡ e
    pub insert_label_other :
        (i j : ℕ) (e : Text) (g : Graph) (a b : ℕ)
        → linked g a b ≡ true
        → (i == a) && (j == b) ≡ false
        → edge (insert_edge i j e g) a b ≡ edge g a b
    pub delete_edge_label :
        (i j : ℕ) (g : Graph) (a b : ℕ)
        → linked g a b ≡ true
        → (i == a) && (j == b) ≡ false
        → edge (delete_edge i j g) a b ≡ edge g a b
    pub new_label :
        (v : Text) (g : Graph) (a b : ℕ)
        → linked g a b ≡ true
        → edge (new_vertex v g).1 a b ≡ edge g a b
    pub insert_again :
        (i j : ℕ) (e : Text) (g : Graph)
        → has_vertex g i ≡ true
        → has_vertex g j ≡ true
        → linked g i j ≡ true
        → (edge (insert_edge i j e g) i j ≡ e) ⊎ (edge (insert_edge i j e g) i j ≡ edge g i j)
    pub delete_label :
        (i : ℕ) (g : Graph) (a b : ℕ)
        → linked (delete_vertex i g) a b ≡ true
        → edge (delete_vertex i g) a b ≡ edge g a b
    pub edges_label :
        (g : Graph) (a b : ℕ) (label : Text)
        → Memᴰ ((a, b), label) (library.edges g)
        → edge g a b ≡ label

  -- `get_vertices` lists every vertex with what it holds.
  pub record DocumentedVertices : Type 0 where
    pub vertices_listed :
        (g : Graph) (i : ℕ) → has_vertex g i ≡ true → Memᴰ (i, vertex g i) (library.vertices g)
