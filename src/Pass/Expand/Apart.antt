-- ===== src/Pass/Expand/Apart.antt =====
-- The blocks of a function whose expansions do not meet.
use e0256_project_final.Base.{
  ℕ, suc, ◌+◌, ◌≤◌, ◌<◌, ◌^◌, ◌≡◌, ◌∙◌, true, false, List, [], ◌∷◌, arith, length,
}
use e0256_project_final.Base.Text.{Text, text_eq, text_eq_iff}
use e0256_project_final.Base.TextMap.{TextMap}
use e0256_project_final.Graaf.{Graaf, Documented, DocumentedEdges, DocumentedLabels}
use e0256_project_final.GraphLib.{LibcCallgraph}
use e0256_project_final.GraphLib.InStep.{InStep}
use e0256_project_final.GraphLib.Joined.{has_name, joined}
use e0256_project_final.Pass.Source.{FuncMeta}
use e0256_project_final.Pass.Expand.{call_vertex, last_name, expand_block}
use e0256_project_final.Pass.Expand.Names.{call_vertex_blocks}
use e0256_project_final.Pass.Expand.Chain.{
  Spells, Fresh, OtherName, has_apart, no_name_joined_to, last_name_fresh,
}
use e0256_project_final.Pass.Expand.Others.{absent_apart, after_others}

-- None of the blocks has the name.
abbrev pub Separate : Text → TextMap (List Text) → Type 0
Separate block [] = Unit {0}
Separate block ((b, calls) ∷ bs) = (text_eq block b ≡ false) × Separate block bs

module _ (library : Graaf) where
  -- Every block has a vertex and calls, fewer than 2 ^ 31; no vertex has the name of one of its
  -- calls' vertices; and no other block has its name.
  abbrev pub Expandable : LibcCallgraph library → TextMap (List Text) → Type 0
  Expandable g [] = Unit {0}
  Expandable g ((b, calls) ∷ bs) =
      ((0 < length calls)
        × (1 + length calls ≤ 2 ^ 31)
        × (has_name library g b ≡ true)
        × Fresh library g b 1
        × Separate b bs)
      × Expandable g bs

  -- Every block is the start of a path that spells its calls, and from the last vertex of the path
  -- edges lead to exactly the names to which the block had edges before.
  abbrev pub Spelled : LibcCallgraph library → LibcCallgraph library → TextMap (List Text) → Type 0
  Spelled g0 g [] = Unit {0}
  Spelled g0 g ((b, calls) ∷ bs) =
      (Spells library g b 1 b calls
        × ((y : Text)
            → joined library g (last_name library b 1 calls []) y ≡ joined library g0 b y))
      × Spelled g0 g bs

  -- No block has an edge to the name.
  abbrev pub Unaimed : LibcCallgraph library → TextMap (List Text) → Text → Type 0
  Unaimed g [] y = Unit {0}
  Unaimed g ((b, calls) ∷ bs) y = (joined library g b y ≡ false) × Unaimed g bs y

  -- The blocks have the same edges in both graphs.
  abbrev pub SameOut : LibcCallgraph library → LibcCallgraph library → TextMap (List Text) → Type 0
  SameOut g g' [] = Unit {0}
  SameOut g g' ((b, calls) ∷ bs) =
      ((y : Text) → joined library g' b y ≡ joined library g b y) × SameOut g g' bs

  pub Spelled-SameOut :
      (g g' final : LibcCallgraph library) (bs : TextMap (List Text))
      → SameOut g g' bs
      → Spelled g' final bs
      → Spelled g final bs
  Spelled-SameOut g g' final [] same h = tt
  Spelled-SameOut g g' final ((b, calls) ∷ bs) same h =
      ((h.0.0, λ y. h.0.1 y ∙ same.0 y), Spelled-SameOut g g' final bs same.1 h.1)

  pub Unaimed-SameOut :
      (g g' : LibcCallgraph library) (bs : TextMap (List Text)) (y : Text)
      → SameOut g g' bs
      → Unaimed g bs y
      → Unaimed g' bs y
  Unaimed-SameOut g g' [] y same h = tt
  Unaimed-SameOut g g' ((b, calls) ∷ bs) y same h =
      (same.0 y ∙ h.0, Unaimed-SameOut g g' bs y same.1 h.1)

  pub absent-Unaimed :
      (g : LibcCallgraph library) (bs : TextMap (List Text)) (y : Text)
      → has_name library g y ≡ false
      → Unaimed g bs y
  absent-Unaimed g [] y h = tt
  absent-Unaimed g ((b, calls) ∷ bs) y h =
      (no_name_joined_to library g b y h, absent-Unaimed g bs y h)

apart_sym : (x y : Text) → text_eq x y ≡ false → text_eq y x ≡ false
apart_sym x y h = ground (arith, text_eq_iff x y, text_eq_iff y x)

module _ (library : Graaf) (documented : Documented library) (edged : DocumentedEdges library)
    (labelled : DocumentedLabels library) where
  -- The name is neither that of a block nor that of a call's vertex of a block.
  abbrev pub Away : TextMap (List Text) → Text → Type 0
  Away [] x = Unit {0}
  Away ((b, calls) ∷ bs) x =
      ((text_eq b x ≡ false) × OtherName library documented edged labelled b x) × Away bs x

  last_name_other_block :
      (block other : Text) (n : ℕ) (call : Text) (k : ℕ) (calls : List Text)
      → text_eq other block ≡ false
      → OtherName library documented edged labelled other
          (last_name library block n calls (call_vertex block call k))
  unfolding last_name
  last_name_other_block block other n call k [] apart call' j one_up below =
      call_vertex_blocks other block call' call j k apart
  last_name_other_block block other n call k (next ∷ calls) apart call' j one_up below =
      last_name_other_block block other (suc n) next n calls apart call' j one_up below

  module _ (block call : Text) (calls : List Text) (m : FuncMeta library)
      (h : InStep library documented m.bb_expanded_graph)
      (has_block : has_name library m.bb_expanded_graph block ≡ true)
      (fresh : Fresh library m.bb_expanded_graph block 1)
      (small : 1 + length (call ∷ calls) ≤ 2 ^ 31) where
    abbrev g : LibcCallgraph library
    g = m.bb_expanded_graph

    abbrev g' : LibcCallgraph library
    g' = (expand_block library (block, call ∷ calls) m).bb_expanded_graph

    -- Another block keeps its edges.
    block_others :
        (b : Text)
        → text_eq block b ≡ false
        → has_name library g b ≡ true
        → (has_name library g' b ≡ has_name library g b)
          × ((y : Text) → joined library g' b y ≡ joined library g b y)
    block_others b apart there =
        after_others library documented edged labelled block call calls m h has_block fresh small b
          apart
          (λ call' k one_up below.
            absent_apart library g (call_vertex block call' k) b (fresh call' k one_up below) there)

    -- Another block stays fresh.
    block-Fresh : (b : Text) → text_eq block b ≡ false → Fresh library g b 1 → Fresh library g' b 1
    block-Fresh b apart new call' k one_up below =
        let absent = new call' k one_up below in
        (after_others library documented edged labelled block call calls m h has_block fresh small
          (call_vertex b call' k)
          (has_apart library g block (call_vertex b call' k) has_block absent)
          (λ call'' j _ _. call_vertex_blocks block b call'' call' j k apart)).0
        ∙ absent

    pub others-Expandable :
        (bs : TextMap (List Text))
        → Separate block bs
        → Expandable library g bs
        → Expandable library g' bs × SameOut library g g' bs
    others-Expandable [] apart ready = (tt, tt)
    others-Expandable ((b, calls') ∷ bs) apart ready =
        let (some_call, few, there, new, separate) = ready.0 in
        let (same, edges) = block_others b apart.0 there in
        let rest = others-Expandable bs apart.1 ready.1 in
        (
          ((some_call, few, same ∙ there, block-Fresh b apart.0 new, separate), rest.0),
          (edges, rest.1),
        )

    pub last_name-Away :
        (bs : TextMap (List Text))
        → Separate block bs
        → Expandable library g bs
        → Away bs (last_name library block 2 calls (call_vertex block call 1))
    last_name-Away [] apart ready = tt
    last_name-Away ((b, calls') ∷ bs) apart ready =
        let (some_call, few, there, new, separate) = ready.0 in
        let last = last_name library block 2 calls (call_vertex block call 1) in
        let absent : has_name library g last ≡ false =
          last_name_fresh library documented edged labelled block 2 (call_vertex block call 1) calls
            g (λ other k above below. fresh other k (omega arith) below) (omega arith)
            (fresh call 1 (omega arith) (omega arith)) in
        (
          (
            has_apart library g b last there absent,
            last_name_other_block block b 2 call 1 calls (apart_sym block b apart.0),
          ),
          last_name-Away bs apart.1 ready.1,
        )
