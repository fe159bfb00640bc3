-- ===== src/Pass/Expand/Others.antt =====
-- What the expansion of one block leaves of the others.
use e0256_project_final.Base.{
  ℕ, suc, ◌+◌, ◌≤◌, ◌^◌, ◌≡◌, ◌∙◌, sym, true, false, List, [], ◌∷◌, arith, length,
}
use e0256_project_final.Base.Text.{Text, text_eq, text_eq_iff}
use e0256_project_final.Graaf.{Graaf, Documented, DocumentedEdges, DocumentedLabels}
use e0256_project_final.GraphLib.{LibcCallgraph, get_neighbors}
use e0256_project_final.GraphLib.Kept.{InStep-Kept}
use e0256_project_final.GraphLib.InStep.{InStep}
use e0256_project_final.GraphLib.Joined.{has_name, joined}
use e0256_project_final.GraphLib.Labels.{Labelled}
use e0256_project_final.Pass.Source.{FuncMeta}
use e0256_project_final.Pass.Expand.{call_vertex, chain, last_name, expand_block}
use e0256_project_final.Pass.Expand.Keeps.{chain-Holds, move_edges-Holds}
use e0256_project_final.Pass.Expand.Chain.{
  Fresh, OtherName, has_apart, chain_keeps, chain_others, chain_ends, chain_has, chain_name,
  last_name_fresh,
}
use e0256_project_final.Pass.Expand.Move.{member, move_keeps, move_others, move_has}
use e0256_project_final.Pass.Expand.Spells.{member-get_neighbors, joined-has_name}

-- A name that is not there is none that is.
pub absent_apart :
    (library : Graaf) (g : LibcCallgraph library) (x y : Text)
    → has_name library g x ≡ false
    → has_name library g y ≡ true
    → text_eq x y ≡ false
absent_apart library g x y hx hy = ground (arith, text_eq_iff x y)

module _ (library : Graaf) (documented : Documented library) (edged : DocumentedEdges library)
    (labelled : DocumentedLabels library) where
  last_name_other :
      (block : Text) (n : ℕ) (last : Text) (calls : List Text) (x : Text)
      → 1 ≤ n
      → n + length calls ≤ 2 ^ 31
      → OtherName library documented edged labelled block x
      → text_eq last x ≡ false
      → text_eq (last_name library block n calls last) x ≡ false
  unfolding last_name
  last_name_other block n last [] x one_up small other h = h
  last_name_other block n last (call ∷ calls) x one_up small other h =
      last_name_other block (suc n) (call_vertex block call n) calls x (omega arith) (omega arith)
        other (other call n one_up (omega arith))

  module _ (block call : Text) (calls : List Text) (m : FuncMeta library)
      (h : InStep library documented m.bb_expanded_graph)
      (has_block : has_name library m.bb_expanded_graph block ≡ true)
      (fresh : Fresh library m.bb_expanded_graph block 1)
      (small : 1 + length (call ∷ calls) ≤ 2 ^ 31) where
    abbrev before : LibcCallgraph library
    before = m.bb_expanded_graph

    -- The graph after the expansion of the block.
    abbrev pub after : LibcCallgraph library
    after = (expand_block library (block, call ∷ calls) m).bb_expanded_graph

    abbrev chained : Text × LibcCallgraph library
    chained = chain library block 1 block (call ∷ calls) before

    chained-InStep : InStep library documented chained.1
    chained-InStep =
        chain-Holds library (InStep-Kept library documented) block 1 block (call ∷ calls) before
          (λ _ _. tt) h

    neighbor_named :
        (z : Text)
        → member (get_neighbors library block before) z ≡ true
        → has_name library before z ≡ true
    neighbor_named z e =
        joined-has_name library documented edged labelled before block z
          (sym (member-get_neighbors library documented edged labelled before block z h) ∙ e)

    last_new : has_name library before chained.0 ≡ false
    unfolding call_vertex last_name
    last_new =
        let name =
          chain_name library documented edged labelled block 1 block (call ∷ calls) before in
        let new =
          last_name_fresh library documented edged labelled block 2 (call_vertex block call 1) calls
            before (λ other k above below. fresh other k (omega arith) below) (omega arith)
            (fresh call 1 (omega arith) (omega arith)) in
        rw name new

    block_last : text_eq block chained.0 ≡ false
    block_last = has_apart library before block chained.0 has_block last_new

    pub after-InStep : InStep library documented after
    unfolding expand_block
    after-InStep =
        move_edges-Holds library (InStep-Kept library documented) block chained.0
          (get_neighbors library block before) chained.1 chained-InStep

    -- A labelled edge stays, unless it may be one of the block's own.
    pub after_keeps :
        (x y label : Text)
        → joined library before block y ≡ false
        → Labelled library before x y label
        → Labelled library after x y label
    unfolding expand_block
    after_keeps x y label apart e =
        move_keeps library documented edged labelled block chained.0 block_last
          (get_neighbors library block before) chained.1 x y label chained-InStep
          (member-get_neighbors library documented edged labelled before block y h ∙ apart)
          (chain_keeps library documented edged labelled block 1 block (call ∷ calls) before h
            has_block fresh small x y label e)

    -- Another name is there where it was, with the edges that it had.
    pub after_others :
        (x : Text)
        → text_eq block x ≡ false
        → OtherName library documented edged labelled block x
        → (has_name library after x ≡ has_name library before x)
          × ((y : Text) → joined library after x y ≡ joined library before x y)
    unfolding expand_block last_name
    after_others x apart other =
        let vs = get_neighbors library block before in
        let (same, edges) =
          chain_others library documented edged labelled block 1 block (call ∷ calls) before h
            has_block fresh (omega arith) small x apart other in
        let name =
          chain_name library documented edged labelled block 1 block (call ∷ calls) before in
        let last_apart : text_eq chained.0 x ≡ false = rw name (
          last_name_other block 2 (call_vertex block call 1) calls x (omega arith) (omega arith)
            other (other call 1 (omega arith) (omega arith))) in
        let ends =
          chain_ends library documented edged labelled block call 1 block calls before h has_block
            fresh small in
        let has = chain_has library documented edged labelled block 1 block (call ∷ calls) before in
        (
          move_has library documented edged labelled block chained.0 block_last vs chained.1 x
              ∙ same,
          λ y.
              move_others library documented edged labelled block chained.0 block_last vs chained.1
                x chained-InStep (has block has_block) ends.0 (λ z e. has z (neighbor_named z e))
                apart last_apart y
              ∙ edges y,
        )
