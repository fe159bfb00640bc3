-- ===== src/Pass/Expand/Move.antt =====
-- The loop of `ExpandBBGraph` that moves the edges of a block.
use e0256_project_final.Base.{
  ℕ, suc, ◌+◌, ◌≤◌, ◌<◌, ◌^◌, ◌≡◌, refl, ◌∙◌, Bool, false, true, ◌||◌, List, [], ◌∷◌, arith, length,
}
use e0256_project_final.Base.Text.{Text, text_eq, text_eq_refl}
use e0256_project_final.Graaf.{Graaf, Documented, DocumentedEdges, DocumentedLabels}
use e0256_project_final.GraphLib.{LibcCallgraph, add_edge, remove_edge, control}
use e0256_project_final.GraphLib.InStep.{InStep, add_edge-InStep, remove_edge-InStep}
use e0256_project_final.GraphLib.Joined.{has_name, joined, has_name-add_edge, joined-add_edge}
use e0256_project_final.GraphLib.Labels.{
  Labelled, Labelled-add_edge, Labelled-remove_edge, has_name-remove_edge, joined-remove_edge,
}
use e0256_project_final.Pass.Expand.{call_vertex, move_edges}
use e0256_project_final.Pass.Expand.Chain.{Spells}

unfoldable pub member : List Text → Text → Bool
member [] y = false
member (v ∷ vs) y = text_eq v y || member vs y

module _ (library : Graaf) (documented : Documented library) (edged : DocumentedEdges library)
    (labelled : DocumentedLabels library) where
  module _ (start last : Text) (apart : text_eq start last ≡ false) where
    -- Moving the edges of `start` leaves those to other vertices as they are.
    pub move_keeps :
        (vs : List Text) (g : LibcCallgraph library) (x y label : Text)
        → InStep library documented g
        → member vs y ≡ false
        → Labelled library g x y label
        → Labelled library (move_edges library start last vs g) x y label
    unfolding move_edges member
    move_keeps [] g x y label h out e = e
    move_keeps (v ∷ vs) g x y label h out e =
        let g1 = remove_edge library start v g in
        let h1 = remove_edge-InStep library documented start v g h in
        let other : text_eq v y ≡ false = ground arith in
        move_keeps vs _ x y label (add_edge-InStep library documented last v control g1 h1)
          (ground arith)
          (Labelled-add_edge library documented edged labelled last v control g1 x y label h1 other
            (Labelled-remove_edge library documented edged labelled start v g x y label h other e))

    pub move_joined :
        (vs : List Text) (g : LibcCallgraph library) (y : Text)
        → InStep library documented g
        → has_name library g start ≡ true
        → has_name library g last ≡ true
        → ((z : Text) → member vs z ≡ true → has_name library g z ≡ true)
        → joined library (move_edges library start last vs g) last y
          ≡ member vs y || joined library g last y
    unfolding move_edges member
    move_joined [] g y h has_start has_last present = refl
    move_joined (v ∷ vs) g y h has_start has_last present =
        let g1 = remove_edge library start v g in
        let g2 = add_edge library last v control g1 in
        let h1 = remove_edge-InStep library documented start v g h in
        let same = λ (z : Text).
          has_name-add_edge library documented edged last v control g1 z
          ∙ has_name-remove_edge library documented edged labelled start v g z in
        let same1 = has_name-remove_edge library documented edged labelled start v g in
        let has_v = present v (rw (text_eq_refl v) refl) in
        let rest =
          move_joined vs g2 y (add_edge-InStep library documented last v control g1 h1)
            (same start ∙ has_start) (same last ∙ has_last)
            (λ z e. same z ∙ present z (ground arith)) in
        ground (
          arith,
          rest,
          joined-remove_edge library documented edged labelled start v g last y h has_start has_v,
          joined-add_edge library documented edged last v control g1 last y h1
              (same1 last ∙ has_last) (same1 v ∙ has_v),
          text_eq_refl last,
          apart,
        )

    -- The edges of other names stay, and so do all names.
    pub move_others :
        (vs : List Text) (g : LibcCallgraph library) (x : Text)
        → InStep library documented g
        → has_name library g start ≡ true
        → has_name library g last ≡ true
        → ((z : Text) → member vs z ≡ true → has_name library g z ≡ true)
        → text_eq start x ≡ false
        → text_eq last x ≡ false
        → (y : Text)
        → joined library (move_edges library start last vs g) x y ≡ joined library g x y
    unfolding move_edges member
    move_others [] g x h has_start has_last present other other' y = refl
    move_others (v ∷ vs) g x h has_start has_last present other other' y =
        let g1 = remove_edge library start v g in
        let g2 = add_edge library last v control g1 in
        let h1 = remove_edge-InStep library documented start v g h in
        let same = λ (z : Text).
          has_name-add_edge library documented edged last v control g1 z
          ∙ has_name-remove_edge library documented edged labelled start v g z in
        let same1 = has_name-remove_edge library documented edged labelled start v g in
        let has_v = present v (rw (text_eq_refl v) refl) in
        let rest =
          move_others vs g2 x (add_edge-InStep library documented last v control g1 h1)
            (same start ∙ has_start) (same last ∙ has_last)
            (λ z e. same z ∙ present z (ground arith)) other other' y in
        ground (
          arith,
          rest,
          joined-remove_edge library documented edged labelled start v g x y h has_start has_v,
          joined-add_edge library documented edged last v control g1 x y h1 (same1 last ∙ has_last)
              (same1 v ∙ has_v),
          other,
          other',
        )

    pub move_has :
        (vs : List Text) (g : LibcCallgraph library) (x : Text)
        → has_name library (move_edges library start last vs g) x ≡ has_name library g x
    unfolding move_edges
    move_has [] g x = refl
    move_has (v ∷ vs) g x =
        let g1 = remove_edge library start v g in
        move_has vs _ x
        ∙ has_name-add_edge library documented edged last v control g1 x
        ∙ has_name-remove_edge library documented edged labelled start v g x

    pub move-Spells :
        (vs : List Text) (block : Text) (n : ℕ) (from : Text) (calls : List Text)
        (g : LibcCallgraph library)
        → InStep library documented g
        → ((call : Text) (k : ℕ)
            → n ≤ k
            → k < 2 ^ 31
            → member vs (call_vertex block call k) ≡ false)
        → n + length calls ≤ 2 ^ 31
        → Spells library g block n from calls
        → Spells library (move_edges library start last vs g) block n from calls
    move-Spells vs block n from [] g h out small e = tt
    move-Spells vs block n from (call ∷ calls) g h out small e = (
      move_keeps vs g from (call_vertex block call n) call h
          (out call n (omega arith) (omega arith)) e.0,
      move-Spells vs block (suc n) (call_vertex block call n) calls g h
          (λ other k above below. out other k (omega arith) below) (omega arith) e.1,
    )
