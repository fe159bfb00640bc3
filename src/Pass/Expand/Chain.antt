-- ===== src/Pass/Expand/Chain.antt =====
-- The loop of `ExpandBBGraph` over the calls of a block.
use e0256_project_final.Base.{
  ℕ, suc, ◌+◌, ◌≤◌, ◌<◌, ◌^◌, ◌≡◌, refl, ◌∙◌, false, true, ◌||◌, List, [], ◌∷◌, arith, length,
}
use e0256_project_final.Base.Text.{Text, text_eq, text_eq_refl, text_eq_iff}
use e0256_project_final.Graaf.{Graaf, Documented, DocumentedEdges, DocumentedLabels}
use e0256_project_final.GraphLib.{LibcCallgraph, add_vertex, add_edge}
use e0256_project_final.GraphLib.InStep.{InStep, add_vertex-InStep, add_edge-InStep}
use e0256_project_final.GraphLib.Joined.{
  has_name, joined, joined_ids, there, has_name-add_vertex, joined-add_vertex, has_name-add_edge,
  joined-add_edge,
}
use e0256_project_final.GraphLib.Labels.{
  Labelled, Labelled-has_name, Labelled-add_vertex, Labelled-add_edge, Labelled-new_edge,
}
use e0256_project_final.Pass.Expand.{call_vertex, chain, last_name}
use e0256_project_final.Pass.Expand.Names.{call_vertex_apart}

module _ (library : Graaf) where
  -- From `last` on, edges lead over the vertices of the calls, each with its call for a label.
  abbrev pub Spells : LibcCallgraph library → Text → ℕ → Text → List Text → Type 0
  Spells g block n last [] = Unit {0}
  Spells g block n last (call ∷ calls) =
      Labelled library g last (call_vertex block call n) call
      × Spells g block (suc n) (call_vertex block call n) calls

  -- No vertex has the name of one that stands for a call of the block, from this number on.
  abbrev pub Fresh : LibcCallgraph library → Text → ℕ → Type 0
  Fresh g block n =
      (call : Text) (k : ℕ)
      → n ≤ k
      → k < 2 ^ 31
      → has_name library g (call_vertex block call k) ≡ false

pub has_apart :
    (library : Graaf) (g : LibcCallgraph library) (x y : Text)
    → has_name library g x ≡ true
    → has_name library g y ≡ false
    → text_eq x y ≡ false
has_apart library g x y hx hy = ground (arith, text_eq_iff x y)

pub no_name_joined :
    (library : Graaf) (g : LibcCallgraph library) (x y : Text)
    → has_name library g x ≡ false
    → joined library g x y ≡ false
unfolding has_name there joined joined_ids
no_name_joined library g x y h = ground arith

pub no_name_joined_to :
    (library : Graaf) (g : LibcCallgraph library) (x y : Text)
    → has_name library g y ≡ false
    → joined library g x y ≡ false
unfolding has_name there joined joined_ids
no_name_joined_to library g x y h = ground arith

module _ (library : Graaf) (documented : Documented library) (edged : DocumentedEdges library)
    (labelled : DocumentedLabels library) where
  -- What one round of the loop over the calls makes.
  record Grown (g g' : LibcCallgraph library) (block last call : Text) (n : ℕ) : Type 0 where
    in_step : InStep library documented g'
    there_now : has_name library g' (call_vertex block call n) ≡ true
    fresh : Fresh library g' block (suc n)
    first : Labelled library g' last (call_vertex block call n) call
    no_way_out : (y : Text) → joined library g' (call_vertex block call n) y ≡ false
    kept : (x y label : Text) → Labelled library g x y label → Labelled library g' x y label
    names :
        (x : Text)
        → has_name library g' x ≡ text_eq (call_vertex block call n) x || has_name library g x
    others : (x y : Text) → text_eq last x ≡ false → joined library g' x y ≡ joined library g x y

  grow :
      (g : LibcCallgraph library) (block last call : Text) (n : ℕ)
      → InStep library documented g
      → has_name library g last ≡ true
      → Fresh library g block n
      → n < 2 ^ 31
      → Grown g
          (add_edge library last
            (call_vertex block call n)
            call
            (add_vertex library (call_vertex block call n) false g).1)
          block
          last
          call
          n
  grow g block last call n h has_last fresh small =
      let name = call_vertex block call n in
      let g1 = (add_vertex library name false g).1 in
      let h1 = add_vertex-InStep library documented name false g h in
      let has1 = has_name-add_vertex library documented edged name false g in
      let has2 = has_name-add_edge library documented edged last name call g1 in
      let joined1 = λ (x y : Text). joined-add_vertex library documented edged name false g x y h in
      let absent = fresh call n (omega arith) small in
      let has_last1 : has_name library g1 last ≡ true = ground (arith, has1 last) in
      let has_name1 : has_name library g1 name ≡ true =
        ground (arith, has1 name, text_eq_refl name) in
      let apart = has_apart library g last name has_last absent in
      record {
        in_step = add_edge-InStep library documented last name call g1 h1;
        there_now = has2 name ∙ has_name1;
        fresh = λ other k above below. ground (
          arith,
          has2 (call_vertex block other k),
          has1 (call_vertex block other k),
          fresh other k (omega arith) below,
          call_vertex_apart block call other n k small below (omega arith),
        );
        first =
            Labelled-new_edge library documented edged labelled last name call g1 h1 has_last1
              has_name1 (joined1 last name ∙ no_name_joined_to library g last name absent);
        no_way_out = λ y. ground (
          arith,
          joined-add_edge library documented edged last name call g1 name y h1 has_last1 has_name1,
          joined1 name y,
          no_name_joined library g name y absent,
          apart,
        );
        kept = λ x y label e.
            Labelled-add_edge library documented edged labelled last name call g1 x y label h1
              (ground (
                arith,
                text_eq_iff name y,
                absent,
                (Labelled-has_name library documented edged labelled g x y label e).1,
              ))
              (Labelled-add_vertex library documented edged labelled name false g x y label h e);
        names = λ x. has2 x ∙ has1 x;
        others = λ x y other. ground (
          arith,
          joined-add_edge library documented edged last name call g1 x y h1 has_last1 has_name1,
          joined1 x y,
          other,
        );
      }

  -- The name of no call's vertex of the block.
  abbrev pub OtherName : Text → Text → Type 0
  OtherName block x =
      (call : Text) (k : ℕ) → 1 ≤ k → k < 2 ^ 31 → text_eq (call_vertex block call k) x ≡ false

  -- Another name is there after the loop where it was before, with the edges that it had.
  pub chain_others :
      (block : Text) (n : ℕ) (last : Text) (calls : List Text) (g : LibcCallgraph library)
      → InStep library documented g
      → has_name library g last ≡ true
      → Fresh library g block n
      → 1 ≤ n
      → n + length calls ≤ 2 ^ 31
      → (x : Text) → text_eq last x ≡ false
      → OtherName block x
      → let g' = (chain library block n last calls g).1 in
        (has_name library g' x ≡ has_name library g x)
        × ((y : Text) → joined library g' x y ≡ joined library g x y)
  unfolding chain
  chain_others block n last [] g h has_last fresh one_up small x apart other = (refl, λ y. refl)
  chain_others block n last (call ∷ calls) g h has_last fresh one_up small x apart other =
      let one = grow g block last call n h has_last fresh (omega arith) in
      let away = other call n one_up (omega arith) in
      let rest =
        chain_others block (suc n) (call_vertex block call n) calls _ one.in_step one.there_now
          one.fresh (omega arith) (omega arith) x away other in
      (ground (arith, rest.0, one.names x), λ y. rest.1 y ∙ one.others x y apart)

  -- The loop over the calls keeps the labelled edges that are there.
  pub chain_keeps :
      (block : Text) (n : ℕ) (last : Text) (calls : List Text) (g : LibcCallgraph library)
      → InStep library documented g
      → has_name library g last ≡ true
      → Fresh library g block n
      → n + length calls ≤ 2 ^ 31
      → (x y label : Text) → Labelled library g x y label
      → Labelled library (chain library block n last calls g).1 x y label
  unfolding chain
  chain_keeps block n last [] g h has_last fresh small x y label e = e
  chain_keeps block n last (call ∷ calls) g h has_last fresh small x y label e =
      let one = grow g block last call n h has_last fresh (omega arith) in
      chain_keeps block (suc n) (call_vertex block call n) calls _ one.in_step one.there_now
        one.fresh (omega arith) x y label (one.kept x y label e)

  -- It spells the calls, ends in a name that is there, and leaves that without an edge out of it.
  pub chain-Spells :
      (block : Text) (n : ℕ) (last : Text) (calls : List Text) (g : LibcCallgraph library)
      → InStep library documented g
      → has_name library g last ≡ true
      → Fresh library g block n
      → n + length calls ≤ 2 ^ 31
      → Spells library (chain library block n last calls g).1 block n last calls
  unfolding chain
  chain-Spells block n last [] g h has_last fresh small = tt
  chain-Spells block n last (call ∷ calls) g h has_last fresh small =
      let one = grow g block last call n h has_last fresh (omega arith) in
      let name = call_vertex block call n in
      (
        chain_keeps block (suc n) name calls _ one.in_step one.there_now one.fresh (omega arith)
            last name call one.first,
        chain-Spells block (suc n) name calls _ one.in_step one.there_now one.fresh (omega arith),
      )

  chain_last :
      (block : Text) (n : ℕ) (last : Text) (calls : List Text) (g : LibcCallgraph library)
      → InStep library documented g
      → has_name library g last ≡ true
      → Fresh library g block n
      → n + length calls ≤ 2 ^ 31
      → ((y : Text) → joined library g last y ≡ false)
      → let r = chain library block n last calls g in
        (has_name library r.1 r.0 ≡ true) × ((y : Text) → joined library r.1 r.0 y ≡ false)
  unfolding chain
  chain_last block n last [] g h has_last fresh small alone = (has_last, alone)
  chain_last block n last (call ∷ calls) g h has_last fresh small alone =
      let one = grow g block last call n h has_last fresh (omega arith) in
      chain_last block (suc n) (call_vertex block call n) calls _ one.in_step one.there_now
        one.fresh (omega arith) one.no_way_out

  pub chain_ends :
      (block call : Text) (n : ℕ) (last : Text) (calls : List Text) (g : LibcCallgraph library)
      → InStep library documented g
      → has_name library g last ≡ true
      → Fresh library g block n
      → n + length (call ∷ calls) ≤ 2 ^ 31
      → let r = chain library block n last (call ∷ calls) g in
        (has_name library r.1 r.0 ≡ true) × ((y : Text) → joined library r.1 r.0 y ≡ false)
  unfolding chain
  chain_ends block call n last calls g h has_last fresh small =
      let one = grow g block last call n h has_last fresh (omega arith) in
      chain_last block (suc n) (call_vertex block call n) calls _ one.in_step one.there_now
        one.fresh (omega arith) one.no_way_out

  pub chain_name :
      (block : Text) (n : ℕ) (last : Text) (calls : List Text) (g : LibcCallgraph library)
      → (chain library block n last calls g).0 ≡ last_name library block n calls last
  unfolding chain last_name
  chain_name block n last [] g = refl
  chain_name block n last (call ∷ calls) g =
      chain_name block (suc n) (call_vertex block call n) calls _

  pub last_name_fresh :
      (block : Text) (n : ℕ) (last : Text) (calls : List Text) (g : LibcCallgraph library)
      → Fresh library g block n
      → n + length calls ≤ 2 ^ 31
      → has_name library g last ≡ false
      → has_name library g (last_name library block n calls last) ≡ false
  unfolding last_name
  last_name_fresh block n last [] g fresh small h = h
  last_name_fresh block n last (call ∷ calls) g fresh small h =
      last_name_fresh block (suc n) (call_vertex block call n) calls g
        (λ other k above below. fresh other k (omega arith) below) (omega arith)
        (fresh call n (omega arith) (omega arith))

  pub chain_has :
      (block : Text) (n : ℕ) (last : Text) (calls : List Text) (g : LibcCallgraph library)
      (x : Text)
      → has_name library g x ≡ true
      → has_name library (chain library block n last calls g).1 x ≡ true
  unfolding chain
  chain_has block n last [] g x h = h
  chain_has block n last (call ∷ calls) g x h =
      let name = call_vertex block call n in
      let g1 = (add_vertex library name false g).1 in
      chain_has block (suc n) name calls _ x (
        ground (
          arith,
          has_name-add_edge library documented edged last name call g1 x,
          has_name-add_vertex library documented edged name false g x,
        ))
