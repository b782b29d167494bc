-- ===== src/Domain/Risk/Links.antt =====
-- The edges that the loop of `RiskIntelligenceCapability.execute` keeps are edges of the graph that
-- fit their ends: redforge/capabilities/risk_intelligence.py.
use red_forge.Base.{
  arith, lookup, ◌&&◌, ◌≡◌, refl, ap, Bool, true, ◌||◌, Option, none, some, List, [], ◌∷◌, ◌==◌,
  All, All-append, All-sort_on, Text, text_order, Order, dedup, sort, sorted_set, contains,
  Bool-cases, inl, inr, eq→≡, eq_refl, or_right, pair_order, nat_order, texts_order,
}
use red_forge.Domain.Graph.{
  KnowledgeGraphNode, KnowledgeNodeKind, node_kind_order, KnowledgeRelationKind,
  observed_technology, matches_vulnerability, KnowledgeGraphEdge, KnowledgeGraph, edge_order,
}
use red_forge.Domain.Risk.Edges.{
  is_asset, is_technology, is_vulnerability, both_valid, valid_edge, node_index, is_valid_edge,
  Links, with_link, link_edge, link_edges, ordered_edges, links_of, edge_sort_key,
}

All-dedup {ℓ κ} :
    {A : Type ℓ} ⦃o : Order A⦄ (P : A → Type κ) (xs : List A) → All P xs → All P (dedup xs)
unfolding dedup
All-dedup P [] h = tt
All-dedup P (x ∷ xs) h = elim (Bool-cases (contains x (dedup xs))) [
  | inl e ↦ rw e (All-dedup P xs h.1)
  | inr e ↦ rw e (h.0, All-dedup P xs h.1)
]

pub All-sorted_set {ℓ κ} :
    {A : Type ℓ} ⦃o : Order A⦄ (P : A → Type κ) (xs : List A) → All P xs → All P (sorted_set xs)
unfolding sorted_set sort
All-sorted_set P xs h = All-sort_on (λ x. x) P (dedup xs) (All-dedup P xs h)

members_of :
    (es fs : List KnowledgeGraphEdge)
    → ((e : KnowledgeGraphEdge) → contains e es ≡ true → contains e fs ≡ true)
    → All (λ e. contains e fs ≡ true) es
unfolding contains
members_of [] fs h = tt
members_of (e ∷ es) fs h = (
  h e (ap (λ b. b || contains e es) (eq_refl e)),
  members_of es fs (λ f m. h f (or_right (f == e) (contains f es) m)),
)

all_members : (es : List KnowledgeGraphEdge) → All (λ e. contains e es ≡ true) es
all_members es = members_of es es (λ e m. m)

-- The nodes and their entities are of the kinds that the relation joins.
abbrev pub Fits : KnowledgeRelationKind → KnowledgeGraphNode → KnowledgeGraphNode → Type 0
Fits observed_technology source target =
    (source.kind ≡ KnowledgeNodeKind.asset)
    × (is_asset source.entity ≡ true)
    × (target.kind ≡ KnowledgeNodeKind.technology)
    × (is_technology target.entity ≡ true)
Fits matches_vulnerability source target =
    (source.kind ≡ KnowledgeNodeKind.technology)
    × (is_technology source.entity ≡ true)
    × (target.kind ≡ KnowledgeNodeKind.vulnerability)
    × (is_vulnerability target.entity ≡ true)

four_tests :
    (a b c d : Bool) → (a && b && c && d) ≡ true → (a ≡ true) × (b ≡ true) × (c ≡ true) × (d ≡ true)
four_tests a b c d h = ground arith

valid_edge-Fits :
    (k : KnowledgeRelationKind) (source target : KnowledgeGraphNode)
    → valid_edge k source target ≡ true
    → Fits k source target
unfolding valid_edge
valid_edge-Fits observed_technology source target h =
    let (a, b, c, d) =
      four_tests (source.kind == KnowledgeNodeKind.asset) _
        (target.kind == KnowledgeNodeKind.technology) _ h in
    (
      eq→≡ source.kind KnowledgeNodeKind.asset a,
      b,
      eq→≡ target.kind KnowledgeNodeKind.technology c,
      d,
    )
valid_edge-Fits matches_vulnerability source target h =
    let (a, b, c, d) =
      four_tests (source.kind == KnowledgeNodeKind.technology) _
        (target.kind == KnowledgeNodeKind.vulnerability) _ h in
    (
      eq→≡ source.kind KnowledgeNodeKind.technology a,
      b,
      eq→≡ target.kind KnowledgeNodeKind.vulnerability c,
      d,
    )

both_valid-Fits :
    (k : KnowledgeRelationKind) (s t : Option KnowledgeGraphNode)
    → both_valid k s t ≡ true
    → (source : KnowledgeGraphNode) × (target : KnowledgeGraphNode) × (s ≡ some source)
      × (t ≡ some target)
      × Fits k source target
both_valid-Fits k none t h = absurd (cc)
both_valid-Fits k (some source) none h = absurd (cc)
both_valid-Fits k (some source) (some target) h =
    (source, target, refl, refl, valid_edge-Fits k source target h)

module _ (g : KnowledgeGraph) where
  -- An edge of the graph, of that kind, whose two ends are nodes of the graph that fit the kind.
  abbrev pub IsLink : KnowledgeRelationKind → KnowledgeGraphEdge → Type 0
  IsLink kind e =
      (source : KnowledgeGraphNode) × (target : KnowledgeGraphNode) × (contains e g.edges ≡ true)
      × (e.kind ≡ kind)
      × (lookup e.source_id (node_index g.nodes) ≡ some source)
      × (lookup e.target_id (node_index g.nodes) ≡ some target)
      × Fits kind source target

  -- The graph links the asset to the technology.
  abbrev pub HasTechnology : Text → Text → Type 0
  HasTechnology asset technology =
      (e : KnowledgeGraphEdge) × IsLink observed_technology e
      × (e.source_id ≡ asset)
      × (e.target_id ≡ technology)

  -- The graph links the technology to the vulnerability.
  abbrev pub HasVulnerability : Text → Text → Type 0
  HasVulnerability technology vulnerability =
      (e : KnowledgeGraphEdge) × IsLink matches_vulnerability e
      × (e.source_id ≡ technology)
      × (e.target_id ≡ vulnerability)

  abbrev pub AllLinks : Links → Type 0
  AllLinks l =
      All (IsLink observed_technology) l.observed × All (IsLink matches_vulnerability) l.matched

  with_link-AllLinks :
      (k : KnowledgeRelationKind) (e : KnowledgeGraphEdge) (l : Links)
      → IsLink k e
      → AllLinks l
      → AllLinks (with_link k e l)
  with_link-AllLinks observed_technology e l h k =
      (All-append (IsLink observed_technology) l.observed (e ∷ []) k.0 (h, tt), k.1)
  with_link-AllLinks matches_vulnerability e l h k =
      (k.0, All-append (IsLink matches_vulnerability) l.matched (e ∷ []) k.1 (h, tt))

  is_valid_edge-IsLink :
      (e : KnowledgeGraphEdge)
      → contains e g.edges ≡ true
      → is_valid_edge (node_index g.nodes) e ≡ true
      → IsLink e.kind e
  unfolding is_valid_edge
  is_valid_edge-IsLink e m h =
      let (source, target, s, t, fits) =
        both_valid-Fits e.kind (lookup e.source_id (node_index g.nodes))
          (lookup e.target_id (node_index g.nodes)) h in
      (source, target, m, refl, s, t, fits)

  link_edge-AllLinks :
      (l : Links) (e : KnowledgeGraphEdge)
      → contains e g.edges ≡ true
      → AllLinks l
      → AllLinks (link_edge (node_index g.nodes) l e)
  unfolding link_edge
  link_edge-AllLinks l e m h = elim (Bool-cases (is_valid_edge (node_index g.nodes) e)) [
    | inl t ↦ rw t (with_link-AllLinks e.kind e l (is_valid_edge-IsLink e m t) h)
    | inr t ↦ rw t h
  ]

  link_edges-AllLinks :
      (l : Links) (es : List KnowledgeGraphEdge)
      → All (λ e. contains e g.edges ≡ true) es
      → AllLinks l
      → AllLinks (link_edges (node_index g.nodes) l es)
  unfolding link_edges
  link_edges-AllLinks l [] m h = h
  link_edges-AllLinks l (e ∷ es) m h =
      link_edges-AllLinks (link_edge (node_index g.nodes) l e) es m.1 (link_edge-AllLinks l e m.0 h)

  pub links_of-AllLinks : AllLinks (links_of g)
  unfolding links_of ordered_edges
  links_of-AllLinks =
      link_edges-AllLinks _ (ordered_edges g.edges)
        (All-sort_on edge_sort_key (λ e. contains e g.edges ≡ true) (dedup g.edges)
          (All-dedup (λ e. contains e g.edges ≡ true) g.edges (all_members g.edges)))
        (tt, tt)
