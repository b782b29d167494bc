-- ===== src/Domain/Risk/Explicit.antt =====
-- Every assessment stands for an explicit path of the graph.
use red_forge.Base.{
  ◌≡◌, refl, sym, ap, Bool, true, false, Option, none, some, List, [], ◌∷◌, ◌++◌, ◌==◌,
  if◌then◌else◌, map, keep, All, All-append, All-sort_on, Text, text_order, Bool-cases, inl, inr,
  eq→≡, subst, pair_order, nat_order, texts_order,
}
use red_forge.Sdk.Exception.{Attempt, returns, ◌>>=◌, traverse}
use red_forge.Domain.Strings.{Platform}
use red_forge.Domain.Graph.{
  node_kind_order, observed_technology, matches_vulnerability, Asset, Technology, Vulnerability,
  KnowledgeGraphEdge, KnowledgeGraph, edge_order,
}
use red_forge.Domain.Risk.{RiskAssessment, AssessedPath}
use red_forge.Domain.Risk.Bounds.{IsBounded, IsAbout, assessment-IsBounded}
use red_forge.Domain.Risk.Edges.{node_index, Links, links_of, targeting, leaving}
use red_forge.Domain.Risk.Paths.{
  paths_from, paths_over, paths_through, paths_of, preferred, assess_entities, assess_path, collect,
  has_assessment, priority_key, RiskResult, assess_graph, result_of,
}
use red_forge.Domain.Risk.Links.{
  All-sorted_set, IsLink, HasTechnology, HasVulnerability, AllLinks, links_of-AllLinks,
}

module _ (g : KnowledgeGraph) where
  -- The path is one of two links.
  abbrev pub IsExplicit : AssessedPath → Type 0
  IsExplicit path =
      HasTechnology g path.asset_node_id path.technology_node_id
      × HasVulnerability g path.technology_node_id path.vulnerability_node_id

  targeting-HasTechnology :
      (t : Text) (es : List KnowledgeGraphEdge)
      → All (IsLink g observed_technology) es
      → All
          (λ a. HasTechnology g a t)
          (map (λ (e : KnowledgeGraphEdge). e.source_id) (targeting t es))
  unfolding keep
  targeting-HasTechnology t [] h = tt
  targeting-HasTechnology t (e ∷ es) h = elim (Bool-cases (e.target_id == t)) [
    | inl k ↦ rw k ((e, h.0, refl, eq→≡ e.target_id t k), targeting-HasTechnology t es h.1)
    | inr k ↦ rw k (targeting-HasTechnology t es h.1)
  ]

  leaving-HasVulnerability :
      (t : Text) (es : List KnowledgeGraphEdge)
      → All (IsLink g matches_vulnerability) es
      → All
          (λ v. HasVulnerability g t v)
          (map (λ (e : KnowledgeGraphEdge). e.target_id) (leaving t es))
  unfolding keep
  leaving-HasVulnerability t [] h = tt
  leaving-HasVulnerability t (e ∷ es) h = elim (Bool-cases (e.source_id == t)) [
    | inl k ↦ rw k ((e, h.0, eq→≡ e.source_id t k, refl), leaving-HasVulnerability t es h.1)
    | inr k ↦ rw k (leaving-HasVulnerability t es h.1)
  ]

  paths_from-IsExplicit :
      (a t : Text) (vs : List Text)
      → HasTechnology g a t
      → All (λ v. HasVulnerability g t v) vs
      → All IsExplicit (paths_from a t vs)
  unfolding paths_from
  paths_from-IsExplicit a t [] h k = tt
  paths_from-IsExplicit a t (v ∷ vs) h k = ((h, k.0), paths_from-IsExplicit a t vs h k.1)

  paths_over-IsExplicit :
      (us : List Text) (t : Text) (vs : List Text)
      → All (λ a. HasTechnology g a t) us
      → All (λ v. HasVulnerability g t v) vs
      → All IsExplicit (paths_over us t vs)
  unfolding paths_over
  paths_over-IsExplicit [] t vs h k = tt
  paths_over-IsExplicit (a ∷ us) t vs h k =
      All-append IsExplicit (paths_from a t vs) (paths_over us t vs)
        (paths_from-IsExplicit a t vs h.0 k) (paths_over-IsExplicit us t vs h.1 k)

  paths_through-IsExplicit :
      (l : Links) (ts : List Text) → AllLinks g l → All IsExplicit (paths_through l ts)
  unfolding paths_through
  paths_through-IsExplicit l [] h = tt
  paths_through-IsExplicit l (t ∷ ts) h =
      All-append IsExplicit _ (paths_through l ts)
        (paths_over-IsExplicit _ t _
          (All-sorted_set (λ a. HasTechnology g a t) _ (targeting-HasTechnology t l.observed h.0))
          (All-sorted_set (λ v. HasVulnerability g t v) _
            (leaving-HasVulnerability t l.matched h.1)))
        (paths_through-IsExplicit l ts h)

  -- An assessment is of an explicit path, with its scores in their bounds.
  abbrev pub IsExplained : RiskAssessment → Type 0
  IsExplained r =
      HasTechnology g r.asset_node_id r.technology_node_id
      × HasVulnerability g r.technology_node_id r.vulnerability_node_id
      × IsBounded r

  IsExplained-of :
      (path : AssessedPath) (r : RiskAssessment)
      → IsExplicit path
      → IsAbout path r
      → IsBounded r
      → IsExplained r
  IsExplained-of path r h (a, t, v) b = (
    subst (λ x. HasTechnology g x r.technology_node_id) (sym a)
        (subst (λ x. HasTechnology g path.asset_node_id x) (sym t) h.0),
    subst (λ x. HasVulnerability g x r.vulnerability_node_id) (sym t)
        (subst (λ x. HasVulnerability g path.technology_node_id x) (sym v) h.1),
    b,
  )

  assess_entities-IsExplained :
      (p : Platform) (path : AssessedPath) (es : List KnowledgeGraphEdge) (a : Option Asset)
      (t : Option Technology) (v : Option Vulnerability)
      → IsExplicit path
      → (out : List RiskAssessment) × (assess_entities p path es a t v ≡ returns out)
        × All IsExplained out
  unfolding assess_entities
  assess_entities-IsExplained p path [] a t v h = ([], refl, tt)
  assess_entities-IsExplained p path (e ∷ es) none t v h = ([], refl, tt)
  assess_entities-IsExplained p path (e ∷ es) (some a) none v h = ([], refl, tt)
  assess_entities-IsExplained p path (e ∷ es) (some a) (some t) none h = ([], refl, tt)
  assess_entities-IsExplained p path (e ∷ es) (some a) (some t) (some v) h =
      let (r, made, bounded, about, _) = assessment-IsBounded p path a t v (preferred e es) in
      (
        r ∷ [],
        ap (λ (m : Attempt RiskAssessment). m >>= λ q. returns (q ∷ [])) made,
        (IsExplained-of path r h about bounded, tt),
      )

  assess_path-IsExplained :
      (p : Platform) (l : Links) (path : AssessedPath)
      → IsExplicit path
      → (out : List RiskAssessment) × (assess_path p (node_index g.nodes) l path ≡ returns out)
        × All IsExplained out
  unfolding assess_path
  assess_path-IsExplained p l path h = assess_entities-IsExplained p path _ _ _ _ h

  traverse-IsExplained :
      (p : Platform) (l : Links) (paths : List AssessedPath)
      → All IsExplicit paths
      → (found : List (List RiskAssessment)) × (traverse
            (assess_path p (node_index g.nodes) l)
            paths
          ≡ returns found)
        × All (All IsExplained) found
  unfolding traverse
  traverse-IsExplained p l [] h = ([], refl, tt)
  traverse-IsExplained p l (path ∷ paths) h =
      let (out, made, good) = assess_path-IsExplained p l path h.0 in
      let (found, rest, all_good) = traverse-IsExplained p l paths h.1 in
      (out ∷ found, rw (made, rest), (good, all_good))

  kept-IsExplained :
      (found : List RiskAssessment) (r : RiskAssessment) (b : Bool)
      → All IsExplained found
      → IsExplained r
      → All IsExplained (if b then found else found ++ (r ∷ []))
  kept-IsExplained found r true h k = h
  kept-IsExplained found r false h k = All-append IsExplained found (r ∷ []) h (k, tt)

  collect-IsExplained :
      (more : List (List RiskAssessment)) (found : List RiskAssessment)
      → All IsExplained found
      → All (All IsExplained) more
      → All IsExplained (collect found more)
  unfolding collect
  collect-IsExplained [] found h k = h
  collect-IsExplained ([] ∷ more) found h k = collect-IsExplained more found h k.1
  collect-IsExplained ((r ∷ rs) ∷ more) found h k =
      collect-IsExplained more
        (if has_assessment r.identifier found then found else found ++ (r ∷ []))
        (kept-IsExplained found r (has_assessment r.identifier found) h k.0.0) k.1

-- The risk intelligence of a knowledge graph is always computed, and each of its assessments is of an
-- explicit path: the graph has an edge from the asset to the technology and one from the technology to
-- the vulnerability, between nodes of these kinds, and the scores are in their bounds.
pub assess_graph-IsExplained :
    (p : Platform) (g : KnowledgeGraph)
    → (out : RiskResult) × (assess_graph p g ≡ returns out) × All (IsExplained g) out.assessments
unfolding assess_graph paths_of
assess_graph-IsExplained p g =
    let l = links_of g in
    let (found, made, good) =
      traverse-IsExplained g p l (paths_of l)
        (paths_through-IsExplicit g l _ (links_of-AllLinks g)) in
    (
      result_of g l found,
      ap (λ (m : Attempt (List (List RiskAssessment))). m >>= λ f. returns (result_of g l f)) made,
      All-sort_on priority_key (IsExplained g) (collect [] found)
          (collect-IsExplained g found [] tt good),
    )
