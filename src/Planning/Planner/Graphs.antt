-- ===== src/Planning/Planner/Graphs.antt =====
-- The edges between the selected capabilities, and the order: it ends within its fuel.
use red_forge.Base.{
  ◌≡◌, refl, sym, ◌∙◌, subst, Bool, true, ◌&&◌, ◌||◌, List, [], ◌∷◌, ◌++◌, map, arith, Bool-cases,
  inl, inr, contains, distinct, subset, keep, sort, contains-sort, distinct-sort, contains-append,
  ◌==◌, eq→≡, Order, nat_order, keys, lookup, has, lookup-put, length, subset_of, Dict,
}
use red_forge.Sdk.StateKey.{PipelineStateKey, key_order}
use red_forge.Sdk.Exception.{
  out_of_fuel, returns, raises, >>=-eq-returns, >>=-eq-raises, require->>-eq-raises,
}
use red_forge.Sdk.CapabilityId.{CapabilityId, id_order}
use red_forge.Sdk.Definition.{CapabilityDefinition}
use red_forge.Planning.Model.{is_empty}
use red_forge.Planning.Planner.{
  Edges, edges_of, add_edge, connect, connect_all, no_edges, initially_ready, order_by,
  topological_order, single_selected_producer, unresolved,
}
use red_forge.Planning.Planner.Walks.{distinct-snoc}
use red_forge.Planning.Planner.Fuel.{single_raises}
use red_forge.Planning.Planner.Drains.{IsDraining, drain-has_fuel, empty_of}

module _ {ℓ} {A : Type ℓ} ⦃o : Order A⦄ where
  kept :
      (p : A → Bool) (a : A) (xs : List A)
      → contains a (keep p xs) ≡ true
      → (p a ≡ true) × (contains a xs ≡ true)
  unfolding keep contains
  kept p a [] h = absurd (cc)
  kept p a (x ∷ xs) h = elim (Bool-cases (a == x)) [
    | inl e ↦
        let same = eq→≡ a x e in
        elim (Bool-cases (p x)) [
          | inl q ↦ (subst (λ y. p y ≡ true) (sym same) q, rw e refl)
          | inr q ↦ let (r, m) = kept p a xs (ground arith) in absurd (cc (same, q, r))
        ]
    | inr e ↦ let (r, m) = kept p a xs (ground arith) in (r, rw e m)
  ]

  distinct-keep : (p : A → Bool) (xs : List A) → distinct xs ≡ true → distinct (keep p xs) ≡ true
  unfolding keep distinct
  distinct-keep p [] h = refl
  distinct-keep p (x ∷ xs) h =
      let rest = distinct-keep p xs (ground arith) in
      elim (Bool-cases (contains x (keep p xs))) [
        | inl e ↦ let (r, m) = kept p x xs e in absurd (ground arith)
        | inr e ↦ ground arith
      ]

contains-edges_of-add_edge :
    (i n j k : CapabilityId) (edges : Edges)
    → contains k (edges_of j (add_edge i n edges))
      ≡ (contains k (edges_of j edges) || (j == i && k == n))
unfolding add_edge edges_of contains
contains-edges_of-add_edge i n j k edges = ground (
  arith,
  lookup-put i j (edges_of i edges ++ n ∷ []) edges,
  contains-append k (edges_of i edges) (n ∷ []),
  eq→≡ j i,
  eq→≡ k n,
)

distinct-edges_of-add_edge :
    (i n j : CapabilityId) (edges : Edges)
    → ((m : CapabilityId) → distinct (edges_of m edges) ≡ true)
    → distinct (edges_of j (add_edge i n edges)) ≡ true
unfolding add_edge edges_of
distinct-edges_of-add_edge i n j edges once = ground (
  arith,
  lookup-put i j (edges_of i edges ++ n ∷ []) edges,
  distinct-snoc (edges_of i edges) n (once i),
  once j,
)

-- The dependents of a capability are the capabilities that depend on it.
pub record IsGraph (selected : Dict CapabilityId CapabilityDefinition) (edges : Edges × Edges)
    : Type 0 where
  pub mirrored :
      (n i : CapabilityId) → contains i (edges_of n edges.1) ≡ contains n (edges_of i edges.0)
  pub once : (n : CapabilityId) → distinct (edges_of n edges.1) ≡ true
  pub known : (n i : CapabilityId) → contains i (edges_of n edges.1) ≡ true → has i selected ≡ true

no_edges_at :
    (i : CapabilityId) (ks : List CapabilityId)
    → edges_of i (map (λ (k : CapabilityId). (k, [])) ks) ≡ []
unfolding edges_of lookup
no_edges_at i [] = refl
no_edges_at i (k ∷ ks) = ground (arith, no_edges_at i ks)

no_edges-IsGraph :
    (selected : Dict CapabilityId CapabilityDefinition)
    → IsGraph selected (no_edges selected, no_edges selected)
unfolding contains distinct
no_edges-IsGraph selected = record {
  mirrored = λ n i. rw (no_edges_at n (keys selected), no_edges_at i (keys selected)) refl;
  once = λ n. rw (no_edges_at n (keys selected)) refl;
  known = λ n i h. absurd (cc (rw (no_edges_at n (keys selected)) at h));
}

module _ (selected : Dict CapabilityId CapabilityDefinition)
    (available : List PipelineStateKey) where
  add_edge-IsGraph :
      (name producer : CapabilityId) (dependencies dependents : Edges)
      → has name selected ≡ true
      → IsGraph selected (dependencies, dependents)
      → IsGraph selected (add_edge name producer dependencies, add_edge producer name dependents)
  add_edge-IsGraph name producer dependencies dependents there ok = record {
    mirrored = λ n i. ground (
      arith,
      contains-edges_of-add_edge producer name n i dependents,
      contains-edges_of-add_edge name producer i n dependencies,
      ok.mirrored n i,
    );
    once = λ n. distinct-edges_of-add_edge producer name n dependents ok.once;
    known = λ n i h.
        let in_or_new = sym (contains-edges_of-add_edge producer name n i dependents) ∙ h in
        elim (Bool-cases (contains i (edges_of n dependents))) [
          | inl e ↦ ok.known n i e
          | inr e ↦
              let new : (i == name) ≡ true = ground arith in
              subst (λ j. has j selected ≡ true) (sym (eq→≡ i name new)) there
        ];
  }

  connect-IsGraph :
      (name : CapabilityId) (needed : List PipelineStateKey) (edges edges' : Edges × Edges)
      → has name selected ≡ true
      → IsGraph selected edges
      → connect selected available name needed edges ≡ returns edges'
      → IsGraph selected edges'
  unfolding connect
  connect-IsGraph name [] edges edges' there ok h =
      let same : edges ≡ edges' = ground arith in subst (IsGraph selected) same ok
  connect-IsGraph name (key ∷ needed) (dependencies, dependents) edges' there ok h =
      elim (Bool-cases (contains key available)) [
        | inl e ↦ connect-IsGraph name needed (dependencies, dependents) edges' there ok (rw e at h)
        | inr e ↦
            let (d, p, q) = >>=-eq-returns (single_selected_producer key selected) _ (rw e at h) in
            connect-IsGraph name needed _ edges' there
              (add_edge-IsGraph name d.capability_id dependencies dependents there ok) q
      ]

  connect_all-IsGraph :
      (rest : Dict CapabilityId CapabilityDefinition) (edges edges' : Edges × Edges)
      → subset (keys rest) (keys selected) ≡ true
      → IsGraph selected edges
      → connect_all selected available rest edges ≡ returns edges'
      → IsGraph selected edges'
  unfolding connect_all subset has
  connect_all-IsGraph [] edges edges' sub ok h =
      let same : edges ≡ edges' = ground arith in subst (IsGraph selected) same ok
  connect_all-IsGraph ((name, d) ∷ rest) edges edges' sub ok h =
      let (between, p, q) = >>=-eq-returns (connect selected available name d.requires edges) _ h in
      connect_all-IsGraph rest between edges' (ground arith)
        (connect-IsGraph name d.requires edges between (ground arith) ok p) q

  initially_ready-IsDraining :
      (edges : Edges × Edges)
      → distinct (keys selected) ≡ true
      → IsGraph selected edges
      → IsDraining selected edges.1 edges.0 (initially_ready selected edges.0) []
  unfolding initially_ready contains distinct has
  initially_ready-IsDraining edges once ok =
      let ks = keep (λ i. is_empty (edges_of i edges.0)) (keys selected) in
      let found : (i : CapabilityId)
          → contains i (sort ks) ≡ true
          → (is_empty (edges_of i edges.0) ≡ true) × (contains i (keys selected) ≡ true) =
        λ i h.
          kept (λ j. is_empty (edges_of j edges.0)) i (keys selected)
            (sym (contains-sort i ks) ∙ h) in
      record {
        ready_idle = λ i h. empty_of (edges_of i edges.0) (found i h).0;
        done_idle = λ i h. absurd (cc);
        ready_once = distinct-sort ks ∙ distinct-keep _ (keys selected) once;
        done_once = refl;
        apart = λ i h. refl;
        ready_known = λ i h. (found i h).1;
        done_known = λ i h. absurd (cc);
        waits = λ n i h fresh. sym (ok.mirrored n i) ∙ h;
      }

  connect-has_fuel :
      (name : CapabilityId) (needed : List PipelineStateKey) (edges : Edges × Edges)
      → connect selected available name needed edges ≡ raises out_of_fuel
      → ⊥
  unfolding connect single_selected_producer
  connect-has_fuel name [] edges h = cc
  connect-has_fuel name (key ∷ needed) (dependencies, dependents) h =
      elim (Bool-cases (contains key available)) [
        | inl e ↦ connect-has_fuel name needed (dependencies, dependents) (rw e at h)
        | inr e ↦ elim (>>=-eq-raises (single_selected_producer key selected) _ (rw e at h)) [
          | inl p ↦ single_raises key _ _ p
          | inr (d, p, q) ↦ connect-has_fuel name needed _ q
        ]
      ]

  connect_all-has_fuel :
      (rest : Dict CapabilityId CapabilityDefinition) (edges : Edges × Edges)
      → connect_all selected available rest edges ≡ raises out_of_fuel
      → ⊥
  unfolding connect_all
  connect_all-has_fuel [] edges h = cc
  connect_all-has_fuel ((name, d) ∷ rest) edges h =
      elim (>>=-eq-raises (connect selected available name d.requires edges) _ h) [
        | inl p ↦ connect-has_fuel name d.requires edges p
        | inr (between, p, q) ↦ connect_all-has_fuel rest between q
      ]

unresolved-has_fuel :
    (selected : Dict CapabilityId CapabilityDefinition) (ordered : List CapabilityDefinition)
    → unresolved selected ordered ≡ out_of_fuel
    → ⊥
unfolding unresolved
unresolved-has_fuel selected ordered h = ground arith

-- The order of selected capabilities never ends for want of fuel: no capability becomes ready
-- twice, so the loop runs at most once for each.
pub topological_order-has_fuel :
    (selected : Dict CapabilityId CapabilityDefinition) (available : List PipelineStateKey)
    → distinct (keys selected) ≡ true
    → ¬ (topological_order selected available ≡ raises out_of_fuel)
unfolding topological_order order_by
topological_order-has_fuel selected available once h =
    elim (>>=-eq-raises
      (connect_all selected available selected (no_edges selected, no_edges selected)) _ h) [
        | inl p ↦ connect_all-has_fuel selected available selected _ p
        | inr (edges, p, q) ↦
            let graph =
              connect_all-IsGraph selected available selected _ edges
                (subset_of (keys selected) (keys selected) (λ a m. m)) (no_edges-IsGraph selected)
                p in
            elim (>>=-eq-raises (order_by selected edges) _ q) [
              | inl p' ↦
                  drain-has_fuel selected edges.1 graph.once graph.known (length selected) edges.0
                    (initially_ready selected edges.0) [] []
                    (initially_ready-IsDraining selected available edges once graph) (omega arith)
                    p'
              | inr (ordered, p', q') ↦
                  unresolved-has_fuel selected ordered
                    (require->>-eq-raises (length ordered == length selected) _ ordered q')
            ]
      ]
