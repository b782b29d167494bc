-- ===== src/Domain/Risk/Ranked.antt =====
-- The order of the assessments that `RiskIntelligenceCapability.execute` returns:
-- redforge/capabilities/risk_intelligence.py.
use red_forge.Base.{
  ◌≤◌, ◌≡◌, true, false, List, [], ◌∷◌, All, All-insert_on, Order, Bool-cases, inl, inr, insert_on,
  sort_on, All-sort_on, All-map, All-append, or_false, subst, ◌==◌, ◌++◌, text_order, if◌then◌else◌,
  arith, nat_order, pair_order, texts_order,
}
use red_forge.Sdk.Exception.{returns, traverse, >>=-eq-returns}
use red_forge.Domain.Strings.{Platform}
use red_forge.Domain.Graph.{KnowledgeGraph}
use red_forge.Domain.Risk.{RiskAssessment}
use red_forge.Domain.Risk.Paths.{
  RiskResult, paths_of, assess_path, has_assessment, priority_key, collect, assess_graph, result_of,
}
use red_forge.Domain.Risk.Edges.{node_index, links_of}
use red_forge.Domain.Risk.Explicit.{IsExplained, assess_graph-IsExplained}

module _ {ℓ κ} {A : Type ℓ} {B : Type κ} ⦃o : Order A⦄ (f : B → A) where
  abbrev pub BelowBy : B → List B → Type 0
  BelowBy x xs = All (λ y. o.le (f x) (f y) ≡ true) xs

  abbrev pub AscendingBy : List B → Type 0
  AscendingBy [] = Unit
  AscendingBy (x ∷ xs) = BelowBy x xs × AscendingBy xs

  BelowBy-trans : (x y : B) (ys : List B) → o.le (f x) (f y) ≡ true → BelowBy y ys → BelowBy x ys
  BelowBy-trans x y [] h b = tt
  BelowBy-trans x y (z ∷ zs) h b = (o.le_trans (f x) (f y) (f z) h b.0, BelowBy-trans x y zs h b.1)

  insert_on-AscendingBy : (x : B) (xs : List B) → AscendingBy xs → AscendingBy (insert_on f x xs)
  unfolding insert_on
  insert_on-AscendingBy x [] h = (tt, tt)
  insert_on-AscendingBy x (y ∷ ys) h = elim (Bool-cases (o.le (f x) (f y))) [
    | inl e ↦ rw e ((e, BelowBy-trans x y ys e h.0), h)
    | inr e ↦ rw e (
      All-insert_on f (λ z. o.le (f y) (f z) ≡ true) x ys (o.le_total (f x) (f y) e) h.0,
      insert_on-AscendingBy x ys h.1,
    )
  ]

  sort_on-AscendingBy : (xs : List B) → AscendingBy (sort_on f xs)
  unfolding sort_on
  sort_on-AscendingBy [] = tt
  sort_on-AscendingBy (x ∷ xs) = insert_on-AscendingBy x (sort_on f xs) (sort_on-AscendingBy xs)

-- No assessment has a higher priority than one before it.
abbrev pub IsRanked : List RiskAssessment → Type 0
IsRanked [] = Unit
IsRanked (r ∷ rs) =
    All (λ (s : RiskAssessment). s.priority_score ≤ r.priority_score) rs × IsRanked rs

priority_at_most :
    (g : KnowledgeGraph) (r : RiskAssessment) → IsExplained g r → r.priority_score ≤ 70
priority_at_most g r h = h.2.0

not_higher :
    (r s : RiskAssessment)
    → r.priority_score ≤ 70
    → s.priority_score ≤ 70
    → pair_order.le (priority_key r) (priority_key s) ≡ true
    → s.priority_score ≤ r.priority_score
not_higher r s h k e = ground (arith, e)

below-IsRanked :
    (r : RiskAssessment) (rs : List RiskAssessment)
    → r.priority_score ≤ 70
    → All (λ (s : RiskAssessment). s.priority_score ≤ 70) rs
    → BelowBy priority_key r rs
    → All (λ (s : RiskAssessment). s.priority_score ≤ r.priority_score) rs
below-IsRanked r [] h k b = tt
below-IsRanked r (s ∷ rs) h k b = (not_higher r s h k.0 b.0, below-IsRanked r rs h k.1 b.1)

AscendingBy-IsRanked :
    (rs : List RiskAssessment)
    → All (λ (s : RiskAssessment). s.priority_score ≤ 70) rs
    → AscendingBy priority_key rs
    → IsRanked rs
AscendingBy-IsRanked [] k b = tt
AscendingBy-IsRanked (r ∷ rs) k b =
    (below-IsRanked r rs k.0 k.1 b.0, AscendingBy-IsRanked rs k.1 b.1)

abbrev Differs : RiskAssessment → RiskAssessment → Type 0
Differs r s = (r.identifier == s.identifier) ≡ false

Differs-comm : (r s : RiskAssessment) → Differs r s → Differs s r
Differs-comm r s h = ground (arith, h)

-- No two assessments have one identifier.
abbrev pub IsOnce : List RiskAssessment → Type 0
IsOnce [] = Unit
IsOnce (r ∷ rs) = All (Differs r) rs × IsOnce rs

IsOnce-append :
    (found : List RiskAssessment) (r : RiskAssessment)
    → IsOnce found
    → has_assessment r.identifier found ≡ false
    → IsOnce (found ++ (r ∷ []))
unfolding has_assessment
IsOnce-append [] r h k = (tt, tt)
IsOnce-append (s ∷ found) r h k =
    let (here, there) =
      or_false (s.identifier == r.identifier) (has_assessment r.identifier found) k in
    (All-append (Differs s) found (r ∷ []) h.0 (here, tt), IsOnce-append found r h.1 there)

kept-IsOnce :
    (found : List RiskAssessment) (r : RiskAssessment)
    → IsOnce found
    → IsOnce (if has_assessment r.identifier found then found else found ++ (r ∷ []))
kept-IsOnce found r h = elim (Bool-cases (has_assessment r.identifier found)) [
  | inl e ↦ rw e h
  | inr e ↦ rw e (IsOnce-append found r h e)
]

collect-IsOnce :
    (more : List (List RiskAssessment)) (found : List RiskAssessment)
    → IsOnce found
    → IsOnce (collect found more)
unfolding collect
collect-IsOnce [] found h = h
collect-IsOnce ([] ∷ more) found h = collect-IsOnce more found h
collect-IsOnce ((r ∷ rs) ∷ more) found h =
    collect-IsOnce more (if has_assessment r.identifier found then found else found ++ (r ∷ []))
      (kept-IsOnce found r h)

insert_on-IsOnce :
    (r : RiskAssessment) (rs : List RiskAssessment)
    → All (Differs r) rs
    → IsOnce rs
    → IsOnce (insert_on priority_key r rs)
unfolding insert_on
insert_on-IsOnce r [] h k = (tt, tt)
insert_on-IsOnce r (s ∷ rs) h k =
    elim (Bool-cases (pair_order.le (priority_key r) (priority_key s))) [
      | inl e ↦ rw e (h, k)
      | inr e ↦ rw e (
        All-insert_on priority_key (Differs s) r rs (Differs-comm r s h.0) k.0,
        insert_on-IsOnce r rs h.1 k.1,
      )
    ]

sort_on-IsOnce : (rs : List RiskAssessment) → IsOnce rs → IsOnce (sort_on priority_key rs)
unfolding sort_on
sort_on-IsOnce [] h = tt
sort_on-IsOnce (r ∷ rs) h =
    insert_on-IsOnce r (sort_on priority_key rs) (All-sort_on priority_key (Differs r) rs h.0)
      (sort_on-IsOnce rs h.1)

-- Every result is the one of some assessments.
assess_graph-result :
    (p : Platform) (g : KnowledgeGraph) (out : RiskResult)
    → assess_graph p g ≡ returns out
    → (found : List (List RiskAssessment)) × (result_of g (links_of g) found ≡ out)
unfolding assess_graph
assess_graph-result p g out h =
    let (found, made, same) =
      >>=-eq-returns
        (traverse (assess_path p (node_index g.nodes) (links_of g)) (paths_of (links_of g)))
        (λ f. returns (result_of g (links_of g) f)) h in
    (found, cc)

-- The assessments of a knowledge graph are returned by falling priority, and no two of them have one
-- identifier.
pub assess_graph-IsRanked :
    (p : Platform) (g : KnowledgeGraph)
    → (out : RiskResult) × (assess_graph p g ≡ returns out)
      × IsRanked out.assessments
      × IsOnce out.assessments
assess_graph-IsRanked p g =
    let (out, made, good) = assess_graph-IsExplained p g in
    let (found, same) = assess_graph-result p g out made in
    let ascending =
      subst (λ (o : RiskResult). AscendingBy priority_key o.assessments) same
        (sort_on-AscendingBy priority_key (collect [] found)) in
    (
      out,
      made,
      AscendingBy-IsRanked out.assessments
          (All-map (IsExplained g) (λ (r : RiskAssessment). r.priority_score ≤ 70) out.assessments
            (priority_at_most g) good)
          ascending,
      subst (λ (o : RiskResult). IsOnce o.assessments) same
          (sort_on-IsOnce (collect [] found) (collect-IsOnce found [] tt)),
    )
