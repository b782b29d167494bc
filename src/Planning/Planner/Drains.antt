-- ===== src/Planning/Planner/Drains.antt =====
-- The loop over the ready capabilities ends within its fuel: no capability becomes ready twice.
use red_forge.Base.{
  ℕ, zero, suc, ◌+◌, ◌≤◌, ◌≡◌, refl, sym, ap, ◌∙◌, subst, true, false, not, ◌&&◌, List, [], ◌∷◌,
  ◌++◌, arith, if◌then◌else◌, Bool-cases, inl, inr, contains, distinct, keep, sort, insert_on,
  contains-insert_on, distinct-insert_on, contains-sort, distinct-sort, ◌==◌, eq→≡, eq_refl, Order,
  keys, lookup, has, lookup-put, length, length-map, distinct-subset-length, subset_of, Dict,
}
use red_forge.Sdk.Exception.{out_of_fuel, raises}
use red_forge.Sdk.CapabilityId.{CapabilityId, id_order}
use red_forge.Sdk.Definition.{CapabilityDefinition}
use red_forge.Planning.Model.{is_empty}
use red_forge.Planning.Registry.{or_skip}
use red_forge.Planning.Planner.{Edges, edges_of, discard_edge, release, drain}

module _ {ℓ} {A : Type ℓ} ⦃o : Order A⦄ where
  contains-keep_others :
      (a x : A) (xs : List A)
      → contains a (keep (λ y. not (y == x)) xs) ≡ (contains a xs && not (a == x))
  unfolding contains keep
  contains-keep_others a x [] = refl
  contains-keep_others a x (y ∷ xs) = ground (arith, contains-keep_others a x xs, o.le_antisym a y)

  differs :
      (a x : A) (xs : List A) → contains a xs ≡ false → contains x xs ≡ true → (a == x) ≡ false
  differs a x xs absent present = elim (Bool-cases (a == x)) [
    | inl e ↦ absurd (cc (eq→≡ a x e, absent, present))
    | inr e ↦ e
  ]

  pub empty_of : (xs : List A) → is_empty xs ≡ true → xs ≡ []
  empty_of [] h = refl
  empty_of (x ∷ xs) h = absurd (cc)

contains-none : (i : CapabilityId) → contains i [] ≡ false
unfolding contains
contains-none i = refl

edges_of-discard_edge :
    (i n j : CapabilityId) (edges : Edges)
    → edges_of j (discard_edge i n edges)
      ≡ (if j == i then keep (λ k. not (k == n)) (edges_of i edges) else edges_of j edges)
unfolding edges_of discard_edge
edges_of-discard_edge i n j edges =
    ground (arith, lookup-put i j (keep (λ k. not (k == n)) (edges_of i edges)) edges)

-- The state of the loop: what is ready or done waits for nothing, and a capability that is not done
-- is waited for by its dependents.
pub record IsDraining (selected : Dict CapabilityId CapabilityDefinition)
    (dependents dependencies : Edges) (ready done : List CapabilityId) : Type 0 where
  pub ready_idle : (i : CapabilityId) → contains i ready ≡ true → edges_of i dependencies ≡ []
  pub done_idle : (i : CapabilityId) → contains i done ≡ true → edges_of i dependencies ≡ []
  pub ready_once : distinct ready ≡ true
  pub done_once : distinct done ≡ true
  pub apart : (i : CapabilityId) → contains i ready ≡ true → contains i done ≡ false
  pub ready_known : (i : CapabilityId) → contains i ready ≡ true → has i selected ≡ true
  pub done_known : (i : CapabilityId) → contains i done ≡ true → has i selected ≡ true
  pub waits :
      (n i : CapabilityId)
      → contains i (edges_of n dependents) ≡ true
      → contains n done ≡ false
      → contains n (edges_of i dependencies) ≡ true

module _ (selected : Dict CapabilityId CapabilityDefinition) (dependents : Edges)
    (once : (n : CapabilityId) → distinct (edges_of n dependents) ≡ true)
    (known : (n i : CapabilityId)
      → contains i (edges_of n dependents) ≡ true
      → has i selected ≡ true) where
  -- The edge to a capability that is done goes.
  discard-IsDraining :
      (name i : CapabilityId) (dependencies : Edges) (ready done : List CapabilityId)
      → contains name done ≡ true
      → IsDraining selected dependents dependencies ready done
      → IsDraining selected dependents (discard_edge i name dependencies) ready done
  unfolding keep
  discard-IsDraining name i dependencies ready done is_done ok = record {
    ready_idle = λ j h.
        ground (arith, edges_of-discard_edge i name j dependencies, ok.ready_idle j h, eq→≡ j i);
    done_idle = λ j h.
        ground (arith, edges_of-discard_edge i name j dependencies, ok.done_idle j h, eq→≡ j i);
    ready_once = ok.ready_once;
    done_once = ok.done_once;
    apart = ok.apart;
    ready_known = ok.ready_known;
    done_known = ok.done_known;
    waits = λ n j h fresh.
        let before = ok.waits n j h fresh in
        let other = differs n name done fresh is_done in
        let edges = ap (contains n) (edges_of-discard_edge i name j dependencies) in
        elim (Bool-cases (j == i)) [
          | inl e ↦
              let same = eq→≡ j i e in
              let kept = contains-keep_others n name (edges_of i dependencies) in
              let before' = subst (λ k. contains n (edges_of k dependencies) ≡ true) same before in
              edges ∙ rw e (kept ∙ rw (before', other) refl)
          | inr e ↦ edges ∙ rw e before
        ];
  }

  push-IsDraining :
      (i : CapabilityId) (dependencies : Edges) (ready done : List CapabilityId)
      → edges_of i dependencies ≡ []
      → contains i ready ≡ false
      → contains i done ≡ false
      → has i selected ≡ true
      → IsDraining selected dependents dependencies ready done
      → IsDraining selected dependents dependencies (insert_on (λ j. j) i ready) done
  push-IsDraining i dependencies ready done idle fresh undone there ok = record {
    ready_idle = λ j h. by_member j h (λ k. edges_of k dependencies ≡ []) idle (ok.ready_idle j);
    done_idle = ok.done_idle;
    ready_once = distinct-insert_on i ready ∙ rw (fresh, ok.ready_once) refl;
    done_once = ok.done_once;
    apart = λ j h. by_member j h (λ k. contains k done ≡ false) undone (ok.apart j);
    ready_known = λ j h. by_member j h (λ k. has k selected ≡ true) there (ok.ready_known j);
    done_known = ok.done_known;
    waits = ok.waits;
  }
    where
      by_member :
          (j : CapabilityId)
          → contains j (insert_on (λ k. k) i ready) ≡ true
          → (P : CapabilityId → Type 0) → P i
          → (contains j ready ≡ true → P j)
          → P j
      by_member j h P here rest = elim (Bool-cases (j == i)) [
        | inl e ↦ subst P (sym (eq→≡ j i e)) here
        | inr e ↦ rest (ground (arith, contains-insert_on j i ready))
      ]

  release-IsDraining :
      (name : CapabilityId) (is : List CapabilityId) (dependencies : Edges)
      (ready done : List CapabilityId)
      → contains name done ≡ true
      → distinct is ≡ true
      → ((i : CapabilityId) → contains i is ≡ true → contains name (edges_of i dependencies) ≡ true)
      → ((i : CapabilityId) → contains i is ≡ true → has i selected ≡ true)
      → IsDraining selected dependents dependencies ready done
      → IsDraining selected dependents
          (release name is dependencies ready).0
          (release name is dependencies ready).1
          done
  unfolding release distinct contains
  release-IsDraining name [] dependencies ready done is_done once_is wait there ok = ok
  release-IsDraining name (i ∷ is) dependencies ready done is_done once_is wait there ok =
      let head_in : contains i (i ∷ is) ≡ true = rw (eq_refl i) refl in
      let i_waits = wait i head_in in
      let not_ready = not_idle i ready ok.ready_idle i_waits in
      let not_done = not_idle i done ok.done_idle i_waits in
      let ok' = discard-IsDraining name i dependencies ready done is_done ok in
      let absent : contains i is ≡ false = ground arith in
      let in_tail : (j : CapabilityId) → contains j is ≡ true → contains j (i ∷ is) ≡ true =
        λ j h. ground arith in
      let wait' : (j : CapabilityId)
          → contains j is ≡ true
          → contains name (edges_of j (discard_edge i name dependencies)) ≡ true =
        λ j h.
          ap (contains name) (edges_of-discard_edge i name j dependencies)
          ∙ rw (differs_from j i is h absent) (wait j (in_tail j h)) in
      let there' : (j : CapabilityId) → contains j is ≡ true → has j selected ≡ true =
        λ j h. there j (in_tail j h) in
      let dependencies' = discard_edge i name dependencies in
      let pushed : IsDraining selected dependents dependencies'
          (if is_empty (edges_of i dependencies') then insert_on (λ j. j) i ready else ready) done =
        elim (Bool-cases (is_empty (edges_of i dependencies'))) [
          | inl e ↦ rw e (
              push-IsDraining i dependencies' ready done (empty_of (edges_of i dependencies') e)
                not_ready not_done (there i head_in) ok')
          | inr e ↦ rw e ok'
        ] in
      release-IsDraining name is dependencies' _ done is_done (ground arith) wait' there' pushed
    where
      not_idle :
          (j : CapabilityId) (js : List CapabilityId)
          → ((k : CapabilityId) → contains k js ≡ true → edges_of k dependencies ≡ [])
          → contains name (edges_of j dependencies) ≡ true
          → contains j js ≡ false
      not_idle j js idle edge = elim (Bool-cases (contains j js)) [
        | inl e ↦ absurd (cc (contains-none name, ap (contains name) (idle j e), edge))
        | inr e ↦ e
      ]

      differs_from :
          (j k : CapabilityId) (js : List CapabilityId)
          → contains j js ≡ true
          → contains k js ≡ false
          → (j == k) ≡ false
      differs_from j k js present absent = elim (Bool-cases (j == k)) [
        | inl e ↦ absurd (cc (eq→≡ j k e, absent, present))
        | inr e ↦ e
      ]

  pop-IsDraining :
      (name : CapabilityId) (dependencies : Edges) (ready done : List CapabilityId)
      → IsDraining selected dependents dependencies (name ∷ ready) done
      → IsDraining selected dependents dependencies ready (name ∷ done)
  unfolding contains distinct
  pop-IsDraining name dependencies ready done ok = record {
    ready_idle = λ i h. ok.ready_idle i (ground arith);
    done_idle = λ i h. ground (arith, ok.done_idle i, ok.ready_idle i);
    ready_once = ground (arith, ok.ready_once);
    done_once = ground (arith, ok.done_once, ok.apart name, eq_refl name);
    apart = λ i h. ground (arith, ok.apart i, ok.ready_once, eq→≡ i name);
    ready_known = λ i h. ok.ready_known i (ground arith);
    done_known = λ i h. ground (arith, ok.done_known i, ok.ready_known i);
    waits = λ n i h fresh. ok.waits n i h (ground arith);
  }

  pub drain-has_fuel :
      (fuel : ℕ) (dependencies : Edges) (ready done : List CapabilityId)
      (ordered : List CapabilityDefinition)
      → IsDraining selected dependents dependencies ready done
      → length selected ≤ fuel + length done
      → drain fuel selected dependents dependencies ready ordered ≡ raises out_of_fuel
      → ⊥
  unfolding drain
  drain-has_fuel fuel dependencies [] done ordered ok enough h = cc
  drain-has_fuel zero dependencies (name ∷ ready) done ordered ok enough h =
      let popped = pop-IsDraining name dependencies ready done ok in
      let bound =
        distinct-subset-length (name ∷ done) (keys selected) popped.done_once
          (unfold has in subset_of (name ∷ done) (keys selected) popped.done_known) in
      let same = length-map (λ (e : CapabilityId × CapabilityDefinition). e.0) selected in
      omega (arith, bound, same)
  drain-has_fuel (suc fuel) dependencies (name ∷ ready) done ordered ok enough h =
      let popped = pop-IsDraining name dependencies ready done ok in
      let is = sort (edges_of name dependents) in
      let head_in : contains name (name ∷ ready) ≡ true =
        unfold contains in rw (eq_refl name) refl in
      let head_done : contains name (name ∷ done) ≡ true =
        unfold contains in rw (eq_refl name) refl in
      drain-has_fuel fuel (release name is dependencies ready).0
        (release name is dependencies ready).1 (name ∷ done)
        (ordered ++ or_skip (lookup name selected) [])
        (release-IsDraining name is dependencies ready (name ∷ done) head_done
          (distinct-sort (edges_of name dependents) ∙ once name)
          (λ i member.
            ok.waits name i (sym (contains-sort i (edges_of name dependents)) ∙ member)
              (ok.apart name head_in))
          (λ i member. known name i (sym (contains-sort i (edges_of name dependents)) ∙ member))
          popped)
        (omega arith) h
