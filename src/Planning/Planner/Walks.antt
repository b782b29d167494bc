-- ===== src/Planning/Planner/Walks.antt =====
-- The walk of the planner over the dependencies: it selects what is registered, and leaves the path
-- of capabilities that it visits as it was.
use red_forge.Base.{
  ℕ, zero, suc, ◌≡◌, refl, sym, ap, ◌∙◌, subst, true, false, some, List, [], ◌∷◌, ◌++◌, arith,
  Bool-cases, inl, inr, contains, distinct, subset, if◌then◌else◌, ◌==◌, eq→≡, Order, keys, lookup,
  has, lookup-put, has-of_some, distinct-keys-put, contains-append,
}
use red_forge.Sdk.StateKey.{PipelineStateKey, key_order}
use red_forge.Sdk.Exception.{Attempt, returns, >>=-eq-returns}
use red_forge.Sdk.CapabilityId.{CapabilityId, id_order}
use red_forge.Sdk.Definition.{CapabilityDefinition}
use red_forge.Planning.Registry.{Registry}
use red_forge.Planning.Registry.Queries.{IsRegistry}
use red_forge.Planning.Planner.{Walk, enter, leave, without_last, visit_each, visit, producer_for}
use red_forge.Planning.Planner.Producers.{IsRegistered, producer_for-IsRegistered}

without_last-snoc {ℓ} : {A : Type ℓ} (xs : List A) (x : A) → without_last (xs ++ x ∷ []) ≡ xs
unfolding without_last
without_last-snoc [] x = refl
without_last-snoc (y ∷ []) x = refl
without_last-snoc (y ∷ z ∷ xs) x = ap (λ l. y ∷ l) (without_last-snoc (z ∷ xs) x)

module _ {ℓ} {A : Type ℓ} ⦃o : Order A⦄ where
  pub distinct-snoc :
      (xs : List A) (x : A)
      → distinct xs ≡ true
      → contains x xs ≡ false
      → distinct (xs ++ x ∷ []) ≡ true
  unfolding distinct contains
  distinct-snoc [] x h k = refl
  distinct-snoc (y ∷ xs) x h k =
      ground (arith, contains-append y xs (x ∷ []), o.le_antisym x y, distinct-snoc xs x)

  subset-snoc :
      (xs : List A) (x : A) (ys : List A)
      → subset xs ys ≡ true
      → contains x ys ≡ true
      → subset (xs ++ x ∷ []) ys ≡ true
  unfolding subset
  subset-snoc [] x ys h k = ground arith
  subset-snoc (y ∷ xs) x ys h k = ground (arith, subset-snoc xs x ys)

-- The walk so far, over the definitions of `r`.
pub record IsWalk (r : Registry) (w : Walk) : Type 0 where
  pub selected :
      (i : CapabilityId) (d : CapabilityDefinition)
      → lookup i w.selected ≡ some d
      → lookup i r ≡ some d
  pub once : distinct w.visiting ≡ true
  pub keys_once : distinct (keys w.selected) ≡ true
  pub known : subset w.visiting (keys r) ≡ true

-- A visit that returns leaves a walk with the same path.
pub record Keeps (r : Registry) (w w' : Walk) : Type 0 where
  pub walk : IsWalk r w'
  pub visiting : w'.visiting ≡ w.visiting

module _ (r : Registry) (ok : IsRegistry r) (available : List PipelineStateKey) where
  pub enter-IsWalk :
      (d : CapabilityDefinition) (w : Walk)
      → IsRegistered r d
      → contains d.capability_id w.visiting ≡ false
      → IsWalk r w
      → IsWalk r (enter d w)
  unfolding has
  enter-IsWalk d w there fresh good = record {
    selected = λ i x found.
        let after : (if i == d.capability_id then some d else lookup i w.selected) ≡ some x =
          sym (lookup-put d.capability_id i d w.selected) ∙ found in
        elim (Bool-cases (i == d.capability_id)) [
          | inl e ↦ let it : d ≡ x = ground arith in rw (eq→≡ i d.capability_id e, sym it) there
          | inr e ↦ good.selected i x (ground arith)
        ];
    once = distinct-snoc w.visiting d.capability_id good.once fresh;
    keys_once = distinct-keys-put d.capability_id d w.selected good.keys_once;
    known =
        subset-snoc w.visiting d.capability_id (keys r) good.known
          (has-of_some d.capability_id r d there);
  }

  leave-Keeps :
      (d : CapabilityDefinition) (w w' : Walk)
      → Keeps r (enter d w) w'
      → IsWalk r w
      → Keeps r w (leave d w')
  leave-Keeps d w w' kept good =
      let path = ap without_last kept.visiting ∙ without_last-snoc w.visiting d.capability_id in
      record {
        walk = record {
          selected = kept.walk.selected;
          once = ap distinct path ∙ good.once;
          keys_once = kept.walk.keys_once;
          known = ap (λ l. subset l (keys r)) path ∙ good.known;
        };
        visiting = path;
      }

  abbrev pub VisitorKeeps : (CapabilityDefinition → Walk → Attempt Walk) → Type 0
  VisitorKeeps visitor =
      (d : CapabilityDefinition) (w w' : Walk)
      → IsRegistered r d
      → IsWalk r w
      → visitor d w ≡ returns w'
      → Keeps r w w'

  pub visit_each-Keeps :
      (visitor : CapabilityDefinition → Walk → Attempt Walk) (needed : List PipelineStateKey)
      (w w' : Walk)
      → VisitorKeeps visitor
      → IsWalk r w
      → visit_each visitor r available needed w ≡ returns w'
      → Keeps r w w'
  unfolding visit_each
  visit_each-Keeps visitor [] w w' keeps good h =
      let same : w ≡ w' = ground arith in
      subst (Keeps r w) same (record { walk = good; visiting = refl })
  visit_each-Keeps visitor (key ∷ needed) w w' keeps good h =
      elim (Bool-cases (contains key available)) [
        | inl e ↦ visit_each-Keeps visitor needed w w' keeps good (rw e at h)
        | inr e ↦
            let (d, p, q) = >>=-eq-returns (producer_for r key) _ (rw e at h) in
            let (there, provides) = producer_for-IsRegistered r key d ok p in
            let (v, p', q') = >>=-eq-returns (visitor d w) _ q in
            let first_kept = keeps d w v there good p' in
            let rest = visit_each-Keeps visitor needed v w' keeps first_kept.walk q' in
            record { walk = rest.walk; visiting = rest.visiting ∙ first_kept.visiting }
      ]

  pub visit-Keeps : (fuel : ℕ) → VisitorKeeps (visit fuel r available)
  unfolding visit
  visit-Keeps zero d w w' there good h = absurd (cc)
  visit-Keeps (suc fuel) d w w' there good h =
      elim (Bool-cases (contains d.capability_id w.completed)) [
        | inl e ↦
            let same : w ≡ w' = ground arith in
            subst (Keeps r w) same (record { walk = good; visiting = refl })
        | inr e ↦ elim (Bool-cases (contains d.capability_id w.visiting)) [
          | inl on_path ↦ absurd (ground arith)
          | inr fresh ↦
              let (v, p, q) =
                >>=-eq-returns
                  (visit_each (visit fuel r available) r available d.requires (enter d w)) _
                  (rw (e, fresh) at h) in
              let kept =
                visit_each-Keeps (visit fuel r available) d.requires (enter d w) v
                  (visit-Keeps fuel) (enter-IsWalk d w there fresh good) p in
              let same : leave d v ≡ w' = ground arith in
              subst (Keeps r w) same (leave-Keeps d w v kept good)
        ]
      ]
