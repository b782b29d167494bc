-- ===== src/Planning/Planner/Fuel.antt =====
-- The walk of the planner ends within its fuel: a path has no repetition, so it is no longer than
-- the registry.
use red_forge.Base.{
  ℕ, zero, suc, ◌+◌, ◌≤◌, ◌<◌, ◌≡◌, refl, ap, List, [], ◌∷◌, arith, Bool-cases, inl, inr, contains,
  distinct, subset, lookup, distinct-subset-length, length, length-append, length-map, keys, Text,
}
use red_forge.Sdk.StateKey.{PipelineStateKey, key_order}
use red_forge.Sdk.Exception.{out_of_fuel, Attempt, raises, >>=-eq-raises}
use red_forge.Sdk.CapabilityId.{CapabilityId, id_order}
use red_forge.Sdk.Definition.{CapabilityDefinition}
use red_forge.Planning.Registry.{Registry, producers_for}
use red_forge.Planning.Registry.Queries.{IsRegistry}
use red_forge.Planning.Planner.{Walk, enter, visit_each, visit, producer_for, single, start}
use red_forge.Planning.Planner.Producers.{IsRegistered, producer_for-IsRegistered}
use red_forge.Planning.Planner.Walks.{IsWalk, VisitorKeeps, visit-Keeps, enter-IsWalk}

pub single_raises :
    (key : PipelineStateKey) (ds : List CapabilityDefinition) (names : List Text)
    → single key ds names ≡ raises out_of_fuel
    → ⊥
unfolding single
single_raises key [] names h = cc
single_raises key (d ∷ []) names h = cc
single_raises key (d ∷ e ∷ ds) names h = cc

module _ (r : Registry) (ok : IsRegistry r) (available : List PipelineStateKey) where
  -- The visitor has fuel for a path of a length.
  abbrev HasFuel : ℕ → (CapabilityDefinition → Walk → Attempt Walk) → Type 0
  HasFuel n visitor =
      (d : CapabilityDefinition) (w : Walk)
      → IsRegistered r d
      → IsWalk r w
      → n ≤ length w.visiting
      → visitor d w ≡ raises out_of_fuel
      → ⊥

  visit_each-HasFuel :
      (visitor : CapabilityDefinition → Walk → Attempt Walk) (n : ℕ)
      (needed : List PipelineStateKey) (w : Walk)
      → VisitorKeeps r ok available visitor
      → HasFuel n visitor
      → IsWalk r w
      → n ≤ length w.visiting
      → visit_each visitor r available needed w ≡ raises out_of_fuel
      → ⊥
  unfolding visit_each
  visit_each-HasFuel visitor n [] w keeps fueled good long h = cc
  visit_each-HasFuel visitor n (key ∷ needed) w keeps fueled good long h =
      elim (Bool-cases (contains key available)) [
        | inl e ↦ visit_each-HasFuel visitor n needed w keeps fueled good long (rw e at h)
        | inr e ↦ elim (>>=-eq-raises (producer_for r key) _ (rw e at h)) [
          | inl p ↦ unfold producer_for in single_raises key (producers_for key r) _ p
          | inr (d, p, q) ↦
              let (there, provides) = producer_for-IsRegistered r key d ok p in
              elim (>>=-eq-raises (visitor d w) _ q) [
                | inl p' ↦ fueled d w there good long p'
                | inr (v, p', q') ↦
                    let kept = keeps d w v there good p' in
                    visit_each-HasFuel visitor n needed v keeps fueled kept.walk
                      (omega (arith, ap length kept.visiting)) q'
              ]
        ]
      ]

  path_bound : (w : Walk) → IsWalk r w → length w.visiting ≤ length r
  path_bound w good =
      let bound = distinct-subset-length w.visiting (keys r) good.once good.known in
      let same = length-map (λ (e : CapabilityId × CapabilityDefinition). e.0) r in
      omega (arith, bound, same)

  pub visit-HasFuel : (fuel n : ℕ) → length r < fuel + n → HasFuel n (visit fuel r available)
  unfolding visit
  visit-HasFuel zero n enough d w there good long h = absurd (omega (arith, path_bound w good))
  visit-HasFuel (suc fuel) n enough d w there good long h =
      elim (Bool-cases (contains d.capability_id w.completed)) [
        | inl e ↦ absurd (ground arith)
        | inr e ↦ elim (Bool-cases (contains d.capability_id w.visiting)) [
          | inl on_path ↦ absurd (ground arith)
          | inr fresh ↦
              elim (>>=-eq-raises
                (visit_each (visit fuel r available) r available d.requires (enter d w)) _
                (rw (e, fresh) at h)) [
                  | inl p ↦
                      visit_each-HasFuel (visit fuel r available) (suc n) d.requires (enter d w)
                        (visit-Keeps r ok available fuel) (visit-HasFuel fuel (suc n) (omega arith))
                        (enter-IsWalk r ok available d w there fresh good)
                        (omega (arith, length-append w.visiting (d.capability_id ∷ []))) p
                  | inr (v, p, q) ↦ absurd (cc)
                ]
        ]
      ]

pub start-IsWalk : (r : Registry) → IsWalk r start
unfolding lookup distinct subset
start-IsWalk r = record {
  selected = λ i d e. absurd (cc);
  once = refl;
  keys_once = refl;
  known = refl;
}

-- The walk over a well-formed registry never ends for want of fuel: the recursion of `visit` is no
-- deeper than the registry is long, whatever the goals, the available keys and the cycles.
pub walk_has_fuel :
    (r : Registry) (available goals : List PipelineStateKey)
    → IsRegistry r
    → ¬ (visit_each (visit (length r + 1) r available) r available goals start ≡ raises out_of_fuel)
walk_has_fuel r available goals ok h =
    visit_each-HasFuel r ok available (visit (length r + 1) r available) 0 goals start
      (visit-Keeps r ok available (length r + 1))
      (visit-HasFuel r ok available (length r + 1) 0 (omega arith)) (start-IsWalk r) (omega arith) h
