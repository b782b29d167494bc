-- ===== src/Planning/Model/Sound.antt =====
-- What the constructor of `ExecutionPlan` accepts.
use red_forge.Base.{
  ℕ, suc, ◌+◌, ◌≡◌, sym, ap, ◌∙◌, subst, true, not, List, [], ◌∷◌, ◌++◌, map, arith, contains,
  distinct, subset, sort, list_eq, list_eq→≡, length, contains-subset, append_assoc, append-nil,
  Text, text, text_order, nat_order,
}
use red_forge.Sdk.StateKey.{PipelineStateKey, key_order}
use red_forge.Sdk.Exception.{returns, >>=-eq-returns, require, require-returns, require->>}
use red_forge.Planning.Model.{
  ExecutionStep, ExecutionPlan, execution_plan, accumulate, validate_keys, range_from, all_provides,
  capability_name, is_empty,
}

-- The steps of a plan can be run in order: what a step requires was available at the start or is
-- provided by an earlier step.
pub record IsSound (p : ExecutionPlan) : Type 0 where
  pub supplied :
      (before : List ExecutionStep) (s : ExecutionStep) (after : List ExecutionStep)
      (k : PipelineStateKey)
      → p.steps ≡ before ++ s ∷ after
      → contains k s.requires ≡ true
      → contains k (p.available_state ++ all_provides before) ≡ true
  pub position :
      (before : List ExecutionStep) (s : ExecutionStep) (after : List ExecutionStep)
      → p.steps ≡ before ++ s ∷ after
      → s.position ≡ length before
  pub reached :
      (k : PipelineStateKey)
      → contains k p.goals ≡ true
      → contains k (p.available_state ++ all_provides p.steps) ≡ true
  pub once : distinct (map capability_name p.steps) ≡ true
  pub goals_sorted : sort p.goals ≡ p.goals
  pub available_sorted : sort p.available_state ≡ p.available_state

accumulate_all :
    (have have' : List PipelineStateKey) (steps : List ExecutionStep)
    → accumulate have steps ≡ returns have'
    → have' ≡ have ++ all_provides steps
unfolding accumulate
accumulate_all have have' [] h = ground (arith, append-nil have)
accumulate_all have have' (s ∷ steps) h =
    let (u, p, q) = >>=-eq-returns (require (subset s.requires have) _) _ h in
    accumulate_all (have ++ s.provides) have' steps q
    ∙ append_assoc have s.provides (all_provides steps)

accumulate_supplies :
    (have have' : List PipelineStateKey) (before : List ExecutionStep) (s : ExecutionStep)
    (after : List ExecutionStep) (k : PipelineStateKey)
    → accumulate have (before ++ s ∷ after) ≡ returns have'
    → contains k s.requires ≡ true
    → contains k (have ++ all_provides before) ≡ true
unfolding accumulate
accumulate_supplies have have' [] s after k h wanted =
    let (u, p, q) = >>=-eq-returns (require (subset s.requires have) _) _ h in
    let here = contains-subset k s.requires have (require-returns _ _ p) wanted in
    ap (contains k) (append-nil have) ∙ here
accumulate_supplies have have' (x ∷ before) s after k h wanted =
    let (u, p, q) = >>=-eq-returns (require (subset x.requires have) _) _ h in
    sym (ap (contains k) (append_assoc have x.provides (all_provides before)))
    ∙ accumulate_supplies (have ++ x.provides) have' before s after k q wanted

abbrev position_of : ExecutionStep → ℕ
position_of s = s.position

range_from_at :
    (first : ℕ) (before : List ExecutionStep) (s : ExecutionStep) (after : List ExecutionStep)
    → map position_of (before ++ s ∷ after) ≡ range_from first (before ++ s ∷ after)
    → s.position ≡ first + length before
range_from_at first [] s after h = ground arith
range_from_at first (x ∷ before) s after h =
    let rest = range_from_at (suc first) before s after (ground arith) in omega (arith, rest)

pub validate_keys_parts :
    (field : Text) (keys keys' : List PipelineStateKey)
    → validate_keys field true keys ≡ returns keys'
    → (keys ≡ keys') × (sort keys ≡ keys)
unfolding validate_keys
validate_keys_parts field keys keys' h =
    let checked : list_eq keys (sort keys) ≡ true = ground arith in
    (ground arith, sym (list_eq→≡ keys (sort keys) checked))

IsSound-of :
    (goals available have : List PipelineStateKey) (steps : List ExecutionStep)
    → sort goals ≡ goals
    → sort available ≡ available
    → list_eq (map position_of steps) (range_from 0 steps) ≡ true
    → distinct (map capability_name steps) ≡ true
    → accumulate available steps ≡ returns have
    → subset goals have ≡ true
    → IsSound (record { goals = goals; available_state = available; steps = steps })
IsSound-of goals available have steps g a numbered once ran covered = record {
  supplied = λ before s after k e wanted.
      accumulate_supplies available have before s after k (sym (ap (accumulate available) e) ∙ ran)
        wanted;
  position = λ before s after e.
      let numbers = list_eq→≡ (map position_of steps) (range_from 0 steps) numbered in
      let at_s =
        range_from_at 0 before s after
          (ap (map position_of) (sym e) ∙ numbers ∙ ap (range_from 0) e) in
      omega (arith, at_s);
  reached = λ k goal.
      sym (ap (contains k) (accumulate_all available have steps ran))
      ∙ contains-subset k goals have covered goal;
  once = once;
  goals_sorted = g;
  available_sorted = a;
}

-- A plan that is constructed is sound: its steps are numbered from 0, no capability occurs twice,
-- what a step requires is available at the start or provided by an earlier step, every goal is
-- reached, and goals and available keys are in canonical order.
pub execution_plan-IsSound :
    (goals available : List PipelineStateKey) (steps : List ExecutionStep) (p : ExecutionPlan)
    → execution_plan goals available steps ≡ returns p
    → IsSound p
unfolding execution_plan
execution_plan-IsSound goals available steps p h =
    let (wanted, h0, r0) = >>=-eq-returns (validate_keys (text "goals") true goals) _ h in
    let (h1, r1) = require->> (not (is_empty wanted)) _ _ r0 in
    let (present, h2, r2) =
      >>=-eq-returns (validate_keys (text "available state") true available) _ r1 in
    let (h3, r3) = require->> (list_eq (map position_of steps) (range_from 0 steps)) _ _ r2 in
    let (h4, r4) = require->> (distinct (map capability_name steps)) _ _ r3 in
    let (have, h5, r5) = >>=-eq-returns (accumulate present steps) _ r4 in
    let (h6, r6) = require->> (subset wanted have) _ _ r5 in
    let (same_goals, goals_in_order) = validate_keys_parts (text "goals") goals wanted h0 in
    let (same, in_order) = validate_keys_parts (text "available state") available present h2 in
    let plan : record { goals = goals; available_state = available; steps = steps } ≡ p =
      ground arith in
    subst IsSound plan (
      IsSound-of goals available have steps goals_in_order in_order h3 h4
        (ap (λ l. accumulate l steps) same ∙ h5) (ap (λ l. subset l have) same_goals ∙ h6))
