-- ===== src/Runtime/Pipeline/History.antt =====
-- The history that a run leaves, and the status that it reports.
use red_forge.Base.{
  ◌≡◌, refl, sym, ap, ◌∙◌, subst, Bool, true, false, Option, none, some, List, [], ◌∷◌, ◌++◌, map,
  append-nil, append_assoc, arith, if◌then◌else◌, Bool-cases, inl, inr, any, All,
}
use mathlib.Core.List.{foldl}
use red_forge.Sdk.Exception.{returns, >>=-eq-returns}
use red_forge.Sdk.Result.{Status, success, failure, error, partial, Result}
use red_forge.Sdk.Context.{Context}
use red_forge.Runtime.Policy.{Violation, deadline, before_capability, ExecutionPolicy}
use red_forge.Runtime.Pipeline.{combine_status, is_usable, PipelineEntry, Contracts, Pipeline}
use red_forge.Runtime.Pipeline.Emit.{Sink, CapabilityExecution, Run, policy_failure}
use red_forge.Runtime.Pipeline.Run.{round, run_entries, run, PipelineResult, initial_run}
use red_forge.Runtime.Pipeline.Round.{IsRound, round-IsRound}

-- One execution for each entry, in order, up to the first whose result stops the run.
abbrev pub IsHistory : List PipelineEntry → List CapabilityExecution → Type 0
IsHistory [] [] = Unit
IsHistory [] (x ∷ xs) = ⊥
IsHistory (entry ∷ entries) [] = ⊥
IsHistory (entry ∷ entries) (x ∷ xs) =
    (x.capability_name ≡ entry.capability.name)
    × (x.capability_id ≡ entry.capability_id)
    × elim (is_usable x.result.status) [ true ↦ IsHistory entries xs | false ↦ xs ≡ [] ]

-- A violation fixes the result, and only an expiry before the capability leaves it out.
pub record IsExplained (x : CapabilityExecution) : Type 0 where
  pub violation : (v : Violation) → x.policy_violation ≡ some v → x.result ≡ policy_failure v
  pub left_out : x.executed ≡ false → x.policy_violation ≡ some (deadline before_capability)

abbrev pub statuses : List CapabilityExecution → List Status
statuses xs = map (λ (x : CapabilityExecution). x.result.status) xs

-- The most severe of the statuses, and success where there is none.
abbrev pub is_error : Status → Bool
is_error error = true
is_error _ = false

abbrev pub is_failure : Status → Bool
is_failure failure = true
is_failure _ = false

abbrev pub is_partial : Status → Bool
is_partial partial = true
is_partial _ = false

unfoldable pub worst : List Status → Status
unfolding any
worst ss =
    if any is_error ss
    then error
    else if any is_failure ss
    then failure
    else if any is_partial ss
    then partial
    else success

worst-combine_status :
    (s t : Status) (ss : List Status) → worst (combine_status s t ∷ ss) ≡ worst (s ∷ t ∷ ss)
unfolding worst combine_status
worst-combine_status s t ss = ground arith

worst-one : (s : Status) → worst (s ∷ []) ≡ s
unfolding worst
worst-one success = refl
worst-one _ = refl

pub foldl-combine_status :
    (s : Status) (ss : List Status) → foldl combine_status s ss ≡ worst (s ∷ ss)
foldl-combine_status s [] = sym (worst-one s)
foldl-combine_status s (t ∷ ss) =
    foldl-combine_status (combine_status s t) ss ∙ worst-combine_status s t ss

abbrev pub last_of : Option Result → List CapabilityExecution → Option Result
last_of o [] = o
last_of o (x ∷ xs) = last_of (some x.result) xs

-- What the loop adds.
record Added (entries : List PipelineEntry) (a b : Run) (xs : List CapabilityExecution)
    : Type 0 where
  executions : b.executions ≡ a.executions ++ xs
  history : IsHistory entries xs
  aggregate_status : b.aggregate_status ≡ foldl combine_status a.aggregate_status (statuses xs)
  last_result : b.last_result ≡ last_of a.last_result xs
  explained : All IsExplained xs

IsExplained-by :
    {entry : PipelineEntry} {a b : Run} {g : Bool} {x : CapabilityExecution}
    → IsRound entry a b g x
    → IsExplained x
IsExplained-by ok = record { violation = ok.violation; left_out = ok.left_out }

run_entries-Added :
    (contracts : Contracts) (policy : Option ExecutionPolicy) (entries : List PipelineEntry)
    (a b : Run)
    → run_entries contracts policy entries a ≡ returns b
    → (xs : List CapabilityExecution) × Added entries a b xs
unfolding run_entries
run_entries-Added contracts policy [] a b h = (
  [],
  record {
    executions = ground (arith, append-nil a.executions);
    history = tt;
    aggregate_status = ground arith;
    last_result = ground arith;
    explained = tt;
  },
)
run_entries-Added contracts policy (entry ∷ entries) a b h =
    let ((a', g), p, q) = >>=-eq-returns (round contracts policy entry a) _ h in
    let (x, ok) = round-IsRound contracts policy entry a a' g p in
    elim (Bool-cases g) [
      | inl on ↦
          let (ys, more) = run_entries-Added contracts policy entries a' b (rw on at q) in
          (
            x ∷ ys,
            record {
              executions =
                  more.executions
                  ∙ ap (λ l. l ++ ys) ok.executions
                  ∙ append_assoc a.executions (x ∷ []) ys;
              history = (ok.name, ok.capability_id, rw (sym ok.goes_on ∙ on) more.history);
              aggregate_status =
                  more.aggregate_status
                  ∙ ap (λ s. foldl combine_status s (statuses ys)) ok.aggregate_status;
              last_result = more.last_result ∙ ap (λ o. last_of o ys) ok.last_result;
              explained = (IsExplained-by ok, more.explained);
            },
          )
      | inr off ↦
          let same : returns a' ≡ returns b = rw off at q in
          (
            x ∷ [],
            record {
              executions = ground (arith, ok.executions);
              history = (ok.name, ok.capability_id, rw (sym ok.goes_on ∙ off) refl);
              aggregate_status = ground (arith, ok.aggregate_status);
              last_result = ground (arith, ok.last_result);
              explained = (IsExplained-by ok, tt);
            },
          )
    ]

-- What a run reports, in terms of its history.
pub record IsReport (p : Pipeline) (res : PipelineResult) : Type 0 where
  pub history : IsHistory p.entries res.executions
  pub status : res.status ≡ worst (statuses res.executions)
  pub last_result : res.last_result ≡ last_of none res.executions
  pub explained : All IsExplained res.executions

worst-success : (ss : List Status) → worst (success ∷ ss) ≡ worst ss
unfolding worst
worst-success ss = refl

-- A run that returns reports one execution for each entry, in order, up to the first with a result
-- that is neither SUCCESS nor PARTIAL; its status is the most severe of the history, and its last
-- result the one of the last execution in the history, also where the deadline expired before that
-- capability, which then was not invoked. An execution with a policy violation has the sanitized
-- result of that violation, and only a deadline that expired before it leaves a capability
-- uninvoked.
pub run-IsReport :
    (p : Pipeline) (c : Context) (policy : Option ExecutionPolicy) (sink : Sink)
    (res : PipelineResult)
    → run p c policy sink ≡ returns res
    → IsReport p res
unfolding run
run-IsReport p c policy sink res h =
    let (final, q, e) =
      >>=-eq-returns (run_entries p.output_contracts policy p.entries (initial_run sink c)) _ h in
    let (xs, added) =
      run_entries-Added p.output_contracts policy p.entries (initial_run sink c) final q in
    let same : final.executions ≡ res.executions = ground arith in
    let reported : res.last_result ≡ final.last_result = ground arith in
    let here : xs ≡ res.executions = sym added.executions ∙ same in
    record {
      history = subst (IsHistory p.entries) here added.history;
      status =
          ground arith
          ∙ added.aggregate_status
          ∙ foldl-combine_status success (statuses xs)
          ∙ worst-success (statuses xs)
          ∙ ap (λ l. worst (statuses l)) here;
      last_result = reported ∙ added.last_result ∙ ap (last_of none) here;
      explained = subst (All IsExplained) here added.explained;
    }
