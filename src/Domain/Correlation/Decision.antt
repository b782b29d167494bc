-- ===== src/Domain/Correlation/Decision.antt =====
-- `FindingConflict` and `FindingCorrelationDecision`: redforge/domain/finding_correlation.py.
use red_forge.Base.{
  refl, Bool, true, false, ◌&&◌, not, List, if◌then◌else◌, any, text, Order, order_along,
  pair_order, list_order, bool_order, sorted_set,
}
use red_forge.Sdk.Exception.{Attempt, returns, ◌>>◌, require, value_error}
use red_forge.Domain.Hostname.{is_empty}
use red_forge.Domain.Finding.Record.{FindingFingerprint, fingerprint_order}
use red_forge.Domain.Correlation.Kinds.{
  CorrelationMatchStrength, FindingCorrelationReason, FindingConflictKind, conflict_kind_order,
  reason_order, strength_order,
}

pub record FindingConflict : Type 0 where
  pub kind : FindingConflictKind
  pub blocking : Bool

instance abbrev pub conflict_order : Order FindingConflict
conflict_order =
    order_along (λ (c : FindingConflict). (c.kind, c.blocking))
      (λ (kind, blocking). record { kind = kind; blocking = blocking }) (λ _. refl)

pub record FindingCorrelationDecision : Type 0 where
  pub left_fingerprint : FindingFingerprint
  pub right_fingerprint : FindingFingerprint
  pub strength : CorrelationMatchStrength
  pub reasons : List FindingCorrelationReason
  pub conflicts : List FindingConflict

instance abbrev pub reasons_order : Order (List FindingCorrelationReason)
reasons_order = list_order

instance abbrev pub conflicts_order : Order (List FindingConflict)
conflicts_order = list_order

-- The order of `_decision_sort_key`, which holds every field.
instance abbrev pub decision_order : Order FindingCorrelationDecision
decision_order =
    order_along
      (λ (d : FindingCorrelationDecision).
        (d.left_fingerprint, (d.right_fingerprint, (d.strength, (d.reasons, d.conflicts)))))
      (λ (left_fingerprint, (right_fingerprint, (strength, (reasons, conflicts)))). record {
        left_fingerprint = left_fingerprint;
        right_fingerprint = right_fingerprint;
        strength = strength;
        reasons = reasons;
        conflicts = conflicts;
      })
      (λ _. refl)

-- The fingerprints in order, the reasons and the conflicts as sorted sets.
unfoldable pub normal_decision :
    FindingFingerprint
    → FindingFingerprint
    → CorrelationMatchStrength
    → List FindingCorrelationReason
    → List FindingConflict
    → FindingCorrelationDecision
normal_decision left right strength reasons conflicts = record {
  left_fingerprint = if fingerprint_order.le left right then left else right;
  right_fingerprint = if fingerprint_order.le left right then right else left;
  strength = strength;
  reasons = sorted_set reasons;
  conflicts = sorted_set conflicts;
}

-- `FindingCorrelationDecision(left, right, strength, reasons, conflicts)`
unfoldable pub correlation_decision :
    FindingFingerprint
    → FindingFingerprint
    → CorrelationMatchStrength
    → List FindingCorrelationReason
    → List FindingConflict
    → Attempt FindingCorrelationDecision
unfolding normal_decision
correlation_decision left right strength reasons conflicts =
    require (not (is_empty reasons)) (value_error (text "correlation decision requires reasons"))
    >> returns (normal_decision left right strength reasons conflicts)

abbrev pub is_merge : CorrelationMatchStrength → Bool
is_merge CorrelationMatchStrength.exact = true
is_merge CorrelationMatchStrength.strong = true
is_merge CorrelationMatchStrength.possible = false
is_merge CorrelationMatchStrength.no_match = false

-- `FindingCorrelationDecision.automatic_merge`
unfoldable pub automatic_merge : FindingCorrelationDecision → Bool
unfolding any
automatic_merge d =
    is_merge d.strength && not (any (λ (c : FindingConflict). c.blocking) d.conflicts)
