-- ===== src/Domain/Correlation/Collection/Reordering.antt =====
-- The result of the correlation and the order of its input.
use red_forge.Base.{◌≡◌, ap, List, SameMembers}
use red_forge.Sdk.Exception.{Attempt, ◌>>=◌}
use red_forge.Domain.Strings.{Platform}
use red_forge.Domain.Finding.Record.{FindingRecord, record_order}
use red_forge.Domain.Finding.Collection.Members.{finding_record_collection-SameMembers}
use red_forge.Domain.Correlation.Collection.{group, correlate}

-- Correlation depends on the set of the given records only: for two lists with the same members, in
-- whatever order and however often, `correlate` of their record collections has the same outcome,
-- the same canonical findings and unmerged decisions or the same exception.
pub correlate-SameMembers :
    (p : Platform) (rs ss : List FindingRecord)
    → SameMembers rs ss
    → correlate p rs ≡ correlate p ss
unfolding correlate
correlate-SameMembers p rs ss same =
    ap (λ (m : Attempt (List FindingRecord)). m >>= group p)
      (finding_record_collection-SameMembers rs ss same)
