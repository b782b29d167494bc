-- ===== src/Sdk/Result.antt =====
-- redforge/sdk/result.py.
use red_forge.Base.{ℕ, List, map, distinct, if◌then◌else◌, Text, text, Dict}
use red_forge.Sdk.StateKey.{PipelineStateKey, key_order}
use red_forge.Sdk.Exception.{Attempt, returns, raises, value_error}
use red_forge.Sdk.Value.{Value}

pub data Status : Type 0 where
  success failure error partial : Status

-- `status.name`
abbrev pub status_name : Status → Text
status_name success = text "SUCCESS"
status_name failure = text "FAILURE"
status_name error = text "ERROR"
status_name partial = text "PARTIAL"

pub record StatePublication : Type 0 where
  pub key : PipelineStateKey
  pub value : Value

-- TechnologyDetectionPartialReason of redforge/sdk/technology_detection.py
pub data PartialReason : Type 0 where
  execution_timeout malformed_records_skipped : PartialReason
  unassociated_records_skipped output_truncated : PartialReason

-- What the runtime reads or writes of a result's metadata: a tuple of typed reasons, a text or a
-- number. Any other object is opaque.
pub data Metadatum : Type 0 where
  reasons : List PartialReason → Metadatum
  word : Text → Metadatum
  number : ℕ → Metadatum
  opaque : ℕ → Metadatum

pub record Result : Type 0 where
  pub status : Status
  -- the field `data`
  pub payload : Value
  pub errors : List Text
  pub metadata : Dict Text Metadatum
  pub publications : List StatePublication

abbrev pub publication_keys : List StatePublication → List PipelineStateKey
publication_keys ps = map (λ p. p.key) ps

-- `Result(...)`: the constructor refuses duplicate keys.
unfoldable pub result :
    (status : Status) (payload : Value) (errors : List Text) (metadata : Dict Text Metadatum)
    (publications : List StatePublication)
    → Attempt Result
unfolding distinct
result status payload errors metadata publications =
    if distinct (publication_keys publications)
    then returns (record {
      status = status;
      payload = payload;
      errors = errors;
      metadata = metadata;
      publications = publications;
    })
    else raises (value_error (text "result contains duplicate state publications"))
