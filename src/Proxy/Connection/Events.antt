-- ===== src/Proxy/Connection/Events.antt =====
-- scry-proxy/src/proxy/connection.rs: `AnonymizationSettings` and `redact_param`, by which each query event is made.
-- The event of the external crate is the record of what its builder is called with; a duration is a number.
pub mod Redaction
mod Tests
use scry_proxy.Base.{
  ℕ, Bool, true, false, Option, none, some, List, [], ◌∷◌, map, Bytes, codes, replicate, pos,
  if◌then◌else◌,
}
use scry_proxy.Protocol.ErrorFields.{extract_error_scrubbed}
use scry_proxy.Protocol.Bind.{
  ParamValue, null, bool_value, int16, int32, int64, float32, float64, numeric, text, json,
  bytes_value, uuid, unknown_value, date, time, timestamp, timestamp_tz, interval, array, range,
  composite, ParamValues, nil, cons, Bound, unbounded, bounded,
}
use scry_proxy.Protocol.Anonymize.{SqlParser, QueryAnonymizer, AnonymizedQuery, anonymize}
use scry_proxy.Protocol.Anonymize

abbrev pub redacted_query : Bytes
redacted_query = codes "<redacted: unparseable>"

pub data ParseFailureMode : Type 0 where
  redact drop_event : ParseFailureMode

pub record AnonymizationSettings : Type 0 where
  pub enabled : Bool
  pub anonymizer : QueryAnonymizer
  pub parse_failure : ParseFailureMode

-- What `from_config` reads of the configuration.
pub record PublisherSettings : Type 0 where
  pub anonymize : Bool
  pub anonymize_salt : Option Bytes
  pub parse_failure_mode : ParseFailureMode

pub from_config : PublisherSettings → AnonymizationSettings
from_config publisher = record {
  enabled = publisher.anonymize;
  anonymizer = elim publisher.anonymize_salt [
    | some salt ↦ Anonymize.with_salt salt
    | none ↦ Anonymize.new
  ];
  parse_failure = publisher.parse_failure_mode;
}

pub error_field : AnonymizationSettings → Bytes → Bytes → Option Bytes
error_field settings chunk full_error =
    if settings.enabled then extract_error_scrubbed chunk else some full_error

unfoldable mutual
  pub redact_param : ParamValue → ParamValue
  redact_param null = null
  redact_param (bool_value b) = bool_value false
  redact_param (int16 n) = int16 (pos 0)
  redact_param (int32 n) = int32 (pos 0)
  redact_param (int64 n) = int64 (pos 0)
  redact_param (float32 bits) = float32 0
  redact_param (float64 bits) = float64 0
  redact_param (numeric s) = numeric []
  redact_param (text s) = text []
  redact_param (json s) = json []
  redact_param (bytes_value s) = bytes_value []
  redact_param (uuid s) = uuid (replicate 16 0)
  redact_param (unknown_value oid s) = unknown_value oid []
  redact_param (date n) = date (pos 0)
  redact_param (time n) = time (pos 0)
  redact_param (timestamp n) = timestamp (pos 0)
  redact_param (timestamp_tz n) = timestamp_tz (pos 0)
  redact_param (interval months days microseconds) = interval (pos 0) (pos 0) (pos 0)
  redact_param (array elements dimensions) = array (redact_all elements) dimensions
  redact_param (range lower upper lower_inc upper_inc) =
      range (redact_bound lower) (redact_bound upper) lower_inc upper_inc
  redact_param (composite fields) = composite (redact_all fields)

  pub redact_all : ParamValues → ParamValues
  redact_all nil = nil
  redact_all (cons p ps) = cons (redact_param p) (redact_all ps)

  pub redact_bound : Bound → Bound
  redact_bound unbounded = unbounded
  redact_bound (bounded p) = bounded (redact_param p)

pub redact_params : AnonymizationSettings → List ParamValue → List ParamValue
unfolding redact_param
redact_params settings params = if settings.enabled then map redact_param params else params

-- What the handler passes for an event besides its query text and its parameters.
pub record Outline : Type 0 where
  pub params_incomplete : Bool
  pub duration : ℕ
  pub success : Bool
  pub error : Option Bytes
  pub connection_id : Bytes
  pub database : Bytes

pub record QueryEvent : Type 0 where
  pub query : Bytes
  pub params : List ParamValue
  pub outline : Outline
  pub normalized_query : Option Bytes
  pub value_fingerprints : List Bytes

-- The query text, the normalized form and the fingerprints of an event.
pub record QueryText : Type 0 where
  pub query_text : Bytes
  pub normalized : Option Bytes
  pub fingerprints : List Bytes

abbrev pub unparsed : ParseFailureMode → Option QueryText
unparsed drop_event = none
unparsed redact =
    some
      (record { query_text = redacted_query; normalized = some redacted_query; fingerprints = [] })

abbrev pub anonymized : ParseFailureMode → Option AnonymizedQuery → Option QueryText
anonymized mode none = unparsed mode
anonymized mode (some anon) = some (record {
  query_text = anon.normalized_query;
  normalized = some anon.normalized_query;
  fingerprints = anon.value_fingerprints;
})

abbrev pub with_text :
    AnonymizationSettings
    → List ParamValue
    → Outline
    → Option QueryText
    → Option (QueryEvent × List Bytes)
with_text settings params outline none = none
with_text settings params outline (some t) = some (
  record {
    query = t.query_text;
    params = redact_params settings params;
    outline = outline;
    normalized_query = t.normalized;
    value_fingerprints = t.fingerprints;
  },
  t.fingerprints,
)

module _ {S : Type 0} (sql : SqlParser S) (hash_hex : Bytes → Bytes) where
  -- The tuple at the head of `build_event`; `none` drops the event.
  pub query_text : AnonymizationSettings → Bytes → Option QueryText
  query_text settings query =
      if settings.enabled
      then anonymized settings.parse_failure (anonymize sql hash_hex settings.anonymizer query)
      else some (record { query_text = query; normalized = none; fingerprints = [] })

  pub build_event :
      AnonymizationSettings → Bytes → List ParamValue → Outline → Option (QueryEvent × List Bytes)
  unfolding query_text redact_params
  build_event settings query params outline =
      with_text settings params outline (query_text settings query)
