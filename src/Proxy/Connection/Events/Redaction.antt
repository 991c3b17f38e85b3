-- ===== src/Proxy/Connection/Events/Redaction.antt =====
-- With anonymization on, what an event shows: the types of its parameters and not their values, the form of its query
-- and not its literals.
use scry_proxy.Base.{ℕ, ◌≡◌, refl, ap, Bool, Option, none, some, List, [], ◌∷◌, map, Bytes, ℤ}
use scry_proxy.Protocol.Bind.{
  ParamValue, null, bool_value, int16, int32, int64, float32, float64, numeric, text, json,
  bytes_value, uuid, unknown_value, date, time, timestamp, timestamp_tz, interval, array, range,
  composite, ParamValues, nil, cons, Bound, unbounded, bounded,
}
use scry_proxy.Protocol.Anonymize.{Value, SqlParser, anonymize}
use scry_proxy.Protocol.Anonymize.Shapes.{OnlyLiterals}
use scry_proxy.Proxy.Connection.Events.{
  AnonymizationSettings, redact_param, redact_all, redact_bound, Outline, QueryEvent, QueryText,
  anonymized, with_text, query_text, build_event,
}

-- Two values of one type: the same variant, with the same OID, dimensions and flags, and so inside.
mutual
  pub data SameType : ParamValue → ParamValue → Type 0 where
    both_null : SameType null null
    both_bool : (a b : Bool) → SameType (bool_value a) (bool_value b)
    both_int16 : (a b : ℤ) → SameType (int16 a) (int16 b)
    both_int32 : (a b : ℤ) → SameType (int32 a) (int32 b)
    both_int64 : (a b : ℤ) → SameType (int64 a) (int64 b)
    both_float32 : (a b : ℕ) → SameType (float32 a) (float32 b)
    both_float64 : (a b : ℕ) → SameType (float64 a) (float64 b)
    both_numeric : (a b : Bytes) → SameType (numeric a) (numeric b)
    both_text : (a b : Bytes) → SameType (text a) (text b)
    both_json : (a b : Bytes) → SameType (json a) (json b)
    both_bytes : (a b : Bytes) → SameType (bytes_value a) (bytes_value b)
    both_uuid : (a b : Bytes) → SameType (uuid a) (uuid b)
    both_unknown : (oid : ℕ) (a b : Bytes) → SameType (unknown_value oid a) (unknown_value oid b)
    both_date : (a b : ℤ) → SameType (date a) (date b)
    both_time : (a b : ℤ) → SameType (time a) (time b)
    both_timestamp : (a b : ℤ) → SameType (timestamp a) (timestamp b)
    both_timestamp_tz : (a b : ℤ) → SameType (timestamp_tz a) (timestamp_tz b)
    both_interval : (a b c a' b' c' : ℤ) → SameType (interval a b c) (interval a' b' c')
    both_array :
        {ps qs : ParamValues} (dimensions : List ℤ)
        → SameTypes ps qs
        → SameType (array ps dimensions) (array qs dimensions)
    both_range :
        {l u l' u' : Bound} (lower_inc upper_inc : Bool)
        → SameBound l l'
        → SameBound u u'
        → SameType (range l u lower_inc upper_inc) (range l' u' lower_inc upper_inc)
    both_composite :
        {ps qs : ParamValues} → SameTypes ps qs → SameType (composite ps) (composite qs)

  pub data SameTypes : ParamValues → ParamValues → Type 0 where
    both_nil : SameTypes nil nil
    both_cons :
        {a b : ParamValue} {ps qs : ParamValues}
        → SameType a b
        → SameTypes ps qs
        → SameTypes (cons a ps) (cons b qs)

  pub data SameBound : Bound → Bound → Type 0 where
    both_unbounded : SameBound unbounded unbounded
    both_bounded : {a b : ParamValue} → SameType a b → SameBound (bounded a) (bounded b)

mutual
  unfolding redact_param

  redact_param_same : {a b : ParamValue} → SameType a b → redact_param a ≡ redact_param b
  redact_param_same both_null = refl
  redact_param_same (both_bool a b) = refl
  redact_param_same (both_int16 a b) = refl
  redact_param_same (both_int32 a b) = refl
  redact_param_same (both_int64 a b) = refl
  redact_param_same (both_float32 a b) = refl
  redact_param_same (both_float64 a b) = refl
  redact_param_same (both_numeric a b) = refl
  redact_param_same (both_text a b) = refl
  redact_param_same (both_json a b) = refl
  redact_param_same (both_bytes a b) = refl
  redact_param_same (both_uuid a b) = refl
  redact_param_same (both_date a b) = refl
  redact_param_same (both_time a b) = refl
  redact_param_same (both_timestamp a b) = refl
  redact_param_same (both_timestamp_tz a b) = refl
  redact_param_same (both_unknown oid a b) = refl
  redact_param_same (both_interval a b c a' b' c') = refl
  redact_param_same (both_array dimensions s) = ap (λ ps. array ps dimensions) (redact_all_same s)
  redact_param_same (both_range i j s t) = rw (redact_bound_same s, redact_bound_same t) refl
  redact_param_same (both_composite s) = ap composite (redact_all_same s)

  redact_all_same : {ps qs : ParamValues} → SameTypes ps qs → redact_all ps ≡ redact_all qs
  redact_all_same both_nil = refl
  redact_all_same (both_cons s t) = rw (redact_param_same s, redact_all_same t) refl

  redact_bound_same : {l u : Bound} → SameBound l u → redact_bound l ≡ redact_bound u
  redact_bound_same both_unbounded = refl
  redact_bound_same (both_bounded s) = ap bounded (redact_param_same s)

mutual
  unfolding redact_param

  keeps_type : (p : ParamValue) → SameType p (redact_param p)
  keeps_type null = both_null
  keeps_type (bool_value a) = both_bool a _
  keeps_type (int16 a) = both_int16 a _
  keeps_type (int32 a) = both_int32 a _
  keeps_type (int64 a) = both_int64 a _
  keeps_type (float32 a) = both_float32 a _
  keeps_type (float64 a) = both_float64 a _
  keeps_type (numeric a) = both_numeric a _
  keeps_type (text a) = both_text a _
  keeps_type (json a) = both_json a _
  keeps_type (bytes_value a) = both_bytes a _
  keeps_type (uuid a) = both_uuid a _
  keeps_type (date a) = both_date a _
  keeps_type (time a) = both_time a _
  keeps_type (timestamp a) = both_timestamp a _
  keeps_type (timestamp_tz a) = both_timestamp_tz a _
  keeps_type (unknown_value oid a) = both_unknown oid a _
  keeps_type (interval a b c) = both_interval a b c _ _ _
  keeps_type (array ps dimensions) = both_array dimensions (keeps_types ps)
  keeps_type (range l u i j) = both_range i j (keeps_bound l) (keeps_bound u)
  keeps_type (composite ps) = both_composite (keeps_types ps)

  keeps_types : (ps : ParamValues) → SameTypes ps (redact_all ps)
  keeps_types nil = both_nil
  keeps_types (cons p ps) = both_cons (keeps_type p) (keeps_types ps)

  keeps_bound : (b : Bound) → SameBound b (redact_bound b)
  keeps_bound unbounded = both_unbounded
  keeps_bound (bounded p) = both_bounded (keeps_type p)

-- Redaction keeps the type of a parameter, at every depth, and nothing else: it gives a value of the same type, and
-- all values of one type become the same.
pub redact_param-SameType :
    (p q : ParamValue)
    → SameType p (redact_param p) × (SameType p q → redact_param p ≡ redact_param q)
redact_param-SameType p q = (keeps_type p, λ s. redact_param_same s)

-- Parameter lists of the same types.
pub data SameParams : List ParamValue → List ParamValue → Type 0 where
  no_params : SameParams [] []
  with_param :
      {p q : ParamValue} {ps qs : List ParamValue}
      → SameType p q
      → SameParams ps qs
      → SameParams (p ∷ ps) (q ∷ qs)

-- An event without its fingerprints, which are salted hashes of the literals.
abbrev pub shown : Option (QueryEvent × List Bytes) → Option QueryEvent
shown none = none
shown (some (event, fs)) = some (record event { value_fingerprints = [] })

module _ {S : Type 0} (sql : SqlParser S) where
  -- Two queries that anonymization must not tell apart: neither parses, or they parse and differ in plain
  -- literals only.
  pub data Alike (query query' : Bytes) : Type 0 where
    unparseable : sql.parse_sql query ≡ none → sql.parse_sql query' ≡ none → Alike query query'
    other_literals :
        (f : Value → Value) (stmt : S) (rest : List S)
        → OnlyLiterals f
        → sql.parse_sql query ≡ some (stmt ∷ rest)
        → sql.parse_sql query' ≡ some (map (sql.visit_mut f) (stmt ∷ rest))
        → Alike query query'

abbrev shown_text : Option QueryText → Option QueryText
shown_text none = none
shown_text (some t) = some (record t { fingerprints = [] })

module _ {S : Type 0} (sql : SqlParser S) (hash_hex : Bytes → Bytes) where
  abbrev text_of : AnonymizationSettings → Bytes → Option QueryText
  text_of settings query =
      anonymized settings.parse_failure (anonymize sql hash_hex settings.anonymizer query)

-- An event that is not dropped carries this data.
abbrev pub Outlined : Outline → Option (QueryEvent × List Bytes) → Type 0
Outlined outline none = Unit
Outlined outline (some (event, fs)) = event.outline ≡ outline

with_text-Outlined :
    (settings : AnonymizationSettings) (params : List ParamValue) (outline : Outline)
    (t : Option QueryText)
    → Outlined outline (with_text settings params outline t)
with_text-Outlined settings params outline none = tt
with_text-Outlined settings params outline (some t) = refl

pub build_event-Outlined :
    {S : Type 0} (sql : SqlParser S) (hash_hex : Bytes → Bytes) (settings : AnonymizationSettings)
    (query : Bytes) (params : List ParamValue) (outline : Outline)
    → Outlined outline (build_event sql hash_hex settings query params outline)
unfolding build_event
build_event-Outlined sql hash_hex settings query params outline =
    with_text-Outlined settings params outline (query_text sql hash_hex settings query)
