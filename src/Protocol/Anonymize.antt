-- ===== src/Protocol/Anonymize.antt =====
-- scry-proxy/src/protocol/anonymize.rs: the normalized form of a query, and the fingerprints of its literals. The SQL
-- parser and the hash are libraries, and enter as parameters: a statement is a type, which the walk over its
-- expressions shows by the literal values it visits, in order, and which a walk that writes changes value by value.
-- What is logged is left out.
pub mod Sample
pub mod Shapes
mod Tests
use scry_proxy.Base.{
  Bool, true, false, not, ◌||◌, Option, none, some, List, [], ◌∷◌, ◌++◌, map, ◌≡◌, Bytes, codes,
  is_empty, if◌then◌else◌,
}

-- `sqlparser::ast::Value`: the kinds that the source names, and any other, by what it prints.
pub data Value : Type 0 where
  number : (n : Bytes) → Value
  single_quoted_string double_quoted_string : (s : Bytes) → Value
  boolean : Bool → Value
  null : Value
  placeholder : (s : Bytes) → Value
  other_value : (printed : Bytes) → Value

-- What the parser's library does with statements of the type `S`. A walk that writes visits the values that a walk
-- that reads visits, and writes each of them.
pub record SqlParser (S : Type 0) : Type 0 where
  pub parse_sql : Bytes → Option (List S)
  pub visit : S → List Value
  pub visit_mut : (Value → Value) → S → S
  pub to_string : S → Bytes
  pub visit-visit_mut : (f : Value → Value) (s : S) → visit (visit_mut f s) ≡ map f (visit s)
  pub visit_mut-visit_mut :
      (f g : Value → Value) (s : S) → visit_mut g (visit_mut f s) ≡ visit_mut (λ v. g (f v)) s

pub record AnonymizedQuery : Type 0 where
  pub normalized_query : Bytes
  pub value_fingerprints : List Bytes

pub record QueryAnonymizer : Type 0 where
  pub salt : Bytes

unfoldable pub new : QueryAnonymizer
new = record { salt = codes "scry-default-salt" }

unfoldable pub with_salt : Bytes → QueryAnonymizer
with_salt salt = record { salt = salt }

-- The text of a literal that is fingerprinted.
pub value_text : Value → Option Bytes
value_text (number n) = some n
value_text (single_quoted_string s) = some s
value_text (double_quoted_string s) = some s
value_text (boolean true) = some (codes "true")
value_text (boolean false) = some (codes "false")
value_text null = some (codes "NULL")
value_text (placeholder s) = none
value_text (other_value printed) = none

pub is_sensitive_literal : Value → Bool
is_sensitive_literal (number n) = true
is_sensitive_literal (single_quoted_string s) = true
is_sensitive_literal (double_quoted_string s) = true
is_sensitive_literal (boolean b) = true
is_sensitive_literal null = true
is_sensitive_literal (placeholder s) = false
is_sensitive_literal (other_value printed) = false

-- `ValueReplacer::pre_visit_expr`
pub replace_value : Value → Value
unfolding is_sensitive_literal
replace_value v = if is_sensitive_literal v then placeholder (codes "?") else v

-- `ResidualLiteralDetector` on the values that are visited.
pub found_literal : List Value → Bool
unfolding is_sensitive_literal
found_literal [] = false
found_literal (v ∷ vs) = is_sensitive_literal v || found_literal vs

module _ (hash_hex : Bytes → Bytes) where
  -- `ValueCollector::hash_value`: the hash of the salt and the value, in hex.
  pub hash_value : Bytes → Bytes → Bytes
  hash_value salt value = hash_hex (salt ++ value)

  abbrev pub push_fingerprint : Bytes → Option Bytes → List Bytes → List Bytes
  push_fingerprint salt none rest = rest
  push_fingerprint salt (some text) rest = hash_value salt text ∷ rest

  -- `ValueCollector` on the values that are visited.
  pub fingerprints : Bytes → List Value → List Bytes
  unfolding hash_value value_text
  fingerprints salt [] = []
  fingerprints salt (v ∷ vs) = push_fingerprint salt (value_text v) (fingerprints salt vs)

abbrev pub joined : Bytes → Option Bytes → Option Bytes
joined text none = none
joined text (some rest) = some (text ++ codes "; " ++ rest)

module _ {S : Type 0} (sql : SqlParser S) where
  pub normalize_statement : S → Option Bytes
  unfolding found_literal replace_value
  normalize_statement stmt =
      let normalized = sql.visit_mut replace_value stmt in
      if found_literal (sql.visit normalized) then none else some (sql.to_string normalized)

  abbrev pub first_then : Option Bytes → Option Bytes → Option Bytes
  first_then none rest = none
  first_then (some text) rest = joined text rest

  -- The statements' forms with `"; "` between them, unless one of them fails.
  pub normalize_statements : List S → Option Bytes
  unfolding normalize_statement
  normalize_statements [] = some []
  normalize_statements (stmt ∷ []) = normalize_statement stmt
  normalize_statements (stmt ∷ next ∷ rest) =
      first_then (normalize_statement stmt) (normalize_statements (next ∷ rest))

  pub visit_all : List S → List Value
  visit_all [] = []
  visit_all (stmt ∷ rest) = sql.visit stmt ++ visit_all rest

  abbrev pub with_fingerprints : List Bytes → Option Bytes → Option AnonymizedQuery
  with_fingerprints fs none = none
  with_fingerprints fs (some normalized) =
      some (record { normalized_query = normalized; value_fingerprints = fs })

  abbrev pub anonymize_statements :
      (Bytes → Bytes) → QueryAnonymizer → Option (List S) → Option AnonymizedQuery
  anonymize_statements hash_hex anonymizer none = none
  anonymize_statements hash_hex anonymizer (some []) = none
  anonymize_statements hash_hex anonymizer (some (stmt ∷ rest)) =
      with_fingerprints (fingerprints hash_hex anonymizer.salt (visit_all (stmt ∷ rest)))
        (normalize_statements (stmt ∷ rest))

  -- A text that does not parse, and one without a statement, give nothing.
  pub anonymize : (Bytes → Bytes) → QueryAnonymizer → Bytes → Option AnonymizedQuery
  unfolding fingerprints normalize_statements visit_all
  anonymize hash_hex anonymizer query =
      anonymize_statements hash_hex anonymizer (sql.parse_sql query)
