-- ===== src/Protocol/Anonymize/Shapes.antt =====
-- What the anonymized form of a query depends on: the plain literals are all replaced, the check
-- behind the replacement never fails, and other literals give the same form.
use mathlib.Core.Path.{fun_ext}
use scry_proxy.Base.{
  ◌≡◌, refl, ap, sym, ◌∙◌, Bool, Option, true, false, none, some, List, [], ◌∷◌, ◌++◌, map, arith,
  Bytes, codes, Bool-cases, inl, inr, if◌then◌else◌,
}
use scry_proxy.Protocol.Anonymize.{
  Value, number, single_quoted_string, double_quoted_string, boolean, null, placeholder,
  other_value, SqlParser, QueryAnonymizer, is_sensitive_literal, value_text, replace_value,
  found_literal, hash_value, push_fingerprint, fingerprints, normalize_statement,
  normalize_statements, visit_all, anonymize,
}

replace_value-is_sensitive_literal : (v : Value) → is_sensitive_literal (replace_value v) ≡ false
unfolding replace_value is_sensitive_literal
replace_value-is_sensitive_literal (number n) = refl
replace_value-is_sensitive_literal (single_quoted_string s) = refl
replace_value-is_sensitive_literal (double_quoted_string s) = refl
replace_value-is_sensitive_literal (boolean b) = refl
replace_value-is_sensitive_literal null = refl
replace_value-is_sensitive_literal (placeholder s) = refl
replace_value-is_sensitive_literal (other_value p) = refl

found_literal-map : (vs : List Value) → found_literal (map replace_value vs) ≡ false
unfolding found_literal
found_literal-map [] = refl
found_literal-map (v ∷ vs) =
    ground (arith, replace_value-is_sensitive_literal v, found_literal-map vs)

-- The literals in the plain kinds: numbers, strings in single and double quotes, Booleans and NULL, with their texts.
abbrev pub plain_text : Value → Option Bytes
plain_text (number n) = some n
plain_text (single_quoted_string s) = some s
plain_text (double_quoted_string s) = some s
plain_text (boolean true) = some (codes "true")
plain_text (boolean false) = some (codes "false")
plain_text null = some (codes "NULL")
plain_text (placeholder s) = none
plain_text (other_value printed) = none

abbrev pub is_plain : Value → Bool
is_plain (number n) = true
is_plain (single_quoted_string s) = true
is_plain (double_quoted_string s) = true
is_plain (boolean b) = true
is_plain null = true
is_plain (placeholder s) = false
is_plain (other_value printed) = false

-- A `?` in the place of a plain literal.
abbrev pub to_placeholder : Value → Value
to_placeholder v = if is_plain v then placeholder (codes "?") else v

abbrev cons_some : Option Bytes → List Bytes → List Bytes
cons_some none texts = texts
cons_some (some t) texts = t ∷ texts

abbrev pub plain_texts : List Value → List Bytes
plain_texts [] = []
plain_texts (v ∷ vs) = cons_some (plain_text v) (plain_texts vs)

is_sensitive_literal-is_plain : (v : Value) → is_sensitive_literal v ≡ is_plain v
unfolding is_sensitive_literal
is_sensitive_literal-is_plain (number n) = refl
is_sensitive_literal-is_plain (single_quoted_string s) = refl
is_sensitive_literal-is_plain (double_quoted_string s) = refl
is_sensitive_literal-is_plain (boolean b) = refl
is_sensitive_literal-is_plain null = refl
is_sensitive_literal-is_plain (placeholder s) = refl
is_sensitive_literal-is_plain (other_value printed) = refl

replace_value-to_placeholder : (v : Value) → replace_value v ≡ to_placeholder v
unfolding replace_value
replace_value-to_placeholder v =
    ap (λ b. if b then placeholder (codes "?") else v) (is_sensitive_literal-is_plain v)

value_text-plain_text : (v : Value) → value_text v ≡ plain_text v
unfolding value_text
value_text-plain_text (number n) = refl
value_text-plain_text (single_quoted_string s) = refl
value_text-plain_text (double_quoted_string s) = refl
value_text-plain_text (boolean true) = refl
value_text-plain_text (boolean false) = refl
value_text-plain_text null = refl
value_text-plain_text (placeholder s) = refl
value_text-plain_text (other_value printed) = refl

push_fingerprint-cons_some :
    (hash_hex : Bytes → Bytes) (salt : Bytes) (o : Option Bytes) (texts : List Bytes)
    → push_fingerprint hash_hex salt o (map (λ t. hash_hex (salt ++ t)) texts)
      ≡ map (λ t. hash_hex (salt ++ t)) (cons_some o texts)
unfolding hash_value
push_fingerprint-cons_some hash_hex salt none texts = refl
push_fingerprint-cons_some hash_hex salt (some t) texts = refl

fingerprints-plain_texts :
    (hash_hex : Bytes → Bytes) (salt : Bytes) (vs : List Value)
    → fingerprints hash_hex salt vs ≡ map (λ t. hash_hex (salt ++ t)) (plain_texts vs)
unfolding fingerprints
fingerprints-plain_texts hash_hex salt [] = refl
fingerprints-plain_texts hash_hex salt (v ∷ vs) =
    ap (λ fs. push_fingerprint hash_hex salt (value_text v) fs)
      (fingerprints-plain_texts hash_hex salt vs)
    ∙ ap (λ o. push_fingerprint hash_hex salt o (map (λ t. hash_hex (salt ++ t)) (plain_texts vs)))
        (value_text-plain_text v)
    ∙ push_fingerprint-cons_some hash_hex salt (plain_text v) (plain_texts vs)

-- A change of values that gives a plain literal for a plain literal, and leaves all else alone.
pub record OnlyLiterals (f : Value → Value) : Type 0 where
  pub literal : (v : Value) → is_plain v ≡ true → is_plain (f v) ≡ true
  pub other : (v : Value) → is_plain v ≡ false → f v ≡ v

to_placeholder-literal :
    (v : Value) → is_plain v ≡ true → to_placeholder v ≡ placeholder (codes "?")
to_placeholder-literal v h = ap (λ b. if b then placeholder (codes "?") else v) h

to_placeholder-eq :
    (f : Value → Value) → OnlyLiterals f → (v : Value) → to_placeholder (f v) ≡ to_placeholder v
to_placeholder-eq f only v = elim (Bool-cases (is_plain v)) [
  | inl h ↦ to_placeholder-literal (f v) (only.literal v h) ∙ sym (to_placeholder-literal v h)
  | inr h ↦ ap to_placeholder (only.other v h)
]

module _ {S : Type 0} (sql : SqlParser S) where
  abbrev pub replaced : S → Bytes
  replaced stmt = sql.to_string (sql.visit_mut to_placeholder stmt)

  replaced-replace_value :
      (stmt : S) → sql.to_string (sql.visit_mut replace_value stmt) ≡ replaced stmt
  replaced-replace_value stmt =
      ap (λ g. sql.to_string (sql.visit_mut g stmt)) (fun_ext replace_value-to_placeholder)

  normalize_statement-eq_some : (stmt : S) → normalize_statement sql stmt ≡ some (replaced stmt)
  unfolding normalize_statement
  normalize_statement-eq_some stmt =
      ap (λ b. if b then none else some (sql.to_string (sql.visit_mut replace_value stmt)))
        (ap found_literal (sql.visit-visit_mut replace_value stmt)
          ∙ found_literal-map (sql.visit stmt))
      ∙ ap (λ form. some form) (replaced-replace_value stmt)

  -- The printed statements, with `"; "` between them.
  abbrev pub print_all : S → List S → Bytes
  print_all stmt [] = replaced stmt
  print_all stmt (next ∷ rest) = replaced stmt ++ codes "; " ++ print_all next rest

  normalize_statements-eq_some :
      (stmt : S) (rest : List S)
      → normalize_statements sql (stmt ∷ rest) ≡ some (print_all stmt rest)
  unfolding normalize_statements
  normalize_statements-eq_some stmt [] = normalize_statement-eq_some stmt
  normalize_statements-eq_some stmt (next ∷ rest) =
      rw (normalize_statement-eq_some stmt, normalize_statements-eq_some next rest) refl

  pub anonymize-parse_sql :
      (hash_hex : Bytes → Bytes) (anonymizer : QueryAnonymizer) (query : Bytes) (stmt : S)
      (rest : List S)
      → sql.parse_sql query ≡ some (stmt ∷ rest)
      → anonymize sql hash_hex anonymizer query
        ≡ some (record {
          normalized_query = print_all stmt rest;
          value_fingerprints =
              map
                (λ t. hash_hex (anonymizer.salt ++ t))
                (plain_texts (visit_all sql (stmt ∷ rest)));
        })
  unfolding anonymize
  anonymize-parse_sql hash_hex anonymizer query stmt rest e =
      rw
        (
          e,
          normalize_statements-eq_some stmt rest,
          fingerprints-plain_texts hash_hex anonymizer.salt (visit_all sql (stmt ∷ rest)),
        )
        refl

  -- A text that does not parse gives nothing.
  pub anonymize-unparseable :
      (hash_hex : Bytes → Bytes) (anonymizer : QueryAnonymizer) (query : Bytes)
      → sql.parse_sql query ≡ none
      → anonymize sql hash_hex anonymizer query ≡ none
  unfolding anonymize
  anonymize-unparseable hash_hex anonymizer query e = rw e refl

  module _ (f : Value → Value) (only : OnlyLiterals f) where
    replaced-visit_mut : (stmt : S) → replaced (sql.visit_mut f stmt) ≡ replaced stmt
    replaced-visit_mut stmt = ap sql.to_string (
        sql.visit_mut-visit_mut f to_placeholder stmt
        ∙ ap (λ g. sql.visit_mut g stmt) (fun_ext (to_placeholder-eq f only)))

    print_all-map :
        (stmt : S) (rest : List S)
        → print_all (sql.visit_mut f stmt) (map (sql.visit_mut f) rest) ≡ print_all stmt rest
    print_all-map stmt [] = replaced-visit_mut stmt
    print_all-map stmt (next ∷ rest) = rw (replaced-visit_mut stmt, print_all-map next rest) refl

  -- Two queries that differ only in their plain literals have the same normalized form: the form tells nothing of what the
  -- literals are. Conditions: both parse, and the statements of the second are those of the first with other plain literals.
  pub anonymize_hides_literals :
      (hash_hex : Bytes → Bytes) (anonymizer : QueryAnonymizer) (query query' : Bytes)
      (f : Value → Value) (stmt : S) (rest : List S)
      → OnlyLiterals f
      → sql.parse_sql query ≡ some (stmt ∷ rest)
      → sql.parse_sql query' ≡ some (map (sql.visit_mut f) (stmt ∷ rest))
      → (form : Bytes) × (fs fs' : List Bytes) × (anonymize sql hash_hex anonymizer query
          ≡ some (record { normalized_query = form; value_fingerprints = fs }))
        × (anonymize sql hash_hex anonymizer query'
            ≡ some (record { normalized_query = form; value_fingerprints = fs' }))
  anonymize_hides_literals hash_hex anonymizer query query' f stmt rest only e e' =
      let fingerprints_of : List S → List Bytes =
        λ stmts. map (λ t. hash_hex (anonymizer.salt ++ t)) (plain_texts (visit_all sql stmts)) in
      let fs' = fingerprints_of (map (sql.visit_mut f) (stmt ∷ rest)) in
      (
        print_all stmt rest,
        fingerprints_of (stmt ∷ rest),
        fs',
        anonymize-parse_sql hash_hex anonymizer query stmt rest e,
        anonymize-parse_sql hash_hex anonymizer query' (sql.visit_mut f stmt)
              (map (sql.visit_mut f) rest) e'
            ∙ ap (λ form. some (record { normalized_query = form; value_fingerprints = fs' }))
                (print_all-map f only stmt rest),
      )
