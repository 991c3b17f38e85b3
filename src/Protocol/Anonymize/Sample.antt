-- ===== src/Protocol/Anonymize/Sample.antt =====
-- A parser for the runs: every text is one statement, which consists of that text as a literal.
use scry_proxy.Base.{◌≡◌, refl, true, false, some, [], ◌∷◌, Bytes, codes}
use scry_proxy.Protocol.Anonymize.{
  Value, number, single_quoted_string, double_quoted_string, boolean, null, placeholder,
  other_value, SqlParser,
}
use scry_proxy.Protocol.Anonymize.Shapes.{is_plain}

abbrev pub printed_value : Value → Bytes
printed_value (number n) = n
printed_value (single_quoted_string s) = s
printed_value (double_quoted_string s) = s
printed_value (boolean b) = codes "true"
printed_value null = codes "NULL"
printed_value (placeholder s) = s
printed_value (other_value printed) = printed

abbrev pub sample : SqlParser Value
sample = record {
  parse_sql = λ query. some (single_quoted_string query ∷ []);
  visit = λ v. v ∷ [];
  visit_mut = λ f v. f v;
  to_string = printed_value;
  visit-visit_mut = λ f v. refl;
  visit_mut-visit_mut = λ f g v. refl;
}

-- Another literal in the place of each one.
abbrev pub to_two : Value → Value
to_two (number n) = single_quoted_string (codes "two")
to_two (single_quoted_string s) = single_quoted_string (codes "two")
to_two (double_quoted_string s) = single_quoted_string (codes "two")
to_two (boolean b) = single_quoted_string (codes "two")
to_two null = single_quoted_string (codes "two")
to_two (placeholder s) = placeholder s
to_two (other_value printed) = other_value printed

pub to_two_literal : (v : Value) → is_plain v ≡ true → is_plain (to_two v) ≡ true
to_two_literal (number n) e = refl
to_two_literal (single_quoted_string s) e = refl
to_two_literal (double_quoted_string s) e = refl
to_two_literal (boolean b) e = refl
to_two_literal null e = refl
to_two_literal (placeholder s) e = e
to_two_literal (other_value printed) e = e

pub to_two_other : (v : Value) → is_plain v ≡ false → to_two v ≡ v
to_two_other (number n) e = cc
to_two_other (single_quoted_string s) e = cc
to_two_other (double_quoted_string s) e = cc
to_two_other (boolean b) e = cc
to_two_other null e = cc
to_two_other (placeholder s) e = refl
to_two_other (other_value printed) e = refl
