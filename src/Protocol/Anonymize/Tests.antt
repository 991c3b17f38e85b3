-- ===== src/Protocol/Anonymize/Tests.antt =====
-- A run of the anonymizer.
use scry_proxy.Base.{codes}
use scry_proxy.Protocol.Anonymize.{Value, single_quoted_string, QueryAnonymizer}

abbrev salted : QueryAnonymizer
salted = record { salt = codes "salt" }

abbrev statement : Value
statement = single_quoted_string (codes "one")
