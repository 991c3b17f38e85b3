-- ===== src/Proxy/Connection/Events/Tests.antt =====
-- Two executions that differ in a literal and in a parameter.
use scry_proxy.Base.{true, none, codes}
use scry_proxy.Proxy.Connection.Events.{AnonymizationSettings, redact, Outline}

abbrev anonymizing : AnonymizationSettings
anonymizing = record {
  enabled = true;
  anonymizer = record { salt = codes "salt" };
  parse_failure = redact;
}

abbrev outline : Outline
outline = record {
  params_incomplete = true;
  duration = 3;
  success = true;
  error = none;
  connection_id = codes "7";
  database = codes "app";
}
