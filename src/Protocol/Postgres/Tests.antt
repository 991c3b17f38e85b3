-- ===== src/Protocol/Postgres/Tests.antt =====
-- Recycling on an idle response and a failed one.
use scry_proxy.Base.{◌≡◌, refl, some, [], ◌∷◌, Bytes}
use scry_proxy.Protocol.Scan.{found, extract_ready_for_query, scan_status}
use scry_proxy.Protocol.Postgres.{
  chunk, reset_connection, health_check, discard_all_query, empty_query,
}
use scry_proxy.Proxy.TcpPool.{recycle}
use scry_proxy.Protocol.Postgres.Responses.{with_reads, verdict, recycle-verdict}

abbrev idle_response : Bytes
idle_response = b'Z' ∷ 0 ∷ 0 ∷ 0 ∷ 5 ∷ b'I' ∷ []

abbrev failed_response : Bytes
failed_response = b'Z' ∷ 0 ∷ 0 ∷ 0 ∷ 5 ∷ b'E' ∷ []

idle_read : extract_ready_for_query 2 idle_response ≡ found (some b'I')
unfolding extract_ready_for_query scan_status
idle_read = refl

failed_read : extract_ready_for_query 2 failed_response ≡ found (some b'E')
unfolding extract_ready_for_query scan_status
failed_read = refl

recycle-verdict_example :
    recycle
      (health_check 2)
      (reset_connection 2)
      (with_reads (chunk idle_response ∷ chunk failed_response ∷ []) [])
    ≡ (with_reads [] (empty_query ∷ discard_all_query ∷ []), verdict b'I' b'E')
recycle-verdict_example =
    recycle-verdict 2 b'I' b'E' (idle_response ∷ []) (failed_response ∷ []) [] [] idle_read
      failed_read
