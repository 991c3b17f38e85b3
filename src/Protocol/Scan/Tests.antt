-- ===== src/Protocol/Scan/Tests.antt =====
-- What a server sends: an instance of each result.
use scry_proxy.Base.{◌≡◌, List, [], ◌∷◌, arith, codes}
use scry_proxy.Protocol.Wire.{Frame}
use scry_proxy.Protocol.Scan.{stuck, extract_ready_for_query}
use scry_proxy.Protocol.Scan.Hang.{extract_ready_for_query_hangs}

-- A data row whose text holds the bytes of a ReadyForQuery, CommandComplete, and ReadyForQuery in a transaction.
abbrev reply : List Frame
reply =
    record { tag = b'D'; payload = b'Z' ∷ 0 ∷ 0 ∷ 0 ∷ 5 ∷ b'I' ∷ [] }
    ∷ record { tag = b'C'; payload = codes "OK" }
    ∷ record { tag = b'Z'; payload = b'T' ∷ [] }
    ∷ []

extract_ready_for_query_hangs_example :
    extract_ready_for_query 1000 (b'E' ∷ 255 ∷ 255 ∷ 255 ∷ 255 ∷ []) ≡ stuck
extract_ready_for_query_hangs_example =
    extract_ready_for_query_hangs 1000 b'E' [] (λ e. omega arith)
