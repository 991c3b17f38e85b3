-- ===== src/Protocol/Scan/Hang.antt =====
-- A chunk is not always cut at a frame. Where four bytes 0xff stand in the place of a length, as they do for
-- a NULL column, the offset does not move.
use scry_proxy.Base.{ℕ, zero, suc, ◌≡◌, ◌≢◌, refl, Option, arith, Bytes, ◌∷◌}
use scry_proxy.Protocol.Scan.{stuck, scan_status, extract_ready_for_query, msg_ready_for_query}

scan_status_hangs :
    (fuel tag : ℕ) (rest : Bytes) (seen : Option ℕ)
    → tag ≢ msg_ready_for_query
    → scan_status fuel (tag ∷ 255 ∷ 255 ∷ 255 ∷ 255 ∷ rest) 0 seen ≡ stuck
unfolding scan_status
scan_status_hangs zero tag rest seen h = refl
scan_status_hangs (suc fuel) tag rest seen h = ground (arith, scan_status_hangs fuel tag rest seen)

-- A chunk that starts with a byte other than 'Z' and then four bytes 0xff: no number of rounds ends
-- the scan for ReadyForQuery.
pub extract_ready_for_query_hangs :
    (fuel tag : ℕ) (rest : Bytes)
    → tag ≢ msg_ready_for_query
    → extract_ready_for_query fuel (tag ∷ 255 ∷ 255 ∷ 255 ∷ 255 ∷ rest) ≡ stuck
unfolding extract_ready_for_query
extract_ready_for_query_hangs fuel tag rest h = scan_status_hangs fuel tag rest _ h
