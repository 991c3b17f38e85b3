-- ===== src/Protocol/Scan.antt =====
-- scry-proxy/src/protocol/extractor.rs: the scans of what the backend sends. A scan walks over the
-- frames of one chunk by an offset, in wrapping `usize` arithmetic. The source's loops have no bound:
-- `fuel` bounds the rounds, and `stuck` says that they are used up.

pub mod Stream
pub mod Hang
mod Tests
use scry_proxy.Base.{
  ℕ, zero, suc, ◌+◌, Bool, true, false, ◌||◌, Option, none, some, Bytes, length, leb, ltb, ◌==◌,
  if◌then◌else◌, is_some, is_empty,
}
use scry_proxy.Protocol.Wire.{byte_at, be32, i32_to_usize, add_usize}

abbrev pub msg_command_complete : ℕ
msg_command_complete = b'C'

abbrev pub msg_ready_for_query : ℕ
msg_ready_for_query = b'Z'

pub data Scan {ℓ} (A : Type ℓ) : Type ℓ where
  found : A → Scan A
  stuck : Scan A

-- The length field of the frame at an offset, as `usize`.
abbrev pub frame_length : Bytes → ℕ → ℕ
frame_length bytes offset = i32_to_usize (
    be32 (byte_at bytes (offset + 1)) (byte_at bytes (offset + 2)) (byte_at bytes (offset + 3))
      (byte_at bytes (offset + 4)))

-- `length < 4 || offset + 1 + length > data.len()`
abbrev pub is_incomplete : Bytes → ℕ → ℕ → Bool
is_incomplete bytes offset len = ltb len 4 || ltb (length bytes) (add_usize (offset + 1) len)

abbrev pub next_offset : ℕ → ℕ → ℕ
next_offset offset len = add_usize offset (add_usize 1 len)

-- The status byte of the frame at the offset, if it is a ReadyForQuery and lies within the chunk.
abbrev pub status_at : Bytes → ℕ → Option ℕ → Option ℕ
status_at bytes offset seen =
    if byte_at bytes offset == msg_ready_for_query
    then if leb (offset + 6) (length bytes) then some (byte_at bytes (offset + 5)) else seen
    else seen

unfoldable pub scan_status : ℕ → Bytes → ℕ → Option ℕ → Scan (Option ℕ)
scan_status zero bytes offset seen = stuck
scan_status (suc fuel) bytes offset seen =
    let len = frame_length bytes offset in
    let seen' = status_at bytes offset seen in
    let rest = scan_status fuel bytes (next_offset offset len) seen' in
    if leb (offset + 5) (length bytes)
    then if is_incomplete bytes offset len then found seen' else rest
    else found seen

unfoldable pub extract_ready_for_query : ℕ → Bytes → Scan (Option ℕ)
unfolding scan_status
extract_ready_for_query fuel bytes = scan_status fuel bytes 0 none

abbrev pub scan_map {ℓ κ} : {A : Type ℓ} {B : Type κ} → (A → B) → Scan A → Scan B
scan_map f (found a) = found (f a)
scan_map f stuck = stuck

pub contains_ready_for_query : ℕ → Bytes → Scan Bool
unfolding extract_ready_for_query
contains_ready_for_query fuel bytes = scan_map is_some (extract_ready_for_query fuel bytes)

unfoldable pub scan_complete : ℕ → Bytes → ℕ → Scan Bool
scan_complete zero bytes offset = stuck
scan_complete (suc fuel) bytes offset =
    let len = frame_length bytes offset in
    let rest = scan_complete fuel bytes (next_offset offset len) in
    if leb (offset + 5) (length bytes)
    then if byte_at bytes offset == msg_command_complete
        || byte_at bytes offset == msg_ready_for_query
      then found true
      else if is_incomplete bytes offset len
      then found false
      else rest
    else found false

unfoldable pub is_query_complete : ℕ → Bytes → Scan Bool
unfolding scan_complete
is_query_complete fuel bytes = if is_empty bytes then found false else scan_complete fuel bytes 0
