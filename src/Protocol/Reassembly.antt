-- ===== src/Protocol/Reassembly.antt =====
-- scry-proxy/src/protocol/extractor.rs, `extract_messages`: the frontend's messages out of chunks that
-- may be cut anywhere. The state is `frontend_buffer`; the loop's offset is what is left of the
-- buffer, since every length that passes the test is positive.
pub mod Drain
pub mod Chunks
mod Tests
use scry_proxy.Base.{
  ℕ, zero, suc, ◌+◌, ◌-◌, ◌*◌, ◌^◌, Bool, true, false, ◌||◌, Option, none, some, List, [], ◌∷◌,
  ◌++◌, Bytes, length, take, drop, leb, ltb, if◌then◌else◌,
}
use scry_proxy.Protocol.Wire.{be32}
use scry_proxy.Protocol.Messages.{Message, Parsed, parsed, rejected, panicked, parse_message}

abbrev pub max_frontend_message_size : ℕ
max_frontend_message_size = 64 * 1024 * 1024

-- The type byte, the length field and what follows, if five bytes are there.
unfoldable pub header : Bytes → Option (ℕ × ℕ × Bytes)
header (tag ∷ a ∷ b ∷ c ∷ d ∷ body) = some (tag, be32 a b c d, body)
header _ = none

-- `length_i32 < 4 || length_i32 as usize > MAX_FRONTEND_MESSAGE_SIZE`
abbrev pub is_bad_length : ℕ → Bool
is_bad_length n = (leb (2 ^ 31) n || ltb n 4) || ltb max_frontend_message_size n

-- What the loop leaves: the messages, and the unconsumed tail or a framing error.
pub data Drained : Type 0 where
  retained : List Message → Bytes → Drained
  framing_error : List Message → Drained
  crashed : Drained
  unfinished : Drained

abbrev pub prepend : List Message → Drained → Drained
prepend ms (retained ms' rest) = retained (ms ++ ms') rest
prepend ms (framing_error ms') = framing_error (ms ++ ms')
prepend ms crashed = crashed
prepend ms unfinished = unfinished

abbrev pub consume : Parsed Message → Drained → Drained
consume (parsed m) d = prepend (m ∷ []) d
consume rejected d = d
consume panicked d = crashed

-- The loop, at most `fuel` rounds of it.
unfoldable pub drain : ℕ → Bytes → Drained
unfolding header
drain zero buffer = unfinished
drain (suc fuel) buffer = elim (header buffer) [
  | none ↦ retained [] buffer
  | some (tag, n, body) ↦
      let later = drain fuel (drop (n - 4) body) in
      if is_bad_length n
      then framing_error []
      else if ltb (length body) (n - 4)
      then retained [] buffer
      else consume (parse_message tag (take (n - 4) body)) later
]

-- What one call returns, with the buffer that it leaves.
pub data Extracted : Type 0 where
  returned : List Message → Bytes → Extracted
  crash : Extracted
  no_end : Extracted

abbrev pub settle : Drained → Extracted
settle (retained ms rest) = returned ms rest
settle (framing_error ms) = returned ms []
settle crashed = crash
settle unfinished = no_end

-- A round takes five bytes at least, so the buffer's length bounds the rounds.
unfoldable pub extract_messages : Bytes → Bytes → Extracted
unfolding drain
extract_messages buffer chunk = settle (drain (suc (length (buffer ++ chunk))) (buffer ++ chunk))

abbrev pub after_messages : List Message → Extracted → Extracted
after_messages ms (returned ms' buffer) = returned (ms ++ ms') buffer
after_messages ms crash = crash
after_messages ms no_end = no_end

abbrev pub and_then : Extracted → (Bytes → Extracted) → Extracted
and_then (returned ms buffer) f = after_messages ms (f buffer)
and_then crash f = crash
and_then no_end f = no_end

-- The calls for a sequence of reads.
pub feed : Bytes → List Bytes → Extracted
unfolding extract_messages
feed buffer [] = returned [] buffer
feed buffer (chunk ∷ chunks) = and_then (extract_messages buffer chunk) (λ b. feed b chunks)
