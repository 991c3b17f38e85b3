-- ===== src/Protocol/Reassembly/Tests.antt =====
-- A client's stream, cut in the middle of a frame: an instance of each result.
use scry_proxy.Base.{◌≡◌, refl, List, [], ◌∷◌, Bytes, codes, map, take, drop}
use scry_proxy.Protocol.Wire.{stream_bytes}
use scry_proxy.Protocol.Messages.{Message, query_msg, sync_msg}
use scry_proxy.Protocol.Reassembly.{drain, header, returned, feed}
use scry_proxy.Protocol.Reassembly.Chunks.{frame_of, feed_any_chunks}

abbrev client_messages : List Message
client_messages = query_msg (codes "BEGIN") ∷ sync_msg ∷ []

abbrev wire : Bytes
wire = stream_bytes (map frame_of client_messages)

-- The reads: the frame of the query is cut in its header and in its text.
abbrev reads : List Bytes
reads = take 3 wire ∷ take 5 (drop 3 wire) ∷ drop 8 wire ∷ []

feed_any_chunks_example :
    feed [] ((b'S' ∷ 0 ∷ []) ∷ (0 ∷ []) ∷ []) ≡ returned [] (b'S' ∷ 0 ∷ 0 ∷ [])
feed_any_chunks_example =
    feed_any_chunks ((b'S' ∷ 0 ∷ []) ∷ (0 ∷ []) ∷ []) [] (b'S' ∷ 0 ∷ 0 ∷ [])
      (unfold drain header in refl)
