-- ===== src/Protocol/Scan/Stream.antt =====
-- The scans on a chunk that is cut at frames: they read what was written.
use mathlib.Core.List.{append_assoc}
use scry_proxy.Base.{
  ℕ, zero, suc, ◌+◌, ◌^◌, ◌≤◌, ◌<◌, ◌≡◌, refl, sym, ap, subst, ◌∙◌, Option, none, some, arith,
  Bytes, length, length-append, u64_mod, List, [], ◌∷◌, ◌++◌, Bool, true, false, ◌||◌, ◌==◌,
  if◌then◌else◌, All,
}
use scry_proxy.Protocol.Wire.{byte_at, byte_at-append, be32_round, Frame, frame_bytes, stream_bytes}
use scry_proxy.Protocol.Scan.{
  found, scan_status, scan_complete, extract_ready_for_query, is_query_complete,
  msg_command_complete, msg_ready_for_query, frame_length,
}

-- A frame as a server sends it: the length fits an `i32`, and ReadyForQuery carries its status.
abbrev pub IsFrame : Frame → Type 0
IsFrame f = (length f.payload + 4 < 2 ^ 31) × (f.tag ≡ msg_ready_for_query → 1 ≤ length f.payload)

-- The status in the last ReadyForQuery of a list of frames.
abbrev pub last_status : Option ℕ → List Frame → Option ℕ
last_status seen [] = seen
last_status seen (f ∷ fs) =
    last_status (if f.tag == msg_ready_for_query then some (byte_at f.payload 0) else seen) fs

module _ (pre rest : Bytes) (f : Frame) where
  abbrev chunk : Bytes
  chunk = pre ++ (frame_bytes f ++ rest)

  tag_at : byte_at chunk (length pre) ≡ f.tag
  tag_at = ap (byte_at chunk) zero_right ∙ byte_at-append pre (frame_bytes f ++ rest) 0
    where
      zero_right : length pre ≡ length pre + 0
      zero_right = omega arith

  frame_length_lem :
      length f.payload + 4 < 2 ^ 31 → frame_length chunk (length pre) ≡ length f.payload + 4
  frame_length_lem h =
      rw
        (
          byte_at-append pre (frame_bytes f ++ rest) 1,
          byte_at-append pre (frame_bytes f ++ rest) 2,
          byte_at-append pre (frame_bytes f ++ rest) 3,
          byte_at-append pre (frame_bytes f ++ rest) 4,
        )
        (ground (arith, be32_round (length f.payload + 4)))

  length-chunk : length chunk ≡ length pre + (5 + length f.payload + length rest)
  length-chunk = omega (
    arith,
    length-append pre (frame_bytes f ++ rest),
    length-append f.payload rest,
    length-append (frame_bytes f) rest,
  )

  first_payload : 1 ≤ length f.payload → byte_at chunk (length pre + 5) ≡ byte_at f.payload 0
  first_payload h = byte_at-append pre (frame_bytes f ++ rest) 5 ∙ head_of f.payload h
    where
      head_of : (p : Bytes) → 1 ≤ length p → byte_at (p ++ rest) 0 ≡ byte_at p 0
      head_of [] h = elim h [ ]
      head_of (x ∷ xs) h = refl

  -- One round consumes the frame.
  scan_status_frame :
      (fuel : ℕ) (seen : Option ℕ)
      → IsFrame f
      → length chunk < u64_mod
      → scan_status (suc fuel) chunk (length pre) seen
        ≡ scan_status fuel chunk
            (length (pre ++ frame_bytes f))
            (if f.tag == msg_ready_for_query then some (byte_at f.payload 0) else seen)
  unfolding scan_status
  scan_status_frame fuel seen w small =
      rw (sym after)
        (ground (arith, tag_at, frame_length_lem w.0, length-chunk, first_payload, w.1))
    where
      after : length pre + (5 + length f.payload) ≡ length (pre ++ frame_bytes f)
      after = omega (arith, length-append pre (frame_bytes f))

scan_status_end :
    (pre tail : Bytes) (fuel : ℕ) (seen : Option ℕ)
    → length tail < 5
    → scan_status (suc fuel) (pre ++ tail) (length pre) seen ≡ found seen
unfolding scan_status
scan_status_end pre tail fuel seen short = ground (arith, length-append pre tail)

regroup :
    (pre : Bytes) (f : Frame) (fs : List Frame) (tail : Bytes)
    → pre ++ (frame_bytes f ++ (stream_bytes fs ++ tail))
      ≡ (pre ++ frame_bytes f) ++ (stream_bytes fs ++ tail)
regroup pre f fs tail = sym (append_assoc pre (frame_bytes f) (stream_bytes fs ++ tail))

split_first :
    (f : Frame) (fs : List Frame) (tail : Bytes)
    → stream_bytes (f ∷ fs) ++ tail ≡ frame_bytes f ++ (stream_bytes fs ++ tail)
split_first f fs tail = append_assoc (frame_bytes f) (stream_bytes fs) tail

scan_status_stream :
    (pre : Bytes) (fs : List Frame) (tail : Bytes) (fuel : ℕ) (seen : Option ℕ)
    → All IsFrame fs
    → length tail < 5
    → length (pre ++ (stream_bytes fs ++ tail)) < u64_mod
    → length fs < fuel
    → scan_status fuel (pre ++ (stream_bytes fs ++ tail)) (length pre) seen
      ≡ found (last_status seen fs)
scan_status_stream pre fs tail zero seen w short small enough = absurd (omega arith)
scan_status_stream pre [] tail (suc fuel) seen w short small enough =
    scan_status_end pre tail fuel seen short
scan_status_stream pre (f ∷ fs) tail (suc fuel) seen w short small enough =
    let here : Bytes = pre ++ (frame_bytes f ++ (stream_bytes fs ++ tail)) in
    let whole : pre ++ (stream_bytes (f ∷ fs) ++ tail) ≡ here =
      ap (λ bs. pre ++ bs) (split_first f fs tail) in
    let small' : length here < u64_mod = subst (λ bs. length bs < u64_mod) whole small in
    let seen' : Option ℕ =
      if f.tag == msg_ready_for_query then some (byte_at f.payload 0) else seen in
    ap (λ bs. scan_status (suc fuel) bs (length pre) seen) whole
    ∙ scan_status_frame pre (stream_bytes fs ++ tail) f fuel seen w.0 small'
    ∙ ap (λ bs. scan_status fuel bs (length (pre ++ frame_bytes f)) seen') (regroup pre f fs tail)
    ∙ scan_status_stream (pre ++ frame_bytes f) fs tail fuel seen' w.1 short
        (subst (λ bs. length bs < u64_mod) (regroup pre f fs tail) small') (omega arith)

-- A chunk that holds whole frames and at most four bytes more is read to its end, in one round for
-- each frame and one more, and the status of the last ReadyForQuery among the frames is returned,
-- or `none` if there is none.
pub extract_ready_for_query_last :
    (fs : List Frame) (tail : Bytes) (fuel : ℕ)
    → All IsFrame fs
    → length tail < 5
    → length (stream_bytes fs ++ tail) < u64_mod
    → length fs < fuel
    → extract_ready_for_query fuel (stream_bytes fs ++ tail) ≡ found (last_status none fs)
unfolding extract_ready_for_query
extract_ready_for_query_last fs tail fuel w short small enough =
    scan_status_stream [] fs tail fuel none w short small enough

-- Some frame is a CommandComplete or a ReadyForQuery.
abbrev pub any_complete : List Frame → Bool
any_complete [] = false
any_complete (f ∷ fs) =
    (f.tag == msg_command_complete || f.tag == msg_ready_for_query) || any_complete fs

scan_complete_frame :
    (pre rest : Bytes) (f : Frame) (fuel : ℕ)
    → length f.payload + 4 < 2 ^ 31
    → length (chunk pre rest f) < u64_mod
    → scan_complete (suc fuel) (chunk pre rest f) (length pre) ≡ (
        if f.tag == msg_command_complete || f.tag == msg_ready_for_query
        then found true
        else scan_complete fuel (chunk pre rest f) (length (pre ++ frame_bytes f)))
unfolding scan_complete
scan_complete_frame pre rest f fuel w small =
    rw (sym after)
      (ground (arith, tag_at pre rest f, frame_length_lem pre rest f w, length-chunk pre rest f))
  where
    after : length pre + (5 + length f.payload) ≡ length (pre ++ frame_bytes f)
    after = omega (arith, length-append pre (frame_bytes f))

scan_complete_end :
    (pre tail : Bytes) (fuel : ℕ)
    → length tail < 5
    → scan_complete (suc fuel) (pre ++ tail) (length pre) ≡ found false
unfolding scan_complete
scan_complete_end pre tail fuel short = ground (arith, length-append pre tail)

scan_complete_stream :
    (pre : Bytes) (fs : List Frame) (tail : Bytes) (fuel : ℕ)
    → All IsFrame fs
    → length tail < 5
    → length (pre ++ (stream_bytes fs ++ tail)) < u64_mod
    → length fs < fuel
    → scan_complete fuel (pre ++ (stream_bytes fs ++ tail)) (length pre) ≡ found (any_complete fs)
scan_complete_stream pre fs tail zero w short small enough = absurd (omega arith)
scan_complete_stream pre [] tail (suc fuel) w short small enough =
    scan_complete_end pre tail fuel short
scan_complete_stream pre (f ∷ fs) tail (suc fuel) w short small enough =
    let here : Bytes = pre ++ (frame_bytes f ++ (stream_bytes fs ++ tail)) in
    let whole : pre ++ (stream_bytes (f ∷ fs) ++ tail) ≡ here =
      ap (λ bs. pre ++ bs) (split_first f fs tail) in
    let small' : length here < u64_mod = subst (λ bs. length bs < u64_mod) whole small in
    let later =
      ap (λ bs. scan_complete fuel bs (length (pre ++ frame_bytes f))) (regroup pre f fs tail)
      ∙ scan_complete_stream (pre ++ frame_bytes f) fs tail fuel w.1 short
          (subst (λ bs. length bs < u64_mod) (regroup pre f fs tail) small') (omega arith) in
    ap (λ bs. scan_complete (suc fuel) bs (length pre)) whole
    ∙ scan_complete_frame pre (stream_bytes fs ++ tail) f fuel w.0.0 small'
    ∙ ground (arith, later)

pub is_query_complete_frames :
    (fs : List Frame) (tail : Bytes) (fuel : ℕ)
    → All IsFrame fs
    → length tail < 5
    → length (stream_bytes fs ++ tail) < u64_mod
    → length fs < fuel
    → is_query_complete fuel (stream_bytes fs ++ tail) ≡ found (any_complete fs)
unfolding is_query_complete
is_query_complete_frames [] tail fuel w short small enough =
    ground (arith, scan_complete_stream [] [] tail fuel w short small enough)
is_query_complete_frames (f ∷ fs) tail fuel w short small enough =
    scan_complete_stream [] (f ∷ fs) tail fuel w short small enough
