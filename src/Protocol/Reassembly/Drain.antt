-- ===== src/Protocol/Reassembly/Drain.antt =====
-- The loop of `extract_messages`: its end, and that it may be cut anywhere.
use mathlib.Core.List.{append_assoc}
use scry_proxy.Base.{
  ℕ, zero, suc, ◌+◌, ◌-◌, ◌≤◌, ◌<◌, ◌≡◌, ◌≢◌, refl, ap, sym, ◌∙◌, false, none, some, List, [], ◌∷◌,
  ◌++◌, Bytes, length, length-append, length-drop, take, drop, ltb, if◌then◌else◌, arith, ◌⊎◌, inl,
  inr, Option-cases, Bool-cases,
}
use scry_proxy.Protocol.Messages.{Message, Parsed, parsed, rejected, panicked, parse_message}
use scry_proxy.Protocol.Reassembly.{
  header, is_bad_length, Drained, retained, framing_error, crashed, unfinished, prepend, consume,
  drain,
}

take-append_le : (n : ℕ) (xs ys : Bytes) → n ≤ length xs → take n (xs ++ ys) ≡ take n xs
take-append_le zero xs ys h = refl
take-append_le (suc n) [] ys h = elim h [ ]
take-append_le (suc n) (x ∷ xs) ys h = ap (λ t. x ∷ t) (take-append_le n xs ys (omega arith))

drop-append_le : (n : ℕ) (xs ys : Bytes) → n ≤ length xs → drop n (xs ++ ys) ≡ drop n xs ++ ys
drop-append_le zero xs ys h = refl
drop-append_le (suc n) [] ys h = elim h [ ]
drop-append_le (suc n) (x ∷ xs) ys h = drop-append_le n xs ys (omega arith)

header-append :
    (xs ys : Bytes) {tag n : ℕ} {body : Bytes}
    → header xs ≡ some (tag, n, body)
    → header (xs ++ ys) ≡ some (tag, n, body ++ ys)
unfolding header
header-append (t ∷ a ∷ b ∷ c ∷ d ∷ body) ys h = ground arith
header-append _ ys h = cc

length-header :
    (xs : Bytes) {tag n : ℕ} {body : Bytes}
    → header xs ≡ some (tag, n, body)
    → length xs ≡ 5 + length body
unfolding header
length-header (t ∷ a ∷ b ∷ c ∷ d ∷ body) h = ground arith
length-header _ h = cc

drain-none : (f : ℕ) (xs : Bytes) → header xs ≡ none → drain (suc f) xs ≡ retained [] xs
unfolding drain
drain-none f xs h = rw (h, drain)

-- One round, with the header read.
abbrev pub round : ℕ → Bytes → ℕ → ℕ → Bytes → Drained
round f xs tag n body =
    if is_bad_length n
    then framing_error []
    else if ltb (length body) (n - 4)
    then retained [] xs
    else consume (parse_message tag (take (n - 4) body)) (drain f (drop (n - 4) body))

pub drain-some :
    (f : ℕ) (xs : Bytes) {tag n : ℕ} {body : Bytes}
    → header xs ≡ some (tag, n, body)
    → drain (suc f) xs ≡ round f xs tag n body
unfolding drain
drain-some f xs h = rw (h, drain)

-- Any two bounds above the length give the same result, so the bound never shows.
pub drain_fuel : (f g : ℕ) (xs : Bytes) → length xs < f → length xs < g → drain f xs ≡ drain g xs
drain_fuel zero g xs hf hg = absurd (omega arith)
drain_fuel (suc f) zero xs hf hg = absurd (omega arith)
drain_fuel (suc f) (suc g) xs hf hg = elim (Option-cases (header xs)) [
  | inl h ↦ drain-none f xs h ∙ sym (drain-none g xs h)
  | inr ((tag, n, body), h) ↦
      let same =
        drain_fuel f g (drop (n - 4) body)
          (omega (arith, length-header xs h, length-drop (n - 4) body))
          (omega (arith, length-header xs h, length-drop (n - 4) body)) in
      drain-some f xs h
      ∙ ap
          (λ (d : Drained).
            if is_bad_length n
            then framing_error []
            else if ltb (length body) (n - 4)
            then retained [] xs
            else consume (parse_message tag (take (n - 4) body)) d)
          same
      ∙ sym (drain-some g xs h)
]

prepend_nil : (d : Drained) → prepend [] d ≡ d
prepend_nil (retained ms rest) = refl
prepend_nil (framing_error ms) = refl
prepend_nil crashed = refl
prepend_nil unfinished = refl

prepend_assoc :
    (ms ms' : List Message) (d : Drained) → prepend ms (prepend ms' d) ≡ prepend (ms ++ ms') d
prepend_assoc ms ms' (retained ns rest) = ap (λ l. retained l rest) (sym (append_assoc ms ms' ns))
prepend_assoc ms ms' (framing_error ns) = ap framing_error (sym (append_assoc ms ms' ns))
prepend_assoc ms ms' crashed = refl
prepend_assoc ms ms' unfinished = refl

-- What becomes of a result when more bytes follow: only a retained tail is read on.
abbrev pub read_on : Drained → (Bytes → Drained) → Drained
read_on (retained ms rest) more = prepend ms (more rest)
read_on (framing_error ms) more = framing_error ms
read_on crashed more = crashed
read_on unfinished more = unfinished

read_on-consume :
    (p : Parsed Message) (d : Drained) (more : Bytes → Drained)
    → read_on (consume p d) more ≡ consume p (read_on d more)
read_on-consume (parsed m) (retained ms rest) more = sym (prepend_assoc (m ∷ []) ms (more rest))
read_on-consume (parsed m) (framing_error ms) more = refl
read_on-consume (parsed m) crashed more = refl
read_on-consume (parsed m) unfinished more = refl
read_on-consume rejected d more = refl
read_on-consume panicked d more = refl

round_whole :
    (f : ℕ) (xs ys : Bytes) (tag n : ℕ) (body : Bytes)
    → is_bad_length n ≡ false
    → n - 4 ≤ length body
    → round f (xs ++ ys) tag n (body ++ ys)
      ≡ consume (parse_message tag (take (n - 4) body)) (drain f (drop (n - 4) body ++ ys))
round_whole f xs ys tag n body good fits =
    rw (good, take-append_le (n - 4) body ys fits, drop-append_le (n - 4) body ys fits)
      (ground (arith, length-append body ys))

-- Reading `xs` and then the retained tail with `ys` behind it is reading `xs ++ ys`.
pub drain-append :
    (f g : ℕ) (xs ys : Bytes)
    → length (xs ++ ys) < f
    → length (xs ++ ys) < g
    → drain f (xs ++ ys) ≡ read_on (drain f xs) (λ rest. drain g (rest ++ ys))
drain-append zero g xs ys hf hg = absurd (omega arith)
drain-append (suc f) g xs ys hf hg = elim (Option-cases (header xs)) [
  | inl e ↦ rw (drain-none f xs e) kept
  | inr ((tag, n, body), e) ↦
      let same = drain-some f xs e in
      let more = drain-some f (xs ++ ys) (header-append xs ys e) in
      elim (Bool-cases (is_bad_length n)) [
        | inl bad ↦
            let left : drain (suc f) xs ≡ framing_error [] = same ∙ (rw bad) in
            let right : drain (suc f) (xs ++ ys) ≡ framing_error [] = more ∙ (rw bad) in
            right ∙ ap (λ d. read_on d (λ rest. drain g (rest ++ ys))) (sym left)
        | inr good ↦ elim (Bool-cases (ltb (length body) (n - 4))) [
          | inl short ↦ rw (same, good, short) kept
          | inr full ↦
              let fits : n - 4 ≤ length body = ground (arith, full) in
              let p = parse_message tag (take (n - 4) body) in
              let left : drain (suc f) xs ≡ consume p (drain f (drop (n - 4) body)) =
                same ∙ (rw (good, full)) in
              let shrunk : length (drop (n - 4) body ++ ys) + 5 ≤ length (xs ++ ys) = omega (
                arith,
                length-header xs e,
                length-append xs ys,
                length-append (drop (n - 4) body) ys,
                length-drop (n - 4) body,
              ) in
              more
              ∙ round_whole f xs ys tag n body good fits
              ∙ ap (consume p) (
                  drain-append f g (drop (n - 4) body) ys (omega (arith, shrunk))
                    (omega (arith, shrunk)))
              ∙ sym (read_on-consume p (drain f (drop (n - 4) body)) (λ rest. drain g (rest ++ ys)))
              ∙ ap (λ d. read_on d (λ rest. drain g (rest ++ ys))) (sym left)
        ]
      ]
]
  where
    kept : drain (suc f) (xs ++ ys) ≡ prepend [] (drain g (xs ++ ys))
    kept = drain_fuel (suc f) g (xs ++ ys) hf hg ∙ sym (prepend_nil (drain g (xs ++ ys)))

consume-ne-unfinished :
    (p : Parsed Message) (d : Drained) → d ≢ unfinished → consume p d ≢ unfinished
consume-ne-unfinished (parsed m) d ok = ground arith
consume-ne-unfinished rejected d ok = ok
consume-ne-unfinished panicked d ok = λ e. cc

-- The bound of the call is enough: the loop always ends by itself.
pub drain_ends : (f : ℕ) (xs : Bytes) → length xs < f → drain f xs ≢ unfinished
drain_ends zero xs h = absurd (omega arith)
drain_ends (suc f) xs h = elim (Option-cases (header xs)) [
  | inl e ↦ rw (drain-none f xs e) (λ c. cc)
  | inr ((tag, n, body), e) ↦ rw (drain-some f xs e) (
      consume_ends tag n body (
        drain_ends f (drop (n - 4) body)
          (omega (arith, length-header xs e, length-drop (n - 4) body))))
]
  where
    consume_ends :
        (tag n : ℕ) (body : Bytes)
        → drain f (drop (n - 4) body) ≢ unfinished
        → round f xs tag n body ≢ unfinished
    consume_ends tag n body ok =
        ground (arith, consume-ne-unfinished (parse_message tag (take (n - 4) body)) _ ok)

consume_retained :
    (p : Parsed Message) (d : Drained) {ms : List Message} {r : Bytes}
    → consume p d ≡ retained ms r
    → (ms' : List Message) × (d ≡ retained ms' r)
consume_retained (parsed m) (retained ms' r') h = (ms', ground arith)
consume_retained (parsed m) (framing_error ms') h = absurd (ground arith)
consume_retained (parsed m) crashed h = absurd (ground arith)
consume_retained (parsed m) unfinished h = absurd (ground arith)
consume_retained rejected d {ms} h = (ms, h)
consume_retained panicked d h = absurd (ground arith)

round_retained :
    (f : ℕ) (xs : Bytes) (tag n : ℕ) (body : Bytes) {ms : List Message} {r : Bytes}
    → round f xs tag n body ≡ retained ms r
    → (r ≡ xs) ⊎ ((ms' : List Message) × (drain f (drop (n - 4) body) ≡ retained ms' r))
round_retained f xs tag n body {ms} {r} h = elim (Bool-cases (is_bad_length n)) [
  | inl bad ↦ absurd (ground (arith, bad))
  | inr good ↦ elim (Bool-cases (ltb (length body) (n - 4))) [
    | inl short ↦ inl (ground (arith, good, short))
    | inr full ↦ inr (
        consume_retained (parse_message tag (take (n - 4) body)) (drain f (drop (n - 4) body))
          {ms = ms} {r = r} (ground (arith, good, full)))
  ]
]

-- What is retained is no longer than what was there.
pub length-retained-le :
    (f : ℕ) (xs : Bytes) {ms : List Message} {r : Bytes}
    → drain f xs ≡ retained ms r
    → length r ≤ length xs
unfolding drain
length-retained-le zero xs h = cc
length-retained-le (suc f) xs h = elim (Option-cases (header xs)) [
  | inl e ↦ ground (arith, drain-none f xs e)
  | inr ((tag, n, body), e) ↦ elim (round_retained f xs tag n body (sym (drain-some f xs e) ∙ h)) [
    | inl same ↦ ground (arith, same)
    | inr (ms', later) ↦ omega (
      arith,
      length-retained-le f (drop (n - 4) body) later,
      length-header xs e,
      length-drop (n - 4) body,
    )
  ]
]
