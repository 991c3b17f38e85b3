-- ===== src/Protocol/AuthMessages/Panics.antt =====
-- Where the parsers of scry-proxy/src/protocol/auth_messages.rs panic: a length field that is too small.
use scry_proxy.Base.{
  ℕ, ◌-◌, ◌+◌, ◌^◌, ◌≤◌, ◌<◌, ◌≡◌, ◌↔◌, refl, ap, sym, ◌∙◌, Bool, false, not, Bytes, length, take,
  drop, ltb, ◌==◌, if◌then◌else◌, arith, subst, Bool-cases, inl, inr, ◌⊎◌,
}
use scry_proxy.Protocol.Wire.{byte_at, i32_to_usize, add_usize}
use scry_proxy.Protocol.Utf8.{is_utf8}
use scry_proxy.Protocol.Messages.{Parsed, parsed, rejected, panicked, ◌>>=◌}
use scry_proxy.Protocol.Startup.{be32_at}
use scry_proxy.Protocol.AuthMessages.{
  AuthRequest, sasl_continue, sasl_final, parse_password_message, parse_auth_request, auth_request,
  slice, if_utf8,
}

if_utf8-returns : (s : Bytes) → ¬ (if_utf8 s ≡ panicked)
if_utf8-returns s e = elim (Bool-cases (is_utf8 s)) [
  | inl fine ↦ ground (arith, fine, e)
  | inr bad ↦ ground (arith, bad, e)
]

-- A password message makes its parser panic exactly if its length field, which counts itself, is below 5. Conditions:
-- the message has the five bytes of a header, starts with `p`, and its length field is not negative.
pub parse_password_message_panics :
    (bytes : Bytes)
    → 5 ≤ length bytes
    → byte_at bytes 0 ≡ b'p'
    → be32_at bytes 1 < 2 ^ 31
    → (parse_password_message bytes ≡ panicked) ↔ (be32_at bytes 1 < 5)
unfolding parse_password_message
parse_password_message_panics bytes header p positive =
    ground (arith, if_utf8-returns (take (be32_at bytes 1 - 5) (drop 5 bytes)))

-- The rest of a message from its tenth byte on.
payload_panics :
    (f : Bytes → AuthRequest) (end : ℕ) (bytes : Bytes)
    → end ≤ length bytes
    → ((slice 9 end bytes >>= λ payload. parsed (f payload)) ≡ panicked) ↔ (end < 9)
payload_panics f end bytes inside = ground arith

auth_request_panics :
    (code end : ℕ) (bytes : Bytes)
    → code ≡ 11 ⊎ code ≡ 12
    → end ≤ length bytes
    → (auth_request code end bytes ≡ panicked) ↔ (end < 9)
auth_request_panics code end bytes (inl is_continue) inside =
    subst (λ c. (auth_request c end bytes ≡ panicked) ↔ (end < 9)) (sym is_continue)
      (payload_panics sasl_continue end bytes inside)
auth_request_panics code end bytes (inr is_final) inside =
    subst (λ c. (auth_request c end bytes ≡ panicked) ↔ (end < 9)) (sym is_final)
      (payload_panics sasl_final end bytes inside)

-- The tests before the code, for a length field that is not negative.
parse_auth_request_gate :
    (bytes : Bytes) (n : ℕ)
    → 9 ≤ length bytes
    → byte_at bytes 0 ≡ b'R'
    → be32_at bytes 1 ≡ n
    → n < 2 ^ 31
    → parse_auth_request bytes ≡ (
        if ltb (length bytes) (1 + n)
        then rejected
        else auth_request (be32_at bytes 5) (1 + n) bytes)
unfolding parse_auth_request
parse_auth_request_gate bytes n header r e positive =
    let gated : Bool → ℕ → Parsed AuthRequest = λ (b : Bool) (end : ℕ).
      if b
      then rejected
      else if ltb (length bytes) end
      then rejected
      else auth_request (be32_at bytes 5) end bytes in
    let long : ltb (length bytes) 9 ≡ false = ground (arith, header) in
    let tagged : not (byte_at bytes 0 == b'R') ≡ false = ground (arith, r) in
    let at_end : add_usize 1 (i32_to_usize (be32_at bytes 1)) ≡ 1 + n =
      ground (arith, e, positive) in
    ap
      (λ b.
        if b
        then rejected
        else gated (not (byte_at bytes 0 == b'R')) (add_usize 1 (i32_to_usize (be32_at bytes 1))))
      long
    ∙ ap (λ b. gated b (add_usize 1 (i32_to_usize (be32_at bytes 1)))) tagged
    ∙ ap (gated false) at_end

-- The parser of a backend's authentication request panics on a message of code 11 or 12 exactly if its length field,
-- which counts itself, is below 8. Conditions: the message has nine bytes at least, starts with `R`, and its length
-- field is not negative.
pub parse_auth_request_panics :
    (bytes : Bytes)
    → 9 ≤ length bytes
    → byte_at bytes 0 ≡ b'R'
    → be32_at bytes 1 < 2 ^ 31
    → be32_at bytes 5 ≡ 11 ⊎ be32_at bytes 5 ≡ 12
    → (parse_auth_request bytes ≡ panicked) ↔ (be32_at bytes 1 < 8)
parse_auth_request_panics bytes header r positive code =
    let n = be32_at bytes 1 in
    let rest = auth_request (be32_at bytes 5) (1 + n) bytes in
    let gate = parse_auth_request_gate bytes n header r refl positive in
    elim (Bool-cases (ltb (length bytes) (1 + n))) [
      | inl short ↦
          let gone : parse_auth_request bytes ≡ rejected =
            gate ∙ ap (λ b. if b then rejected else rest) short in
          subst (λ p. (p ≡ panicked) ↔ (n < 8)) (sym gone)
            (
              λ (e : rejected ≡ panicked). cc,
              λ (small : n < 8). absurd (ground (arith, short, header, small)),
            )
      | inr whole ↦
          let reached : parse_auth_request bytes ≡ rest =
            gate ∙ ap (λ b. if b then rejected else rest) whole in
          let (only, if') =
            auth_request_panics (be32_at bytes 5) (1 + n) bytes code (ground (arith, whole)) in
          subst (λ p. (p ≡ panicked) ↔ (n < 8)) (sym reached)
            (
              λ (e : rest ≡ panicked). omega (arith, only e),
              λ (small : n < 8). if' (omega (arith, small)),
            )
    ]
