-- ===== src/Protocol/Messages/Panics.antt =====
-- Payloads on which a parser panics instead of returning `None`.
use scry_proxy.Base.{ℕ, ◌+◌, ◌-◌, ◌*◌, ◌^◌, ◌≤◌, ◌<◌, ◌≡◌, ◌∷◌, ◌++◌, arith, Bytes}
use scry_proxy.Protocol.Wire.{be16, be32_bytes, be32_round, i16_to_usize}
use scry_proxy.Protocol.Messages.{panicked, with_capacity, read_param, parse_parse_message}
use scry_proxy.Protocol.Messages.RoundTrip.{IsText, cstring, read_cstring-cstring}

with_capacity_huge :
    (size a b : ℕ)
    → 1 ≤ size
    → 128 ≤ a
    → a < 256
    → b < 256
    → with_capacity size (i16_to_usize (be16 a b)) ≡ panicked
unfolding with_capacity
with_capacity_huge size a b s ha ha' hb =
    ground (arith, product_big size (i16_to_usize (be16 a b)) s)
  where
    product_big : (s n : ℕ) → 1 ≤ s → 2 ^ 63 ≤ n → 2 ^ 63 ≤ n * s
    product_big s n p q = grind arith

-- A Parse whose count of parameter types has its top bit set, 32768 or more as the unsigned count
-- that it is on the wire, panics, whatever its name, its query and the rest of the payload.
pub parse_panics_on_count :
    (name query rest : Bytes) (a b : ℕ)
    → IsText name
    → IsText query
    → 128 ≤ a
    → a < 256
    → b < 256
    → parse_parse_message (cstring name (cstring query (a ∷ b ∷ rest))) ≡ panicked
unfolding parse_parse_message
parse_panics_on_count name query rest a b t u ha ha' hb = rw (
  read_cstring-cstring name (cstring query (a ∷ b ∷ rest)) t,
  read_cstring-cstring query (a ∷ b ∷ rest) u,
  with_capacity_huge 4 a b (omega arith) ha ha' hb,
)

-- A value whose length field is negative and not -1 panics, if it stands far enough into its payload
-- for the wrapped end to be an offset of it.
pub read_param_panics :
    (offset len : ℕ) (rest : Bytes)
    → 2 ^ 31 ≤ len
    → len < 2 ^ 32 - 1
    → 2 ^ 32 ≤ offset + 4 + len
    → offset < 2 ^ 63
    → read_param offset (be32_bytes len ++ rest) ≡ panicked
unfolding read_param
read_param_panics offset len rest neg lt far small =
    rw (be32_round len (omega arith)) (ground arith)
