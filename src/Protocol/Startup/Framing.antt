-- ===== src/Protocol/Startup/Framing.antt =====
-- What `read_startup_message` of scry-proxy/src/protocol/startup.rs returns.
use scry_proxy.Base.{
  ℕ, zero, suc, ◌-◌, ◌+◌, ◌≤◌, ◌<◌, ◌≡◌, refl, ap, sym, subst, ◌∙◌, false, Option, some, [], ◌∷◌,
  ◌++◌, Bytes, length, ltb, if-cases, Result, ok, err, arith, Option-cases, inl, inr, take, drop,
  length-take, length-drop,
}
use scry_proxy.Protocol.Wire.{byte_at, i32_to_usize}
use scry_proxy.Protocol.Startup.{
  StartupError, read_startup_message, with_length, with_body, be32_at, min_startup_message_size,
  max_startup_message_size,
}

-- The bytes that a stream still has: a read takes them from the front, or fails and does not give any.
pub record Delivers {S : Type 0} (read_exact : ℕ → S → S × Option Bytes) (left : S → Bytes)
    : Type 0 where
  pub takes :
      (n : ℕ) (s : S) (bytes : Bytes)
      → (read_exact n s).1 ≡ some bytes
      → (bytes ≡ take n (left s))
        × (n ≤ length (left s))
        × (left (read_exact n s).0 ≡ drop n (left s))

-- A message that may be returned.
pub record IsStartup (sent message : Bytes) : Type 0 where
  pub at_least : 8 ≤ length message
  pub at_most : length message ≤ 65536
  pub length_field : i32_to_usize (be32_at message 0) ≡ length message
  pub front : message ≡ take (length message) sent

abbrev pub Holds : Bytes → Result Bytes StartupError → Type 0
Holds sent (ok message) = IsStartup sent message
Holds sent (err e) = Unit

byte_at-take : (n i : ℕ) (xs : Bytes) → i < n → byte_at (take n xs) i ≡ byte_at xs i
byte_at-take zero i xs h = absurd (omega (arith, h))
byte_at-take (suc n) i [] h = refl
byte_at-take (suc n) zero (x ∷ xs) h = refl
byte_at-take (suc n) (suc i) (x ∷ xs) h = byte_at-take n i xs (omega (arith, h))

take-nil : (n : ℕ) → take {A = ℕ} n [] ≡ []
take-nil zero = refl
take-nil (suc n) = refl

take-add : (n k : ℕ) (xs : Bytes) → take n xs ++ take k (drop n xs) ≡ take (n + k) xs
take-add zero k xs = ap (λ (m : ℕ). take m xs) (omega arith)
take-add (suc n) k [] = take-nil k ∙ sym (take-nil (suc n + k))
take-add (suc n) k (x ∷ xs) =
    let sum : suc (n + k) ≡ suc n + k = omega arith in
    ap (λ (ys : Bytes). x ∷ ys) (take-add n k xs) ∙ ap (λ (m : ℕ). take m (x ∷ xs)) sum

be32_at-take : (n : ℕ) (xs : Bytes) → 4 ≤ n → be32_at (take n xs) 0 ≡ be32_at xs 0
be32_at-take n xs h =
    rw
      (
        byte_at-take n 0 xs (omega (arith, h)),
        byte_at-take n (0 + 1) xs (omega (arith, h)),
        byte_at-take n (0 + 2) xs (omega (arith, h)),
        byte_at-take n (0 + 3) xs (omega (arith, h)),
      )
      refl

module _ {S : Type 0} (read_exact : ℕ → S → S × Option Bytes) (left : S → Bytes) where
  with_body-Holds :
      (sent : Bytes) (size : ℕ) (s : S)
      → Delivers read_exact left
      → left s ≡ drop 4 sent
      → 4 ≤ length sent
      → size ≡ i32_to_usize (be32_at sent 0)
      → 8 ≤ size
      → size ≤ 65536
      → Holds sent (with_body (take 4 sent) (read_exact (size - 4) s)).1
  with_body-Holds sent size s d rest head field least most =
      let (s', o) = read_exact (size - 4) s in
      elim (Option-cases o) [
        | inl over ↦ subst (λ o. Holds sent (with_body (take 4 sent) (s', o)).1) (sym over) tt
        | inr (body, got) ↦
            let (front, room, after) = d.takes (size - 4) s body got in
            let message : take 4 sent ++ body ≡ take size sent =
              ap (λ bytes. take 4 sent ++ bytes) (front ∙ ap (take (size - 4)) rest)
              ∙ take-add 4 (size - 4) sent
              ∙ ap (λ (m : ℕ). take m sent) (omega (arith, least)) in
            let long : length (take size sent) ≡ size = omega (
              arith,
              length-take size sent,
              room,
              ap (λ (bytes : Bytes). length bytes) rest,
              length-drop 4 sent,
              head,
              least,
            ) in
            let right : IsStartup sent (take size sent) = record {
              at_least = omega (arith, long, least);
              at_most = omega (arith, long, most);
              length_field =
                  ap i32_to_usize (be32_at-take size sent (omega (arith, least)))
                  ∙ sym field
                  ∙ sym long;
              front = ap (λ (m : ℕ). take m sent) (sym long);
            } in
            subst (λ o. Holds sent (with_body (take 4 sent) (s', o)).1) (sym got)
              (subst (IsStartup sent) (sym message) right)
      ]

  -- What is returned is a whole start-up message: the bytes that the client sent first, as many as its length field
  -- says, at least 8 and at most 65536; whatever else the client sends is an error. Condition: a read of the stream
  -- takes bytes from its front, as many as asked for, or fails.
  pub read_startup_message-Holds :
      (s : S) → Delivers read_exact left → Holds (left s) (read_startup_message read_exact s).1
  unfolding read_startup_message
  read_startup_message-Holds s d =
      let (s', o) = read_exact 4 s in
      elim (Option-cases o) [
        | inl over ↦ subst (λ o. Holds (left s) (with_length read_exact (s', o)).1) (sym over) tt
        | inr (header, got) ↦
            let (front, room, after) = d.takes 4 s header got in
            let size = i32_to_usize (be32_at (take 4 (left s)) 0) in
            let field : size ≡ i32_to_usize (be32_at (left s) 0) =
              ap i32_to_usize (be32_at-take 4 (left s) (omega arith)) in
            let Right = λ (r : S × Result Bytes StartupError). Holds (left s) r.1 in
            subst (λ o. Holds (left s) (with_length read_exact (s', o)).1)
              (sym (got ∙ ap (λ h. some h) front))
              (if-cases Right (ltb size min_startup_message_size) (λ small. tt)
                (λ (least : ltb size min_startup_message_size ≡ false).
                  if-cases Right (ltb max_startup_message_size size) (λ large. tt)
                    (λ (most : ltb max_startup_message_size size ≡ false).
                      with_body-Holds (left s) size s' d after room field (ground (arith, least))
                        (ground (arith, most)))))
      ]
