-- ===== src/Protocol/ErrorFields/Fuel.antt =====
-- The loops of the error search need no more rounds than there are bytes: their fuel is never used up.
use scry_proxy.Base.{
  ℕ, zero, suc, ◌≤◌, ◌≡◌, ◌<◌, ◌∙◌, sym, length-drop, refl, none, [], ◌∷◌, arith, Bytes, length,
  drop, sub64,
}
use scry_proxy.Protocol.Wire.{be32, i32_to_usize}
use scry_proxy.Protocol.ErrorFields.{scan_error}

scan_error_short : (f : ℕ) (bytes : Bytes) → length bytes < 5 → scan_error f bytes ≡ none
unfolding scan_error
scan_error_short zero bytes h = refl
scan_error_short (suc f) [] h = refl
scan_error_short (suc f) (t ∷ []) h = refl
scan_error_short (suc f) (t ∷ a ∷ []) h = refl
scan_error_short (suc f) (t ∷ a ∷ b ∷ []) h = refl
scan_error_short (suc f) (t ∷ a ∷ b ∷ c ∷ []) h = refl
scan_error_short (suc f) (t ∷ a ∷ b ∷ c ∷ d ∷ rest) h = ground arith

both_short : (f g : ℕ) (bytes : Bytes) → length bytes < 5 → scan_error f bytes ≡ scan_error g bytes
both_short f g bytes h = scan_error_short f bytes h ∙ sym (scan_error_short g bytes h)

-- With at least as many rounds as there are bytes, the search for an error gives the same result whatever the
-- number of rounds: it has ended by itself.
pub scan_error_fuel :
    (f g : ℕ) (bytes : Bytes)
    → length bytes ≤ f
    → length bytes ≤ g
    → scan_error f bytes ≡ scan_error g bytes
unfolding scan_error
scan_error_fuel f g [] p q = both_short f g [] (omega arith)
scan_error_fuel f g (t ∷ []) p q = both_short f g (t ∷ []) (omega arith)
scan_error_fuel f g (t ∷ a ∷ []) p q = both_short f g (t ∷ a ∷ []) (omega arith)
scan_error_fuel f g (t ∷ a ∷ b ∷ []) p q = both_short f g (t ∷ a ∷ b ∷ []) (omega arith)
scan_error_fuel f g (t ∷ a ∷ b ∷ c ∷ []) p q = both_short f g (t ∷ a ∷ b ∷ c ∷ []) (omega arith)
scan_error_fuel zero g (t ∷ a ∷ b ∷ c ∷ d ∷ rest) p q = ground arith
scan_error_fuel (suc f) zero (t ∷ a ∷ b ∷ c ∷ d ∷ rest) p q = ground arith
scan_error_fuel (suc f) (suc g) (t ∷ a ∷ b ∷ c ∷ d ∷ rest) p q =
    let n = sub64 (i32_to_usize (be32 a b c d)) 4 in
    let shorter = length-drop n rest in
    let inside = scan_error_fuel f g rest (omega (arith, p)) (omega (arith, q)) in
    let behind =
      scan_error_fuel f g (drop n rest) (omega (arith, p, shorter)) (omega (arith, q, shorter)) in
    rw (inside, behind) refl
