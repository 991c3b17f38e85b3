-- ===== src/Base/Sets.antt =====
-- A hash set, and a queue of keys, as lists: membership, and the calls that the source makes.
use scry_proxy.Base.Tests.{if◌then◌else◌}
use scry_proxy.Base.Lists.{length, keep_if}
use scry_proxy.Base.Keys.{Eq}
use Prim.Native.Nat.{suc}
use mathlib.Core.Path.{◌≡◌, refl}
use mathlib.Core.Bool.{Bool, true, false, not, ◌&&◌, ◌||◌}
use mathlib.Core.List.{List, [], ◌∷◌, ◌++◌}
use native.Mathlib.Omega.{arith}

module _ {ℓ} {K : Type ℓ} ⦃e : Eq K⦄ where
  abbrev pub has : K → List K → Bool
  has k [] = false
  has k (x ∷ xs) = e.beq x k || has k xs

  -- `HashSet::insert`
  abbrev pub add : K → List K → List K
  add k xs = if has k xs then xs else k ∷ xs

  -- `HashSet::remove(k)`, and `VecDeque::retain(|n| n != k)`
  abbrev pub without : K → List K → List K
  without k = keep_if (λ n. not (e.beq n k))

  abbrev pub Distinct : List K → Type 0
  Distinct [] = Unit
  Distinct (x ∷ xs) = (has x xs ≡ false) × Distinct xs

  pub has-without : (k j : K) (xs : List K) → has j (without k xs) ≡ (not (e.beq k j) && has j xs)
  has-without k j [] = ground arith
  has-without k j (x ∷ xs) =
      ground (arith, e.beq_iff k j, e.beq_iff x k, e.beq_iff x j, has-without k j xs)

  pub has-snoc : (k j : K) (xs : List K) → has j (xs ++ (k ∷ [])) ≡ (has j xs || e.beq k j)
  has-snoc k j [] = ground arith
  has-snoc k j (x ∷ xs) = ground (arith, has-snoc k j xs)

  pub has-add : (k j : K) (xs : List K) → has j (add k xs) ≡ (e.beq k j || has j xs)
  has-add k j xs = ground (arith, e.beq_iff k j)

  pub without-Distinct : (k : K) (xs : List K) → Distinct xs → Distinct (without k xs)
  without-Distinct k [] d = tt
  without-Distinct k (x ∷ xs) d = ground (arith, without-Distinct k xs d.1, has-without k x xs)

  pub snoc-Distinct :
      (k : K) (xs : List K) → Distinct xs → has k xs ≡ false → Distinct (xs ++ (k ∷ []))
  snoc-Distinct k [] d h = (refl, tt)
  snoc-Distinct k (x ∷ xs) d h =
      ground (arith, snoc-Distinct k xs d.1, has-snoc k x xs, e.beq_iff x k, e.beq_iff k x)

  pub without_absent : (k : K) (xs : List K) → has k xs ≡ false → without k xs ≡ xs
  without_absent k [] h = refl
  without_absent k (x ∷ xs) h = ground (arith, without_absent k xs)

  pub length-without :
      (k : K) (xs : List K)
      → Distinct xs
      → has k xs ≡ true
      → suc (length (without k xs)) ≡ length xs
  length-without k [] d h = cc
  length-without k (x ∷ xs) d h =
      ground (arith, length-without k xs d.1, without_absent k xs, e.beq_iff x k)

  pub has-ne-nil : (k : K) (xs : List K) → has k xs ≡ true → (xs ≡ []) → ⊥
  has-ne-nil k [] h n = cc
  has-ne-nil k (x ∷ xs) h n = cc
