-- ===== src/Base/DictLaws.antt =====
-- Sizes and keys of an association list under the calls of a hash map.
use scry_proxy.Base.Tests.{if◌then◌else◌}
use scry_proxy.Base.Lists.{length}
use scry_proxy.Base.Keys.{Eq}
use scry_proxy.Base.Sets.{has, Distinct}
use scry_proxy.Base.Dict.{contains_key, insert, remove, keys, lookup-insert, lookup-remove}
use Prim.Native.Nat.{suc, ◌≤◌}
use mathlib.Core.Path.{◌≡◌, refl}
use mathlib.Core.Bool.{true, false, not, ◌&&◌, ◌||◌}
use mathlib.Core.List.{List, [], ◌∷◌}
use native.Mathlib.Omega.{arith}

module _ {ℓ κ} {K : Type ℓ} {V : Type κ} ⦃e : Eq K⦄ where
  pub has-keys : (k : K) (m : List (K × V)) → has k (keys m) ≡ contains_key k m
  has-keys k [] = refl
  has-keys k ((j, w) ∷ m) = ground (arith, has-keys k m)

  pub contains_key-insert :
      (k j : K) (v : V) (m : List (K × V))
      → contains_key j (insert k v m) ≡ (e.beq k j || contains_key j m)
  contains_key-insert k j v m = ground (arith, lookup-insert k j v m)

  pub contains_key-remove :
      (k j : K) (m : List (K × V))
      → contains_key j (remove k m) ≡ (not (e.beq k j) && contains_key j m)
  contains_key-remove k j m = ground (arith, lookup-remove k j m)

  pub length-insert :
      (k : K) (v : V) (m : List (K × V))
      → length (insert k v m) ≡ (if contains_key k m then length m else suc (length m))
  length-insert k v [] = refl
  length-insert k v ((j, w) ∷ m) = ground (arith, length-insert k v m)

  pub remove_absent : (k : K) (m : List (K × V)) → contains_key k m ≡ false → remove k m ≡ m
  remove_absent k [] h = refl
  remove_absent k ((j, w) ∷ m) h = ground (arith, remove_absent k m)

  pub length-remove :
      (k : K) (m : List (K × V))
      → Distinct (keys m)
      → contains_key k m ≡ true
      → suc (length (remove k m)) ≡ length m
  length-remove k [] d h = cc
  length-remove k ((j, w) ∷ m) d h =
      ground (arith, length-remove k m d.1, remove_absent k m, has-keys k m, e.beq_iff j k)

  pub length-remove-le : (k : K) (m : List (K × V)) → length (remove k m) ≤ length m
  length-remove-le k [] = omega arith
  length-remove-le k ((j, w) ∷ m) = ground (arith, length-remove-le k m)

  pub remove-Distinct :
      (k : K) (m : List (K × V)) → Distinct (keys m) → Distinct (keys (remove k m))
  remove-Distinct k [] d = tt
  remove-Distinct k ((j, w) ∷ m) d = ground (
    arith,
    remove-Distinct k m d.1,
    has-keys j (remove k m),
    has-keys j m,
    contains_key-remove k j m,
  )

  pub insert-Distinct :
      (k : K) (v : V) (m : List (K × V)) → Distinct (keys m) → Distinct (keys (insert k v m))
  insert-Distinct k v [] d = (refl, tt)
  insert-Distinct k v ((j, w) ∷ m) d = ground (
    arith,
    insert-Distinct k v m d.1,
    has-keys j (insert k v m),
    has-keys j m,
    contains_key-insert k j v m,
    e.beq_iff j k,
    e.beq_iff k j,
  )

  pub insert-ne-nil : (k : K) (v : V) (m : List (K × V)) → (insert k v m ≡ []) → ⊥
  insert-ne-nil k v [] h = cc
  insert-ne-nil k v ((j, w) ∷ m) h = ground arith

  pub remove_comm : (k j : K) (m : List (K × V)) → remove k (remove j m) ≡ remove j (remove k m)
  remove_comm k j [] = refl
  remove_comm k j ((i, w) ∷ m) = ground (arith, remove_comm k j m)
