-- ===== src/Protocol/CommandDetector/Classify.antt =====
-- Which statements scry-proxy/src/protocol/command_detector.rs classifies, and which it panics on.
use scry_proxy.Base.{
  ap, ◌+◌, ◌-◌, ◌≡◌, refl, ◌⊎◌, inl, inr, Bool, true, false, Option, none, some, arith, Bytes,
  codes, trim, to_uppercase, find, ltb, ℤ, parse_i64, take, drop,
}
use scry_proxy.Protocol.CommandDetector.{
  CommandClass, Outcome, gives, panics, outcome_map, classify, detect, extract_lock_key,
}

-- The first `)` of a statement stands after its first `(`.
abbrev pub opens_first : Bytes → Bool
opens_first s = elim (find (codes "(") s) [
  | none ↦ true
  | some i ↦ elim (find (codes ")") s) [ none ↦ true | some j ↦ ltb i j ]
]

Option-cases : {A : Type 0} → (o : Option A) → (o ≡ none) ⊎ ((a : A) × (o ≡ some a))
Option-cases none = inl refl
Option-cases (some a) = inr (a, refl)

extract_lock_key_gives :
    (s : Bytes) → opens_first s ≡ true → (k : Option ℤ) × (extract_lock_key s ≡ gives k)
unfolding extract_lock_key
extract_lock_key_gives s h = elim (Option-cases (find (codes "(") s)) [
  | inl i ↦ (none, rw (extract_lock_key, i))
  | inr (start, i) ↦ elim (Option-cases (find (codes ")") s)) [
    | inl j ↦ (none, rw (extract_lock_key, i, j))
    | inr (end, j) ↦
        let after : ltb end (start + 1) ≡ false = ground (arith, i, j) in
        (
          parse_i64 (trim (take (end - (start + 1)) (drop (start + 1) s))),
          rw (extract_lock_key, i, j, after),
        )
  ]
]

abbrev Gives {ℓ} : {A : Type ℓ} → Outcome A → Type ℓ
Gives {A = A} o = (a : A) × (o ≡ gives a)

abbrev is_given {ℓ} : {A : Type ℓ} → Outcome A → Bool
is_given (gives a) = true
is_given panics = false

is_given-Gives : {A : Type 0} → (o : Outcome A) → is_given o ≡ true → Gives o
is_given-Gives (gives a) h = (a, refl)
is_given-Gives panics h = cc

map-Gives : {A B : Type 0} → (f : A → B) (o : Outcome A) → Gives o → Gives (outcome_map f o)
map-Gives f o (a, e) = (f a, ap (outcome_map f) e)

detect_given :
    (q : Bytes) (k : Option ℤ)
    → extract_lock_key (to_uppercase (trim q)) ≡ gives k
    → is_given (detect q) ≡ true
unfolding detect
detect_given q k e = ground arith

-- No branch panics but the two that read a lock's key.
detect-Gives : (q : Bytes) → opens_first (to_uppercase (trim q)) ≡ true → Gives (detect q)
detect-Gives q h =
    let (k, e) = extract_lock_key_gives (to_uppercase (trim q)) h in
    is_given-Gives (detect q) (detect_given q k e)

-- A statement whose first `)` stands after its first `(` is classified: nothing panics.
pub classify_gives :
    (q : Bytes)
    → opens_first (to_uppercase (trim q)) ≡ true
    → (c : CommandClass) × (classify q ≡ gives c)
unfolding classify
classify_gives q h = map-Gives _ _ (detect-Gives q h)
