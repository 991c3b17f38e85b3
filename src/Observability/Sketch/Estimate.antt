-- ===== src/Observability/Sketch/Estimate.antt =====
-- The sketch of scry-proxy/src/observability/hot_data.rs never counts too few.
use scry_proxy.Base.{
  ℕ, zero, suc, ◌+◌, ◌-◌, ◌≤◌, ◌<◌, min, ◌≡◌, refl, ap, sym, subst, ◌∙◌, if◌then◌else◌, ◌==◌, List,
  [], ◌∷◌, replicate, Bytes, bytes_eq, bytes_eq_iff, length, inc64, u64_mod, arith, Bool-cases, inl,
  inr,
}
use scry_proxy.Observability.Sketch.{
  CountMinSketch, new, bucket_at, fetch_add, bucket, increment_rows, increment, estimate_rows,
  estimate,
}

-- How often a fingerprint stands in a list.
unfoldable pub occurrences : Bytes → List Bytes → ℕ
occurrences fingerprint [] = 0
occurrences fingerprint (x ∷ xs) =
    let rest = occurrences fingerprint xs in if bytes_eq x fingerprint then suc rest else rest

length-fetch_add : (i : ℕ) (row : List ℕ) → length (fetch_add i row) ≡ length row
length-fetch_add i [] = refl
length-fetch_add zero (c ∷ row) = refl
length-fetch_add (suc i) (c ∷ row) = ap suc (length-fetch_add i row)

bucket_at-fetch_add :
    (i j : ℕ) (row : List ℕ)
    → i < length row
    → bucket_at j (fetch_add i row) ≡ (if i == j then inc64 (bucket_at j row) else bucket_at j row)
bucket_at-fetch_add i j [] inside = absurd (omega (arith, inside))
bucket_at-fetch_add zero zero (c ∷ row) inside = refl
bucket_at-fetch_add zero (suc j) (c ∷ row) inside = ground arith
bucket_at-fetch_add (suc i) zero (c ∷ row) inside = ground arith
bucket_at-fetch_add (suc i) (suc j) (c ∷ row) inside =
    ground (arith, bucket_at-fetch_add i j row (omega (arith, inside)))

bucket_at-replicate : (j n : ℕ) → bucket_at j (replicate n 0) ≡ 0
bucket_at-replicate j zero = refl
bucket_at-replicate zero (suc n) = refl
bucket_at-replicate (suc j) (suc n) = bucket_at-replicate j n

length-replicate : (n : ℕ) → length {A = ℕ} (replicate n 0) ≡ n
length-replicate zero = refl
length-replicate (suc n) = ap suc (length-replicate n)

module _ (hash : ℕ → Bytes → ℕ) (width : ℕ) where
  -- A row that has counted the fingerprints of a list.
  pub record Counted (i : ℕ) (seen : List Bytes) (row : List ℕ) : Type 0 where
    pub whole : length row ≡ width
    pub enough :
        (fingerprint : Bytes)
        → occurrences fingerprint seen ≤ bucket_at (bucket hash width i fingerprint) row
    pub few : (j : ℕ) → bucket_at j row ≤ length seen

  abbrev pub AllCounted : ℕ → List Bytes → List (List ℕ) → Type 0
  AllCounted i seen [] = Unit
  AllCounted i seen (row ∷ rows) = Counted i seen row × AllCounted (suc i) seen rows

  fetch_add-enough :
      (i : ℕ) (x fingerprint : Bytes) (seen : List Bytes) (row : List ℕ)
      → bucket hash width i x < length row
      → length seen + 1 < u64_mod
      → Counted i seen row
      → occurrences fingerprint (x ∷ seen)
        ≤ bucket_at (bucket hash width i fingerprint) (fetch_add (bucket hash width i x) row)
  unfolding occurrences
  fetch_add-enough i x fingerprint seen row inside small v =
      let b = bucket hash width i x in
      let j = bucket hash width i fingerprint in
      let counted = bucket_at-fetch_add b j row inside in
      elim (Bool-cases (bytes_eq x fingerprint)) [
        | inl same ↦
            let e : b ≡ j = ap (bucket hash width i) ((bytes_eq_iff x fingerprint).0 same) in
            ground (arith, same, e, counted, v.enough fingerprint, v.few j)
        | inr different ↦ ground (arith, different, counted, v.enough fingerprint, v.few j)
      ]

  fetch_add-Counted :
      (i : ℕ) (x : Bytes) (seen : List Bytes) (row : List ℕ)
      → 0 < width
      → length seen + 1 < u64_mod
      → Counted i seen row
      → Counted i (x ∷ seen) (fetch_add (bucket hash width i x) row)
  fetch_add-Counted i x seen row wide small v =
      let b = bucket hash width i x in
      let inside : b < length row = omega (arith, wide, v.whole) in
      record {
        whole = length-fetch_add b row ∙ v.whole;
        enough = λ fingerprint. fetch_add-enough i x fingerprint seen row inside small v;
        few = λ j. ground (arith, bucket_at-fetch_add b j row inside, v.few j);
      }

  increment_rows-AllCounted :
      (i : ℕ) (x : Bytes) (min_count : ℕ) (seen : List Bytes) (rows : List (List ℕ))
      → 0 < width
      → length seen + 1 < u64_mod
      → AllCounted i seen rows
      → AllCounted i (x ∷ seen) (increment_rows hash width x i min_count rows).0
  unfolding increment_rows
  increment_rows-AllCounted i x min_count seen [] wide small v = tt
  increment_rows-AllCounted i x min_count seen (row ∷ rows) wide small v = (
    fetch_add-Counted i x seen row wide small v.0,
    increment_rows-AllCounted (suc i) x
        (min min_count (inc64 (bucket_at (bucket hash width i x) row))) seen rows wide small v.1,
  )

  increment_rows-occurrences :
      (i : ℕ) (x : Bytes) (min_count : ℕ) (seen : List Bytes) (rows : List (List ℕ))
      → length seen + 1 < u64_mod
      → AllCounted i seen rows
      → suc (occurrences x seen) ≤ min_count
      → suc (occurrences x seen) ≤ (increment_rows hash width x i min_count rows).1
  unfolding increment_rows
  increment_rows-occurrences i x min_count seen [] small v least = least
  increment_rows-occurrences i x min_count seen (row ∷ rows) small v least =
      let c = bucket_at (bucket hash width i x) row in
      let enough = v.0.enough x in
      let few = v.0.few (bucket hash width i x) in
      let counted : inc64 c ≡ suc c = omega (arith, few, small) in
      increment_rows-occurrences (suc i) x (min min_count (inc64 c)) seen rows small v.1
        (omega (arith, least, enough, counted))

  increment_rows-le :
      (i : ℕ) (x : Bytes) (min_count : ℕ) (rows : List (List ℕ))
      → (increment_rows hash width x i min_count rows).1 ≤ min_count
  unfolding increment_rows
  increment_rows-le i x min_count [] = omega arith
  increment_rows-le i x min_count (row ∷ rows) =
      let c = inc64 (bucket_at (bucket hash width i x) row) in
      omega (arith, increment_rows-le (suc i) x (min min_count c) rows)

  increment_rows-few :
      (i : ℕ) (x : Bytes) (min_count : ℕ) (seen : List Bytes) (rows : List (List ℕ))
      → length seen + 1 < u64_mod
      → AllCounted i seen rows
      → 0 < length rows
      → (increment_rows hash width x i min_count rows).1 ≤ suc (length seen)
  unfolding increment_rows
  increment_rows-few i x min_count seen [] small v some_row = absurd (omega (arith, some_row))
  increment_rows-few i x min_count seen (row ∷ rows) small v some_row =
      let c = bucket_at (bucket hash width i x) row in
      let few = v.0.few (bucket hash width i x) in
      omega (arith, small, few, increment_rows-le (suc i) x (min min_count (inc64 c)) rows)

  estimate_rows-occurrences :
      (i : ℕ) (x : Bytes) (min_count : ℕ) (seen : List Bytes) (rows : List (List ℕ))
      → AllCounted i seen rows
      → occurrences x seen ≤ min_count
      → occurrences x seen ≤ estimate_rows hash width x i min_count rows
  unfolding estimate_rows
  estimate_rows-occurrences i x min_count seen [] v least = least
  estimate_rows-occurrences i x min_count seen (row ∷ rows) v least =
      estimate_rows-occurrences (suc i) x (min min_count (bucket_at (bucket hash width i x) row))
        seen rows v.1 (omega (arith, least, v.0.enough x))

  new-AllCounted : (i depth : ℕ) → AllCounted i [] (replicate depth (replicate width 0))
  unfolding occurrences
  new-AllCounted i zero = tt
  new-AllCounted i (suc depth) = (
    record {
      whole = length-replicate width;
      enough = λ fingerprint. omega arith;
      few = λ j. omega (arith, bucket_at-replicate j width);
    },
    new-AllCounted (suc i) depth,
  )

occurrences-le : (x : Bytes) (seen : List Bytes) → occurrences x seen ≤ length seen
unfolding occurrences
occurrences-le x [] = omega arith
occurrences-le x (y ∷ seen) = ground (arith, occurrences-le x seen)

-- The fingerprints are recorded from the last of the list to its first.
unfoldable pub record_all : (ℕ → Bytes → ℕ) → List Bytes → CountMinSketch → CountMinSketch
record_all hash [] s = s
record_all hash (x ∷ xs) s = (increment hash x (record_all hash xs s)).0

record_all-AllCounted :
    (hash : ℕ → Bytes → ℕ) (width depth : ℕ) (xs : List Bytes)
    → 0 < width
    → length xs < u64_mod
    → let s = record_all hash xs (new width depth) in
      (s.width ≡ width) × AllCounted hash width 0 xs s.table
unfolding record_all increment new
record_all-AllCounted hash width depth [] wide small = (refl, new-AllCounted hash width 0 depth)
record_all-AllCounted hash width depth (x ∷ xs) wide small =
    let s = record_all hash xs (new width depth) in
    let (same, v) = record_all-AllCounted hash width depth xs wide (omega (arith, small)) in
    (
      same,
      subst
          (λ (w : ℕ).
            AllCounted hash width 0 (x ∷ xs) (increment_rows hash w x 0 (u64_mod - 1) s.table).0)
          (sym same)
          (increment_rows-AllCounted hash width 0 x (u64_mod - 1) xs s.table wide
            (omega (arith, small)) v),
    )

-- The sketch never counts too few: after any accesses, in any order, the estimate for a fingerprint is at least the
-- number of its accesses, whatever the hash functions. Conditions: the sketch is new, its width is not 0, the accesses
-- are fewer than 2 ^ 64, and no decay has been applied.
pub estimate-occurrences :
    (hash : ℕ → Bytes → ℕ) (width depth : ℕ) (xs : List Bytes) (x : Bytes)
    → 0 < width
    → length xs < u64_mod
    → occurrences x xs ≤ estimate hash x (record_all hash xs (new width depth))
unfolding estimate
estimate-occurrences hash width depth xs x wide small =
    let s = record_all hash xs (new width depth) in
    let (same, v) = record_all-AllCounted hash width depth xs wide small in
    subst (λ (w : ℕ). occurrences x xs ≤ estimate_rows hash w x 0 (u64_mod - 1) s.table) (sym same)
      (estimate_rows-occurrences hash width 0 x (u64_mod - 1) xs s.table v
        (omega (arith, occurrences-le x xs, small)))

length-rows : (width depth : ℕ) → length (replicate depth (replicate {A = ℕ} width 0)) ≡ depth
length-rows width zero = refl
length-rows width (suc depth) = ap suc (length-rows width depth)

length-increment_rows :
    (hash : ℕ → Bytes → ℕ) (width : ℕ) (x : Bytes) (i min_count : ℕ) (rows : List (List ℕ))
    → length (increment_rows hash width x i min_count rows).0 ≡ length rows
unfolding increment_rows
length-increment_rows hash width x i min_count [] = refl
length-increment_rows hash width x i min_count (row ∷ rows) = ap suc (
    length-increment_rows hash width x (suc i)
      (min min_count (inc64 (bucket_at (bucket hash width i x) row))) rows)

length-record_all :
    (hash : ℕ → Bytes → ℕ) (width depth : ℕ) (xs : List Bytes)
    → length (record_all hash xs (new width depth)).table ≡ depth
unfolding record_all increment new
length-record_all hash width depth [] = length-rows width depth
length-record_all hash width depth (x ∷ xs) =
    let s = record_all hash xs (new width depth) in
    length-increment_rows hash s.width x 0 (u64_mod - 1) s.table
    ∙ length-record_all hash width depth xs

-- The count that an access is told, which decides what is hot, is never too low, and never more than there were accesses:
-- after any accesses in any order, that of a further one is at least the number of accesses to its fingerprint, this
-- one included, and at most the number of all accesses, whatever the hash functions.
-- Conditions: the sketch is new, its width and its depth are not 0, the accesses are fewer than 2 ^ 64 - 1, and no decay
-- has been applied.
pub increment-occurrences :
    (hash : ℕ → Bytes → ℕ) (width depth : ℕ) (xs : List Bytes) (x : Bytes)
    → 0 < width
    → 0 < depth
    → length xs + 1 < u64_mod
    → let told = (increment hash x (record_all hash xs (new width depth))).1 in
      (suc (occurrences x xs) ≤ told) × (told ≤ suc (length xs))
unfolding increment
increment-occurrences hash width depth xs x wide deep small =
    let s = record_all hash xs (new width depth) in
    let (same, v) = record_all-AllCounted hash width depth xs wide (omega (arith, small)) in
    let rows = length-record_all hash width depth xs in
    subst
      (λ (w : ℕ).
        (suc (occurrences x xs) ≤ (increment_rows hash w x 0 (u64_mod - 1) s.table).1)
        × ((increment_rows hash w x 0 (u64_mod - 1) s.table).1 ≤ suc (length xs)))
      (sym same)
      (
        increment_rows-occurrences hash width 0 x (u64_mod - 1) xs s.table small v
            (omega (arith, occurrences-le x xs, small)),
        increment_rows-few hash width 0 x (u64_mod - 1) xs s.table small v
            (omega (arith, rows, deep)),
      )
