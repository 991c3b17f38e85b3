-- ===== src/Observability/Sketch.antt =====
-- The Count-Min Sketch of scry-proxy/src/observability/hot_data.rs. `hash i` is the i-th hash function, and `decayed` the
-- product of a count with the decay factor, which is a floating-point number; both are parameters.
pub mod Estimate
mod Tests
use scry_proxy.Base.{
  ℕ, zero, suc, ◌-◌, ◌%◌, ◌^◌, min, List, [], ◌∷◌, map, replicate, Bytes, inc64, u64_mod,
}

pub record CountMinSketch : Type 0 where
  pub width : ℕ
  pub depth : ℕ
  pub table : List (List ℕ)

pub new : ℕ → ℕ → CountMinSketch
new width depth = record {
  width = width;
  depth = depth;
  table = replicate depth (replicate width 0);
}

-- A bucket of a row; the index is below the width.
abbrev pub bucket_at : ℕ → List ℕ → ℕ
bucket_at i [] = 0
bucket_at zero (c ∷ row) = c
bucket_at (suc i) (c ∷ row) = bucket_at i row

abbrev pub fetch_add : ℕ → List ℕ → List ℕ
fetch_add i [] = []
fetch_add zero (c ∷ row) = inc64 c ∷ row
fetch_add (suc i) (c ∷ row) = c ∷ fetch_add i row

module _ (hash : ℕ → Bytes → ℕ) where
  abbrev pub bucket : ℕ → ℕ → Bytes → ℕ
  bucket width i fingerprint = hash i fingerprint % width

  -- The loops over the rows from the i-th on.
  pub increment_rows : ℕ → Bytes → ℕ → ℕ → List (List ℕ) → List (List ℕ) × ℕ
  increment_rows width fingerprint i min_count [] = ([], min_count)
  increment_rows width fingerprint i min_count (row ∷ rows) =
      let b = bucket width i fingerprint in
      let new_count = inc64 (bucket_at b row) in
      let (rows', least) =
        increment_rows width fingerprint (suc i) (min min_count new_count) rows in
      (fetch_add b row ∷ rows', least)

  pub increment : Bytes → CountMinSketch → CountMinSketch × ℕ
  unfolding increment_rows
  increment fingerprint s =
      let (table, min_count) = increment_rows s.width fingerprint 0 (u64_mod - 1) s.table in
      (record s { table = table }, min_count)

  pub estimate_rows : ℕ → Bytes → ℕ → ℕ → List (List ℕ) → ℕ
  estimate_rows width fingerprint i min_count [] = min_count
  estimate_rows width fingerprint i min_count (row ∷ rows) =
      estimate_rows width fingerprint (suc i)
        (min min_count (bucket_at (bucket width i fingerprint) row)) rows

  pub estimate : Bytes → CountMinSketch → ℕ
  unfolding estimate_rows
  estimate fingerprint s = estimate_rows s.width fingerprint 0 (u64_mod - 1) s.table

pub apply_decay : (ℕ → ℕ) → CountMinSketch → CountMinSketch
apply_decay decayed s = record s { table = map (map decayed) s.table }
