-- ===== src/Observability/Sketch/Tests.antt =====
-- A sketch of three columns and two rows, with collisions: runs, and an instance of the result.
use scry_proxy.Base.{ℕ, suc, ◌*◌, ◌/◌, ◌≤◌, ◌≡◌, refl, List, [], ◌∷◌, Bytes, length, codes, arith}
use scry_proxy.Observability.Sketch.{new, increment, estimate, apply_decay}
use scry_proxy.Observability.Sketch.Estimate.{occurrences, record_all, increment-occurrences}

-- The length, and the length times the number of the row and one.
abbrev by_length : ℕ → Bytes → ℕ
by_length i s = suc i * length s

abbrev accesses : List Bytes
accesses = codes "a" ∷ codes "bb" ∷ codes "a" ∷ codes "cccc" ∷ []

increment-occurrences_example :
    let told = (increment by_length (codes "a") (record_all by_length accesses (new 3 2))).1 in
    (3 ≤ told) × (told ≤ 5)
unfolding occurrences
increment-occurrences_example =
    increment-occurrences by_length 3 2 accesses (codes "a") (omega arith) (omega arith)
      (omega arith)

-- `cccc` falls in the bucket of `a`.
estimate_run :
    (estimate by_length (codes "a") (record_all by_length accesses (new 3 2)) ≡ 3)
    × ((increment by_length (codes "bb") (new 3 2)).1 ≡ 1)
    × (estimate by_length
          (codes "a")
          (apply_decay (λ n. n / 2) (record_all by_length accesses (new 3 2)))
        ≡ 1)
unfolding estimate increment record_all new apply_decay
estimate_run = (refl, refl, refl)
