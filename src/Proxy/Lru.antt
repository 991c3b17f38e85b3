-- ===== src/Proxy/Lru.antt =====
-- A hash map with its recency queue, oldest first: what scry-proxy/src/proxy/cache.rs and
-- connection_state.rs both keep, and the eviction loop that both write out.
use scry_proxy.Base.{
  ℕ, ◌-◌, ◌≤◌, ◌<◌, ◌≡◌, refl, ◌∙◌, true, false, List, [], ◌∷◌, ◌++◌, arith, length, length-append,
  leb, if◌then◌else◌, Eq, lookup, contains_key, insert, remove, keys, has, without, Distinct,
  lookup-remove, has-without, has-snoc, contains_key-insert, contains_key-remove, length-insert,
  length-remove, length-without, without-Distinct, snoc-Distinct, insert-Distinct, remove-Distinct,
  without_absent, remove_absent, remove_comm, Bool-cases, inl, inr,
}

module _ {K V : Type 0} ⦃e : Eq K⦄ where
  -- `while map.len() >= max { match order.pop_front() { Some(k) => map.remove(k), None => break } }`
  pub evict : ℕ → List (K × V) → List K → List (K × V) × List K
  evict max m [] = (m, [])
  evict max m (oldest ∷ order) =
      if leb max (length m) then evict max (remove oldest m) order else (m, oldest ∷ order)

  pub record Synced (m : List (K × V)) (order : List K) : Type 0 where
    pub distinct_keys : Distinct (keys m)
    pub distinct_order : Distinct order
    pub same_keys : (k : K) → has k order ≡ contains_key k m
    pub same_length : length order ≡ length m

  pub Synced-remove :
      (k : K) (m : List (K × V)) (order : List K)
      → Synced m order
      → Synced (remove k m) (without k order)
  Synced-remove k m order s = record {
    distinct_keys = remove-Distinct k m s.distinct_keys;
    distinct_order = without-Distinct k order s.distinct_order;
    same_keys =
        λ j. ground (arith, has-without k j order, contains_key-remove k j m, s.same_keys j);
    same_length = elim (Bool-cases (contains_key k m)) [
      | inl old ↦ omega (
        arith,
        length-remove k m s.distinct_keys old,
        length-without k order s.distinct_order (s.same_keys k ∙ old),
        s.same_length,
      )
      | inr new ↦
          rw (remove_absent k m new, without_absent k order (s.same_keys k ∙ new)) s.same_length
    ];
  }

  -- A key that is not in the map is inserted, and becomes the most recent.
  pub Synced-insert :
      (k : K) (v : V) (m : List (K × V)) (order : List K)
      → contains_key k m ≡ false
      → Synced m order
      → Synced (insert k v m) (order ++ k ∷ [])
  Synced-insert k v m order new s = record {
    distinct_keys = insert-Distinct k v m s.distinct_keys;
    distinct_order = snoc-Distinct k order s.distinct_order (s.same_keys k ∙ new);
    same_keys = λ j. ground (arith, has-snoc k j order, contains_key-insert k j v m, s.same_keys j);
    same_length =
        ground (arith, length-append order (k ∷ []), length-insert k v m, s.same_length, new);
  }

  -- A key of the map, old or replaced, becomes the most recent.
  pub Synced-refresh :
      (k : K) (v : V) (m : List (K × V)) (order : List K)
      → contains_key k m ≡ true
      → Synced m order
      → Synced (insert k v m) (without k order ++ k ∷ [])
  Synced-refresh k v m order old s = record {
    distinct_keys = insert-Distinct k v m s.distinct_keys;
    distinct_order =
        snoc-Distinct k (without k order) (without-Distinct k order s.distinct_order)
          (ground (arith, has-without k k order, e.beq_iff k k));
    same_keys = λ j. ground (
      arith,
      has-snoc k j (without k order),
      has-without k j order,
      contains_key-insert k j v m,
      s.same_keys j,
      s.same_keys k,
      e.beq_iff k j,
      old,
    );
    same_length = ground (
      arith,
      length-append (without k order) (k ∷ []),
      length-insert k v m,
      s.same_length,
      old,
      length-without k order s.distinct_order (s.same_keys k ∙ old),
    );
  }

  -- The first key of the queue is the oldest; taking it out of both keeps them in step.
  pub Synced-oldest :
      (k : K) (m : List (K × V)) (order : List K) → Synced m (k ∷ order) → Synced (remove k m) order
  Synced-oldest k m order s = record {
    distinct_keys = remove-Distinct k m s.distinct_keys;
    distinct_order = s.distinct_order.1;
    same_keys = λ j.
        ground (arith, contains_key-remove k j m, s.same_keys j, s.distinct_order.0, e.beq_iff k j);
    same_length = omega (
      arith,
      length-remove k m s.distinct_keys (ground (arith, s.same_keys k, e.beq_iff k k)),
      s.same_length,
    );
  }

  pub evict-Synced :
      (max : ℕ) (m : List (K × V)) (order : List K)
      → Synced m order
      → Synced (evict max m order).0 (evict max m order).1
  unfolding evict
  evict-Synced max m [] s = s
  evict-Synced max m (oldest ∷ order) s = elim (Bool-cases (leb max (length m))) [
    | inl full ↦ rw full (evict-Synced max (remove oldest m) order (Synced-oldest oldest m order s))
    | inr free ↦ rw free s
  ]

  -- The loop makes room: fewer than `max` entries are left, or none.
  pub evict_bound :
      (max : ℕ) (m : List (K × V)) (order : List K)
      → Synced m order
      → length (evict max m order).0 ≤ max - 1
  unfolding evict
  evict_bound max m [] s = omega (arith, s.same_length)
  evict_bound max m (oldest ∷ order) s = elim (Bool-cases (leb max (length m))) [
    | inl full ↦ rw full (evict_bound max (remove oldest m) order (Synced-oldest oldest m order s))
    | inr free ↦ rw free (ground (arith, free))
  ]

  -- What is left of the queue was there before.
  pub has-evict :
      (max : ℕ) (j : K) (m : List (K × V)) (order : List K)
      → has j (evict max m order).1 ≡ true
      → has j order ≡ true
  unfolding evict
  has-evict max j m [] h = h
  has-evict max j m (oldest ∷ order) h = elim (Bool-cases (leb max (length m))) [
    | inl full ↦ ground (arith, full, has-evict max j (remove oldest m) order)
    | inr free ↦ ground (arith, free)
  ]

  -- The loop takes keys off the old end only, and leaves the values of the others.
  pub lookup-evict :
      (max : ℕ) (j : K) (m : List (K × V)) (order : List K)
      → Synced m order
      → has j (evict max m order).1 ≡ true
      → lookup j (evict max m order).0 ≡ lookup j m
  unfolding evict
  lookup-evict max j m [] s h = refl
  lookup-evict max j m (oldest ∷ order) s h = elim (Bool-cases (leb max (length m))) [
    | inl full ↦
        let kept : has j (evict max (remove oldest m) order).1 ≡ true = ground (arith, full) in
        rw full (
          lookup-evict max j (remove oldest m) order (Synced-oldest oldest m order s) kept
          ∙ ground (
            arith,
            lookup-remove oldest j m,
            has-evict max j (remove oldest m) order kept,
            s.distinct_order.0,
            e.beq_iff oldest j,
          ))
    | inr free ↦ rw free
  ]

  pub evict-Distinct :
      (max : ℕ) (m : List (K × V)) (order : List K)
      → Distinct (keys m)
      → Distinct (keys (evict max m order).0)
  unfolding evict
  evict-Distinct max m [] d = d
  evict-Distinct max m (oldest ∷ order) d = elim (Bool-cases (leb max (length m))) [
    | inl full ↦ rw full (evict-Distinct max (remove oldest m) order (remove-Distinct oldest m d))
    | inr free ↦ rw free d
  ]

  -- A key that is not in the queue stays in the map.
  pub contains_key-evict_other :
      (max : ℕ) (k : K) (m : List (K × V)) (order : List K)
      → has k order ≡ false
      → contains_key k m ≡ true
      → contains_key k (evict max m order).0 ≡ true
  unfolding evict
  contains_key-evict_other max k m [] out h = h
  contains_key-evict_other max k m (oldest ∷ order) out h = elim (Bool-cases (leb max (length m))) [
    | inl full ↦ rw full (
        contains_key-evict_other max k (remove oldest m) order (ground (arith, out)) (
          ground
            (arith, out, contains_key-remove oldest k m, e.beq_iff oldest k, e.beq_iff k oldest)))
    | inr free ↦ rw free h
  ]

  -- The loop on a map with a key that the queue lacks is the loop on the map without it, with one place less.
  pub evict_pred :
      (max : ℕ) (k : K) (m : List (K × V)) (order : List K)
      → Distinct (keys m)
      → contains_key k m ≡ true
      → has k order ≡ false
      → (remove k (evict max m order).0 ≡ (evict (max - 1) (remove k m) order).0)
        × ((evict max m order).1 ≡ (evict (max - 1) (remove k m) order).1)
  unfolding evict
  evict_pred max k m [] d old out = (refl, refl)
  evict_pred max k m (oldest ∷ order) d old out =
      let still = contains_key-remove oldest k m in
      let ih =
        evict_pred max k (remove oldest m) order (remove-Distinct oldest m d)
          (ground (arith, out, still, e.beq_iff oldest k, e.beq_iff k oldest))
          (ground (arith, out)) in
      let size = length-remove k m d old in
      elim (Bool-cases (leb max (length m))) [
        | inl full ↦
            let also : leb (max - 1) (length (remove k m)) ≡ true = ground (arith, full, size) in
            rw (full, also, remove_comm oldest k m) ih
        | inr free ↦
            let also : leb (max - 1) (length (remove k m)) ≡ false = ground (arith, free, size) in
            rw (free, also) (refl, refl)
      ]

  -- A key of the map that the queue lacks is written anew, and becomes the most recent.
  pub Synced-replace :
      (k : K) (v : V) (m : List (K × V)) (order : List K)
      → Distinct (keys m)
      → contains_key k m ≡ true
      → Synced (remove k m) order
      → Synced (insert k v m) (order ++ k ∷ [])
  Synced-replace k v m order d old s = record {
    distinct_keys = insert-Distinct k v m d;
    distinct_order =
        snoc-Distinct k order s.distinct_order
          (ground (arith, s.same_keys k, contains_key-remove k k m, e.beq_iff k k));
    same_keys = λ j. ground (
      arith,
      has-snoc k j order,
      contains_key-insert k j v m,
      contains_key-remove k j m,
      s.same_keys j,
      e.beq_iff k j,
    );
    same_length = ground (
      arith,
      length-append order (k ∷ []),
      length-insert k v m,
      s.same_length,
      old,
      length-remove k m d old,
    );
  }

  -- A look-up that hits makes the key the most recent.
  pub Synced-refresh_order :
      (k : K) (m : List (K × V)) (order : List K)
      → contains_key k m ≡ true
      → Synced m order
      → Synced m (without k order ++ k ∷ [])
  Synced-refresh_order k m order old s = record {
    distinct_keys = s.distinct_keys;
    distinct_order =
        snoc-Distinct k (without k order) (without-Distinct k order s.distinct_order)
          (ground (arith, has-without k k order, e.beq_iff k k));
    same_keys = λ j. ground (
      arith,
      has-snoc k j (without k order),
      has-without k j order,
      s.same_keys j,
      s.same_keys k,
      e.beq_iff k j,
      old,
    );
    same_length = omega (
      arith,
      length-append (without k order) (k ∷ []),
      s.same_length,
      length-without k order s.distinct_order (s.same_keys k ∙ old),
    );
  }

  pub evict_room :
      (max : ℕ) (m : List (K × V)) (order : List K)
      → length m < max
      → evict max m order ≡ (m, order)
  unfolding evict
  evict_room max m [] h = refl
  evict_room max m (oldest ∷ order) h = ground arith

  pub evict_one :
      (max : ℕ) (oldest : K) (m : List (K × V)) (order : List K)
      → max ≤ length m
      → length (remove oldest m) < max
      → evict max m (oldest ∷ order) ≡ (remove oldest m, order)
  unfolding evict
  evict_one max oldest m order full room =
      ground (arith, evict_room max (remove oldest m) order room)
