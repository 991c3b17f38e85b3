-- ===== src/Proxy/PoolManager/Cleanup.antt =====
-- What `cleanup_idle` of scry-proxy/src/proxy/pool_manager.rs removes from the sticky map.
use scry_proxy.Base.{
  ℕ, zero, suc, ◌≡◌, refl, ap, ◌∙◌, Bool, true, false, Option, none, some, List, [], ◌∷◌, arith,
  nat_eq, lookup, lookup-remove, keys, has, has-keys, Distinct, Bool-cases, inl, inr, ◌==◌,
  if◌then◌else◌,
}
use scry_proxy.Proxy.PoolManager.{
  StickyConnectionInfo, PoolManager, PoolManagerConfig, Backends, is_idle, idle_clients,
  drop_if_idle, clean, notify_cleaned, cleanup_idle,
}

-- An entry that is not idle for too long.
abbrev pub unless_idle :
    {C : Type 0} → ℕ → ℕ → Option (C × StickyConnectionInfo) → Option (C × StickyConnectionInfo)
unless_idle now secs none = none
unless_idle now secs (some (c, info)) = if is_idle now secs info then none else some (c, info)

unless_idle_twice :
    {C : Type 0} (now secs : ℕ) (entry : Option (C × StickyConnectionInfo))
    → unless_idle now secs (unless_idle now secs entry) ≡ unless_idle now secs entry
unless_idle_twice now secs none = refl
unless_idle_twice now secs (some (c, info)) = elim (Bool-cases (is_idle now secs info)) [
  | inl e ↦ rw e refl
  | inr e ↦ rw e (rw e refl)
]

-- `client_id`'s entry goes if it is idle, and the others stay.
abbrev after_round :
    {C : Type 0}
    → ℕ
    → ℕ
    → ℕ
    → ℕ
    → List (ℕ × (C × StickyConnectionInfo))
    → Option (C × StickyConnectionInfo)
after_round now secs client_id other sticky_map =
    if client_id == other
    then unless_idle now secs (lookup other sticky_map)
    else lookup other sticky_map

module _ {P C : Type 0} (pools : Backends P C) where
  Rounded : ℕ → ℕ → ℕ → PoolManager P C → PoolManager P C → Type 0
  Rounded now client_id other m m' =
      (m'.config ≡ m.config)
      × (lookup other m'.sticky_map
          ≡ after_round now m.config.idle_unpin_secs client_id other m.sticky_map)

  -- One round of the second loop.
  drop_if_idle-lookup :
      (now client_id other cleaned : ℕ) (m : PoolManager P C)
      (entry : Option (C × StickyConnectionInfo))
      → lookup client_id m.sticky_map ≡ entry
      → Rounded now client_id other m (drop_if_idle pools now client_id entry (m, cleaned)).0
  unfolding Rounded
  drop_if_idle-lookup now client_id other cleaned m none found = (refl, ground (arith, found))
  drop_if_idle-lookup now client_id other cleaned m (some (c, info)) found =
      elim (Bool-cases (is_idle now m.config.idle_unpin_secs info)) [
        | inl idle ↦
            rw idle (refl, ground (arith, found, idle, lookup-remove client_id other m.sticky_map))
        | inr used ↦ rw used (refl, ground (arith, found, used))
      ]

  abbrev after_rounds :
      ℕ → ℕ → ℕ → List ℕ → List (ℕ × (C × StickyConnectionInfo)) → Option (C × StickyConnectionInfo)
  after_rounds now secs other clients sticky_map =
      if has other clients
      then unless_idle now secs (lookup other sticky_map)
      else lookup other sticky_map

  after_rounds-step :
      (now secs other client_id : ℕ) (rest : List ℕ)
      (sticky_map sticky_map' : List (ℕ × (C × StickyConnectionInfo)))
      → lookup other sticky_map' ≡ after_round now secs client_id other sticky_map
      → after_rounds now secs other rest sticky_map'
        ≡ after_rounds now secs other (client_id ∷ rest) sticky_map
  after_rounds-step now secs other client_id rest sticky_map sticky_map' e =
      ground (arith, e, unless_idle_twice now secs (lookup other sticky_map))

  clean-lookup :
      (now other : ℕ) (clients : List ℕ) (m : PoolManager P C) (cleaned : ℕ)
      → lookup other (clean pools now clients (m, cleaned)).0.sticky_map
        ≡ after_rounds now m.config.idle_unpin_secs other clients m.sticky_map
  unfolding clean Rounded
  clean-lookup now other [] m cleaned = refl
  clean-lookup now other (client_id ∷ rest) m cleaned =
      let (m', cleaned') =
        drop_if_idle pools now client_id (lookup client_id m.sticky_map) (m, cleaned) in
      let (conf, round) =
        drop_if_idle-lookup now client_id other cleaned m (lookup client_id m.sticky_map) refl in
      clean-lookup now other rest m' cleaned'
      ∙ ap (λ (q : PoolManagerConfig). after_rounds now q.idle_unpin_secs other rest m'.sticky_map)
          conf
      ∙ after_rounds-step now m.config.idle_unpin_secs other client_id rest m.sticky_map
          m'.sticky_map round

  abbrev expired : ℕ → ℕ → Option (C × StickyConnectionInfo) → Bool
  expired now secs none = false
  expired now secs (some (c, info)) = is_idle now secs info

  if_expired :
      (now secs : ℕ) (x y : Option (C × StickyConnectionInfo)) (b : Bool)
      → (if b then expired now secs x else expired now secs y)
        ≡ expired now secs (if b then x else y)
  if_expired now secs x y true = refl
  if_expired now secs x y false = refl

  expired_first :
      (now secs : ℕ) (entry : Option (C × StickyConnectionInfo))
      → (if expired now secs entry then unless_idle now secs entry else entry)
        ≡ unless_idle now secs entry
  expired_first now secs none = refl
  expired_first now secs (some (c, info)) = elim (Bool-cases (is_idle now secs info)) [
    | inl idle ↦ rw idle refl
    | inr used ↦ rw used refl
  ]

  expired-cons :
      (now secs other client_id : ℕ) (c : C) (info : StickyConnectionInfo)
      (rest : List (ℕ × (C × StickyConnectionInfo)))
      → has client_id (keys rest) ≡ false
      → has other (idle_clients now secs rest) ≡ expired now secs (lookup other rest)
      → (b : Bool)
      → has other (if b then client_id ∷ idle_clients now secs rest else idle_clients now secs rest)
        ≡ (if client_id == other then b else expired now secs (lookup other rest))
  expired-cons now secs other client_id c info rest new ih true =
      ground (arith, ih, new, has-keys other rest)
  expired-cons now secs other client_id c info rest new ih false =
      elim (Bool-cases (client_id == other)) [
        | inl same ↦
            let absent : lookup other rest ≡ none =
              ground (arith, has-keys other rest, new, same) in
            rw same (ih ∙ ap (expired now secs) absent)
        | inr different ↦ rw different ih
      ]

  idle_clients-has :
      (now secs other : ℕ) (sticky_map : List (ℕ × (C × StickyConnectionInfo)))
      → Distinct (keys sticky_map)
      → has other (idle_clients now secs sticky_map) ≡ expired now secs (lookup other sticky_map)
  idle_clients-has now secs other [] d = refl
  idle_clients-has now secs other ((client_id, (c, info)) ∷ rest) d =
      expired-cons now secs other client_id c info rest d.0
        (idle_clients-has now secs other rest d.1) (is_idle now secs info)
      ∙ if_expired now secs (some (c, info)) (lookup other rest) (client_id == other)

  -- The first loop finds the idle ones.
  idle_clients-lookup :
      (now secs other : ℕ) (sticky_map : List (ℕ × (C × StickyConnectionInfo)))
      → Distinct (keys sticky_map)
      → after_rounds now secs other (idle_clients now secs sticky_map) sticky_map
        ≡ unless_idle now secs (lookup other sticky_map)
  idle_clients-lookup now secs other sticky_map d =
      ap
        (λ b. if b then unless_idle now secs (lookup other sticky_map) else lookup other sticky_map)
        (idle_clients-has now secs other sticky_map d)
      ∙ expired_first now secs (lookup other sticky_map)

  notify_cleaned-lookup :
      (n other : ℕ) (m : PoolManager P C)
      → lookup other (notify_cleaned n m).sticky_map ≡ lookup other m.sticky_map
  notify_cleaned-lookup zero other m = refl
  notify_cleaned-lookup (suc n) other m = notify_cleaned-lookup n other _

  -- A clean-up removes from the sticky map the bindings that have been idle for more than the configured seconds, and
  -- every other binding stays as it was. Conditions: the time is not 0, which turns the clean-up off, and no client
  -- stands in the map twice.
  pub cleanup_idle-lookup :
      (now other : ℕ) (m : PoolManager P C)
      → m.config.idle_unpin_secs == 0 ≡ false
      → Distinct (keys m.sticky_map)
      → lookup other (cleanup_idle pools now m).0.sticky_map
        ≡ unless_idle now m.config.idle_unpin_secs (lookup other m.sticky_map)
  unfolding cleanup_idle
  cleanup_idle-lookup now other m on d =
      let idle = idle_clients now m.config.idle_unpin_secs m.sticky_map in
      let (m', cleaned) = clean pools now idle (m, 0) in
      let swept : PoolManager P C × ℕ = (notify_cleaned cleaned m', cleaned) in
      ap (λ (r : PoolManager P C × ℕ). lookup other r.0.sticky_map)
        (ap (λ b. if b then (m, 0) else swept) on)
      ∙ notify_cleaned-lookup cleaned other m'
      ∙ clean-lookup now other idle m 0
      ∙ idle_clients-lookup now m.config.idle_unpin_secs other m.sticky_map d
