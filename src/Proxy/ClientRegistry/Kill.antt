-- ===== src/Proxy/ClientRegistry/Kill.antt =====
-- Whom `KILL` disconnects.
use scry_proxy.Base.{
  ℕ, ◌≡◌, refl, ap, ◌∙◌, Bool, true, false, not, ◌&&◌, Option, none, some, List, [], ◌∷◌, arith,
  Bytes, nat_eq, ==_iff, lookup, contains_key, insert, remove, keys, has, has-keys, Distinct, All,
  lookup-remove, contains_key-remove, remove-Distinct, insert-Distinct, eq_ignore_ascii_case,
  if◌then◌else◌, is_some,
}
use scry_proxy.Proxy.ClientRegistry.{
  ClientEntry, ClientRegistry, register, register_abort_handle, deregister, matching, remove_all,
  aborted, kill_by_database, get,
}

-- Every entry stands under the id that it states.
abbrev pub Keyed : List (ℕ × ClientEntry) → Type 0
Keyed = All (λ p. p.1.conn_id ≡ p.0)

pub record IsValid (r : ClientRegistry) : Type 0 where
  pub keyed : Keyed r.inner
  pub distinct : Distinct (keys r.inner)
  pub distinct_handles : Distinct (keys r.abort_handles)

insert-Keyed :
    (e : ClientEntry) (m : List (ℕ × ClientEntry)) → Keyed m → Keyed (insert e.conn_id e m)
insert-Keyed e [] h = (refl, tt)
insert-Keyed e ((k, d) ∷ m) h = ground (arith, insert-Keyed e m h.1)

remove-Keyed : (id : ℕ) (m : List (ℕ × ClientEntry)) → Keyed m → Keyed (remove id m)
remove-Keyed id [] h = tt
remove-Keyed id ((k, d) ∷ m) h = ground (arith, remove-Keyed id m h.1)

remove_all-Keyed : (ids : List ℕ) (m : List (ℕ × ClientEntry)) → Keyed m → Keyed (remove_all ids m)
remove_all-Keyed [] m h = h
remove_all-Keyed (id ∷ ids) m h = remove_all-Keyed ids (remove id m) (remove-Keyed id m h)

remove_all-Distinct {ℓ} :
    {V : Type ℓ} (ids : List ℕ) (m : List (ℕ × V))
    → Distinct (keys m)
    → Distinct (keys (remove_all ids m))
remove_all-Distinct [] m h = h
remove_all-Distinct (id ∷ ids) m h = remove_all-Distinct ids (remove id m) (remove-Distinct id m h)

lookup-remove_all {ℓ} :
    {V : Type ℓ} (id : ℕ) (ids : List ℕ) (m : List (ℕ × V))
    → lookup id (remove_all ids m) ≡ (if has id ids then none else lookup id m)
lookup-remove_all id [] m = refl
lookup-remove_all id (k ∷ ids) m =
    ground (arith, lookup-remove_all id ids (remove k m), lookup-remove k id m)

abbrev pub is_of : Bytes → ClientEntry → Bool
is_of db e = eq_ignore_ascii_case e.database db

-- What is left of an entry when the database's clients are killed.
abbrev pub unless_killed : Bytes → Option ClientEntry → Option ClientEntry
unless_killed db none = none
unless_killed db (some e) = if is_of db e then none else some e

abbrev pub found_of : Bytes → Option ClientEntry → Bool
found_of db none = false
found_of db (some e) = is_of db e

has-matching :
    (db : Bytes) (id : ℕ) (m : List (ℕ × ClientEntry))
    → Keyed m
    → Distinct (keys m)
    → has id (matching db m) ≡ found_of db (lookup id m)
unfolding matching
has-matching db id [] h d = refl
has-matching db id ((k, e) ∷ m) h d =
    ground
      (arith, ==_iff k id, ==_iff e.conn_id id, h.0, has-matching db id m h.1 d.1, has-keys k m)

has-aborted :
    (id : ℕ) (ids : List ℕ) (handles : List (ℕ × Unit {0}))
    → has id (aborted ids handles) ≡ (has id ids && contains_key id handles)
unfolding aborted
has-aborted id [] handles = refl
has-aborted id (k ∷ ids) handles =
    ground
      (arith, ==_iff k id, has-aborted id ids (remove k handles), contains_key-remove k id handles)

unless_killed-lookup :
    (db : Bytes) (o : Option ClientEntry) → (if found_of db o then none else o) ≡ unless_killed db o
unless_killed-lookup db none = refl
unless_killed-lookup db (some e) = refl

pub register-IsValid : (e : ClientEntry) (r : ClientRegistry) → IsValid r → IsValid (register e r)
unfolding register
register-IsValid e r v = record {
  keyed = insert-Keyed e r.inner v.keyed;
  distinct = insert-Distinct e.conn_id e r.inner v.distinct;
  distinct_handles = v.distinct_handles;
}

pub register_abort_handle-IsValid :
    (id : ℕ) (r : ClientRegistry) → IsValid r → IsValid (register_abort_handle id r)
unfolding register_abort_handle
register_abort_handle-IsValid id r v = record {
  keyed = v.keyed;
  distinct = v.distinct;
  distinct_handles = insert-Distinct id tt r.abort_handles v.distinct_handles;
}

pub deregister-IsValid : (id : ℕ) (r : ClientRegistry) → IsValid r → IsValid (deregister id r)
unfolding deregister
deregister-IsValid id r v = record {
  keyed = remove-Keyed id r.inner v.keyed;
  distinct = remove-Distinct id r.inner v.distinct;
  distinct_handles = remove-Distinct id r.abort_handles v.distinct_handles;
}

pub kill_by_database-IsValid :
    (db : Bytes) (r : ClientRegistry) → IsValid r → IsValid (kill_by_database db r).registry
unfolding kill_by_database
kill_by_database-IsValid db r v = record {
  keyed = remove_all-Keyed (matching db r.inner) r.inner v.keyed;
  distinct = remove_all-Distinct (matching db r.inner) r.inner v.distinct;
  distinct_handles = remove_all-Distinct (matching db r.inner) r.abort_handles v.distinct_handles;
}

-- `KILL` hits the clients of the database, in any case of letters, and no others: their entries are gone and they are
-- the ones that it reports, every other entry is as before, and of those that it reports it has stopped exactly the
-- ones whose abort handle was there.
-- Condition: every entry stands once, under its own id.
pub kill_by_database-get :
    (db : Bytes) (id : ℕ) (r : ClientRegistry)
    → IsValid r
    → let k = kill_by_database db r in
      (get id k.registry ≡ unless_killed db (get id r))
      × (has id k.ids ≡ found_of db (get id r))
      × (has id k.stopped ≡ (found_of db (get id r) && contains_key id r.abort_handles))
unfolding kill_by_database get
kill_by_database-get db id r v =
    let hit = has-matching db id r.inner v.keyed v.distinct in
    (
      lookup-remove_all id (matching db r.inner) r.inner
          ∙ ap (λ b. if b then none else lookup id r.inner) hit
          ∙ unless_killed-lookup db (lookup id r.inner),
      hit,
      has-aborted id (matching db r.inner) r.abort_handles
          ∙ ap (λ b. b && contains_key id r.abort_handles) hit,
    )

contains_key-if {ℓ} :
    {V : Type ℓ} (b : Bool) (o : Option V) → is_some (if b then none else o) ≡ (not b && is_some o)
contains_key-if true o = refl
contains_key-if false o = refl

-- The handles that are left.
pub kill_by_database-handles :
    (db : Bytes) (id : ℕ) (r : ClientRegistry)
    → IsValid r
    → contains_key id (kill_by_database db r).registry.abort_handles
      ≡ (not (found_of db (get id r)) && contains_key id r.abort_handles)
unfolding kill_by_database get
kill_by_database-handles db id r v =
    ap is_some (lookup-remove_all id (matching db r.inner) r.abort_handles)
    ∙ contains_key-if (has id (matching db r.inner)) (lookup id r.abort_handles)
    ∙ ap (λ b. not b && contains_key id r.abort_handles)
        (has-matching db id r.inner v.keyed v.distinct)
