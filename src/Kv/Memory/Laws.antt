-- ===== src/Kv/Memory/Laws.antt =====
-- `MemStore` is a store that does not fail and whose entries end with their ttl.
use stone_server.Prelude.{
  ℕ, ◌+◌, ◌≤◌, ◌≡◌, refl, true, false, ◌&&◌, Option, none, some, List, [], ◌∷◌, String,
  if◌then◌else◌, ltb, arith, length, Option-cases, inl, inr,
}
use stone_server.Kv.{
  Key, key_eq, key_eq_iff, key_in, ok, KvLaws, found, written, is_some, incremented,
}
use stone_server.Kv.Memory.{
  Entry, MemStore, expired, lookup, delete, delete_all, lookup-delete, lookup-put, get_entry, get,
  set, set_nx, del, expire, value_at, incr_by, mem_kv, expiry, sweep, sweep_entries,
}

get_entry-value_at : (now : ℕ) (k : Key) (s : MemStore) → found (value_at s now k) ≡ (get now k s).0
unfolding get get_entry value_at
get_entry-value_at now k s = ground arith

value_at-get_entry :
    (now t : ℕ) (k j : Key) (s : MemStore)
    → now ≤ t
    → value_at (get_entry now k s).1 t j ≡ value_at s t j
unfolding get_entry value_at
value_at-get_entry now t k j s h = ground (arith, lookup-delete k j s.kv, key_eq_iff k j)

get-reply : (now : ℕ) (k : Key) (s : MemStore) → (get now k s).0 ≡ found (value_at s now k)
unfolding get get_entry value_at
get-reply now k s = ground arith

value_at-get :
    (now t : ℕ) (k j : Key) (s : MemStore) → now ≤ t → value_at (get now k s).1 t j ≡ value_at s t j
unfolding get get_entry value_at
value_at-get now t k j s h = ground (arith, lookup-delete k j s.kv, key_eq_iff k j)

value_at-set :
    (now t : ℕ) (k j : Key) (v : String) (ttl : ℕ) (s : MemStore)
    → now ≤ t
    → value_at (set now k v ttl s).1 t j
      ≡ (if key_eq k j then written now ttl t v else value_at s t j)
unfolding set value_at expiry
value_at-set now t k j v ttl s h =
    ground (arith, lookup-put k j (record { val = v; expires_at = expiry now ttl }) s.kv)

pub set_nx-reply :
    (now : ℕ) (k : Key) (v : String) (ttl : ℕ) (s : MemStore)
    → (set_nx now k v ttl s).0 ≡ ok (if is_some (value_at s now k) then false else true)
unfolding set_nx get_entry value_at
set_nx-reply now k v ttl s = ground arith

-- What a reader finds, then or later, after `SetNX`: the new value under its key for its ttl if
-- the key was free, and otherwise what it found before.
pub value_at-set_nx :
    (now t : ℕ) (k j : Key) (v : String) (ttl : ℕ) (s : MemStore)
    → now ≤ t
    → value_at (set_nx now k v ttl s).1 t j ≡ (
        if is_some (value_at s now k)
        then value_at s t j
        else if key_eq k j
        then written now ttl t v
        else value_at s t j)
unfolding set_nx get_entry value_at expiry
value_at-set_nx now t k j v ttl s h =
    let e : Entry = record { val = v; expires_at = expiry now ttl } in
    ground (
      arith,
      lookup-put k j e s.kv,
      lookup-put k j e (delete k s.kv),
      lookup-delete k j s.kv,
      key_eq_iff k j,
    )

lookup-delete_all :
    (ks : List Key) (j : Key) (m : List (Key × Entry))
    → lookup j (delete_all ks m) ≡ (if key_in j ks then none else lookup j m)
unfolding delete_all
lookup-delete_all [] j m = refl
lookup-delete_all (k ∷ ks) j m =
    ground (arith, lookup-delete_all ks j (delete k m), lookup-delete k j m)

value_at-del :
    (now t : ℕ) (ks : List Key) (j : Key) (s : MemStore)
    → now ≤ t
    → value_at (del now ks s).1 t j ≡ (if key_in j ks then none else value_at s t j)
unfolding del value_at
value_at-del now t ks j s h = ground (arith, lookup-delete_all ks j s.kv)

expire-reply : (now : ℕ) (k : Key) (ttl : ℕ) (s : MemStore) → (expire now k ttl s).0 ≡ ok tt
unfolding expire
expire-reply now k ttl s = ground arith

value_at-expire :
    (now t : ℕ) (k j : Key) (ttl : ℕ) (v : String) (s : MemStore)
    → now ≤ t
    → value_at s now k ≡ some v
    → value_at (expire now k ttl s).1 t j
      ≡ (if key_eq k j then if ltb (now + ttl) t then none else some v else value_at s t j)
unfolding expire value_at
value_at-expire now t k j ttl v s h here = elim (Option-cases (lookup k s.kv)) [
  | inl e ↦ ground (arith, e)
  | inr (e, q) ↦ ground (arith, q, lookup-put k j (record e { expires_at = some (now + ttl) }) s.kv)
]

module _ (parse_int : String → Option ℕ) (format_int : ℕ → String) where
  incr_by-reply :
      (now : ℕ) (k : Key) (n : ℕ) (s : MemStore)
      → (incr_by parse_int format_int now k n s).0 ≡ incremented parse_int n (value_at s now k)
  unfolding incr_by get_entry value_at
  incr_by-reply now k n s = ground arith

  value_at-incr_by_new :
      (now t : ℕ) (k j : Key) (n : ℕ) (s : MemStore)
      → now ≤ t
      → value_at s now k ≡ none
      → value_at (incr_by parse_int format_int now k n s).1 t j
        ≡ (if key_eq k j then some (format_int n) else value_at s t j)
  unfolding incr_by get_entry value_at
  value_at-incr_by_new now t k j n s h miss =
      let e : Entry = record { val = format_int n; expires_at = none } in
      ground
        (arith, lookup-put k j e s.kv, lookup-put k j e (delete k s.kv), lookup-delete k j s.kv)

  value_at-incr_by_old :
      (now t : ℕ) (k j : Key) (n m : ℕ) (v : String) (s : MemStore)
      → now ≤ t
      → value_at s now k ≡ some v
      → parse_int v ≡ some m
      → value_at (incr_by parse_int format_int now k n s).1 t j ≡ (
          if key_eq k j && is_some (value_at s t k)
          then some (format_int (m + n))
          else value_at s t j)
  unfolding incr_by get_entry value_at
  value_at-incr_by_old now t k j n m v s h hit parsed = elim (Option-cases (lookup k s.kv)) [
    | inl e ↦ ground (arith, e)
    | inr (e, q) ↦
        ground
          (arith, q, lookup-put k j (record e { val = format_int (m + n) }) s.kv, key_eq_iff k j)
  ]

  -- The in-memory store meets the laws, where the text of a count parses to the count.
  pub mem_laws :
      ((n : ℕ) → parse_int (format_int n) ≡ some n) → KvLaws (mem_kv parse_int format_int)
  mem_laws round_trip = record {
    get-reply = get-reply;
    value_at-get = value_at-get;
    set-reply = unfold set in λ now k v ttl s. refl;
    value_at-set = value_at-set;
    set_nx-reply = set_nx-reply;
    value_at-set_nx = value_at-set_nx;
    del-reply = unfold del in λ now k s. refl;
    value_at-del = value_at-del;
    incr_by-reply = incr_by-reply;
    value_at-incr_by_new = value_at-incr_by_new;
    value_at-incr_by_old = value_at-incr_by_old;
    expire-reply = expire-reply;
    value_at-expire = value_at-expire;
    parse_count-count_text = round_trip;
  }

-- A map has a key once.
abbrev pub IsMap : List (Key × Entry) → Type 0
IsMap [] = Unit
IsMap ((k, e) ∷ m) = (lookup k m ≡ none) × IsMap m

lookup-sweep :
    (now t : ℕ) (j : Key) (m : List (Key × Entry))
    → IsMap m
    → now ≤ t
    → lookup j (sweep_entries now m).0
      ≡ elim (lookup j m) [ none ↦ none | some e ↦ if expired now e then none else some e ]
unfolding lookup sweep_entries
lookup-sweep now t j [] d h = refl
lookup-sweep now t j ((k, e) ∷ m) d h = ground (arith, lookup-sweep now t j m d.1, key_eq_iff k j)

sweep_counts :
    (now : ℕ) (m : List (Key × Entry))
    → (sweep_entries now m).1 + length (sweep_entries now m).0 ≡ length m
unfolding sweep_entries
sweep_counts now [] = omega arith
sweep_counts now ((k, e) ∷ m) = ground (arith, sweep_counts now m)

-- Sweeping a map that has each key once changes nothing that a reader can see, now or later, and
-- the counts that it reports are those of the entries that it deleted and of those that it left.
pub value_at-sweep :
    (now t : ℕ) (j : Key) (s : MemStore)
    → IsMap s.kv
    → now ≤ t
    → (value_at (sweep now s).1 t j ≡ value_at s t j)
      × ((sweep now s).0.0 + (sweep now s).0.1 ≡ length s.kv)
      × ((sweep now s).0.1 ≡ length (sweep now s).1.kv)
unfolding sweep value_at
value_at-sweep now t j s d h =
    (ground (arith, lookup-sweep now t j s.kv d h), sweep_counts now s.kv, refl)
