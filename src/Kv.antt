-- ===== src/Kv.antt =====
-- pkg/kvstore: the interface `KVStore`, its in-memory implementation and the laws that the
-- clients use. An operation takes the time at which it runs. A key is kept as the format of its
-- text and the argument: the arguments are UUIDs, hashes and addresses, which no format runs into.
pub mod Memory
use stone_server.Prelude.{
  ◌⊎◌, inl, inr, refl, ℕ, ◌+◌, ◌≤◌, ◌<◌, ◌≡◌, ◌↔◌, Bool, true, false, ◌&&◌, ◌||◌, Option, none,
  some, List, [], ◌∷◌, ◌++◌, String, str_eq, eq_iff, ltb, ◌==◌, if◌then◌else◌, arith,
}

pub record Key : Type 0 where
  pub format : String
  pub name : String

unfoldable pub key_eq : Key → Key → Bool
key_eq a b = str_eq a.format b.format && str_eq a.name b.name

pub key_eq_iff : (a b : Key) → (key_eq a b ≡ true) ↔ (a ≡ b)
unfolding key_eq
key_eq_iff a b = ground (arith, eq_iff a.format b.format, eq_iff a.name b.name)

abbrev pub key_in : Key → List Key → Bool
key_in j [] = false
key_in j (k ∷ ks) = key_eq k j || key_in j ks

-- What an operation replies: a value, `ErrNotFound`, or another error.
pub data Reply {ℓ} (A : Type ℓ) : Type ℓ where
  ok : A → Reply A
  not_found failed : Reply A

pub Reply-cases {ℓ} :
    {A : Type ℓ} (r : Reply A) → ((a : A) × (r ≡ ok a)) ⊎ ((r ≡ not_found) ⊎ (r ≡ failed))
Reply-cases (ok a) = inl (a, refl)
Reply-cases not_found = inr (inl refl)
Reply-cases failed = inr (inr refl)

abbrev pub found {ℓ} : {A : Type ℓ} → Option A → Reply A
found none = not_found
found (some a) = ok a

-- How long an entry of this ttl, written at `now`, is there: for ever, if the ttl is 0.
abbrev pub live_for : ℕ → ℕ → ℕ → Bool
live_for now ttl t = if ttl == 0 then true else if ltb (now + ttl) t then false else true

abbrev pub written : ℕ → ℕ → ℕ → String → Option String
written now ttl t v = if live_for now ttl t then some v else none

abbrev pub is_some {ℓ} : {A : Type ℓ} → Option A → Bool
is_some none = false
is_some (some a) = true

-- The reply of INCRBY on what is stored.
abbrev pub incremented : (String → Option ℕ) → ℕ → Option String → Reply ℕ
incremented parse n none = ok n
incremented parse n (some v) = elim (parse v) [ none ↦ failed | some m ↦ ok (m + n) ]

-- items[n-1] and items[:n-1], of `RPop`
unfoldable pub split_last : List String → Option (List String × String)
split_last [] = none
split_last (x ∷ xs) = elim (split_last xs) [
  | none ↦ some ([], x)
  | some (init, last) ↦ some (x ∷ init, last)
]

pub record KvStore : Type 1 where
  pub State : Type 0
  pub get : ℕ → Key → State → Reply String × State
  pub set : ℕ → Key → String → ℕ → State → Reply (Unit {0}) × State
  pub set_nx : ℕ → Key → String → ℕ → State → Reply Bool × State
  pub del : ℕ → List Key → State → Reply (Unit {0}) × State
  pub incr_by : ℕ → Key → ℕ → State → Reply ℕ × State
  pub expire : ℕ → Key → ℕ → State → Reply (Unit {0}) × State
  pub lpush : Key → String → State → Reply (Unit {0}) × State
  pub rpush : Key → String → State → Reply (Unit {0}) × State
  pub rpop : Key → State → Reply String × State
  pub value_at : State → ℕ → Key → Option String
  pub items : State → Key → List String
  pub parse_count : String → Option ℕ
  pub count_text : ℕ → String

-- A store that does not fail. `value_at s t k` is what a reader at time t finds under k.
pub record KvLaws (kv : KvStore) : Type 1 where
  pub get-reply :
      (now : ℕ) (k : Key) (s : kv.State) → (kv.get now k s).0 ≡ found (kv.value_at s now k)
  pub value_at-get :
      (now t : ℕ) (k j : Key) (s : kv.State)
      → now ≤ t
      → kv.value_at (kv.get now k s).1 t j ≡ kv.value_at s t j
  pub set-reply :
      (now : ℕ) (k : Key) (v : String) (ttl : ℕ) (s : kv.State) → (kv.set now k v ttl s).0 ≡ ok tt
  pub value_at-set :
      (now t : ℕ) (k j : Key) (v : String) (ttl : ℕ) (s : kv.State)
      → now ≤ t
      → kv.value_at (kv.set now k v ttl s).1 t j
        ≡ (if key_eq k j then written now ttl t v else kv.value_at s t j)
  pub set_nx-reply :
      (now : ℕ) (k : Key) (v : String) (ttl : ℕ) (s : kv.State)
      → (kv.set_nx now k v ttl s).0 ≡ ok (if is_some (kv.value_at s now k) then false else true)
  pub value_at-set_nx :
      (now t : ℕ) (k j : Key) (v : String) (ttl : ℕ) (s : kv.State)
      → now ≤ t
      → kv.value_at (kv.set_nx now k v ttl s).1 t j ≡ (
          if is_some (kv.value_at s now k)
          then kv.value_at s t j
          else if key_eq k j
          then written now ttl t v
          else kv.value_at s t j)
  pub del-reply : (now : ℕ) (ks : List Key) (s : kv.State) → (kv.del now ks s).0 ≡ ok tt
  pub value_at-del :
      (now t : ℕ) (ks : List Key) (j : Key) (s : kv.State)
      → now ≤ t
      → kv.value_at (kv.del now ks s).1 t j ≡ (if key_in j ks then none else kv.value_at s t j)
  pub incr_by-reply :
      (now : ℕ) (k : Key) (n : ℕ) (s : kv.State)
      → (kv.incr_by now k n s).0 ≡ incremented kv.parse_count n (kv.value_at s now k)
  pub value_at-incr_by_new :
      (now t : ℕ) (k j : Key) (n : ℕ) (s : kv.State)
      → now ≤ t
      → kv.value_at s now k ≡ none
      → kv.value_at (kv.incr_by now k n s).1 t j
        ≡ (if key_eq k j then some (kv.count_text n) else kv.value_at s t j)
  pub value_at-incr_by_old :
      (now t : ℕ) (k j : Key) (n m : ℕ) (v : String) (s : kv.State)
      → now ≤ t
      → kv.value_at s now k ≡ some v
      → kv.parse_count v ≡ some m
      → kv.value_at (kv.incr_by now k n s).1 t j ≡ (
          if key_eq k j && is_some (kv.value_at s t k)
          then some (kv.count_text (m + n))
          else kv.value_at s t j)
  pub expire-reply :
      (now : ℕ) (k : Key) (ttl : ℕ) (s : kv.State) → (kv.expire now k ttl s).0 ≡ ok tt
  pub value_at-expire :
      (now t : ℕ) (k j : Key) (ttl : ℕ) (v : String) (s : kv.State)
      → now ≤ t
      → kv.value_at s now k ≡ some v
      → kv.value_at (kv.expire now k ttl s).1 t j
        ≡ (if key_eq k j then if ltb (now + ttl) t then none else some v else kv.value_at s t j)
  pub parse_count-count_text : (n : ℕ) → kv.parse_count (kv.count_text n) ≡ some n

-- The last item of a list, as a reply, and the items before it.
abbrev pub last_reply : Option (List String × String) → Reply String
last_reply none = not_found
last_reply (some (init, last)) = ok last

abbrev pub without_last : Option (List String × String) → List String
without_last none = []
without_last (some (init, last)) = init

-- The lists of a store that does not fail.
pub record ListLaws (kv : KvStore) : Type 1 where
  pub rpop-reply :
      (k : Key) (s : kv.State) → (kv.rpop k s).0 ≡ last_reply (split_last (kv.items s k))
  pub items-rpop :
      (k j : Key) (s : kv.State)
      → kv.items (kv.rpop k s).1 j
        ≡ (if key_eq k j then without_last (split_last (kv.items s k)) else kv.items s j)
  pub lpush-reply : (k : Key) (v : String) (s : kv.State) → (kv.lpush k v s).0 ≡ ok tt
  pub items-lpush :
      (k j : Key) (v : String) (s : kv.State)
      → kv.items (kv.lpush k v s).1 j ≡ (if key_eq k j then v ∷ kv.items s k else kv.items s j)
  pub rpush-reply : (k : Key) (v : String) (s : kv.State) → (kv.rpush k v s).0 ≡ ok tt
  pub items-rpush :
      (k j : Key) (v : String) (s : kv.State)
      → kv.items (kv.rpush k v s).1 j
        ≡ (if key_eq k j then kv.items s k ++ v ∷ [] else kv.items s j)
