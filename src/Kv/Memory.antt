-- ===== src/Kv/Memory.antt =====
-- pkg/kvstore/memory.go: `MemStore`. Each method holds the mutex from its first line to its last,
-- so a method is one step. `parse_int` and `format_int` stand for strconv.
pub mod Laws
pub mod Lists
use stone_server.Prelude.{
  ℕ, ◌+◌, ◌≤◌, ◌<◌, ◌≡◌, refl, Bool, true, false, not, ◌&&◌, Option, none, some, List, [], ◌∷◌,
  ◌++◌, String, eq_iff, ltb, ◌==◌, if◌then◌else◌, arith, length,
}
use stone_server.Kv
use stone_server.Kv.{
  Key, key_eq, key_eq_iff, Reply, ok, not_found, failed, KvStore, KvLaws, found, written, is_some,
  split_last,
}

pub record Entry : Type 0 where
  pub val : String
  pub expires_at : Option ℕ

-- `time.Now().After(expiresAt)`; the zero time is `none`
abbrev pub expired : ℕ → Entry → Bool
expired now e = elim e.expires_at [ none ↦ false | some t ↦ ltb t now ]

pub record MemStore : Type 0 where
  pub kv : List (Key × Entry)
  pub lists : List (Key × List String)

abbrev pub new_mem_store : MemStore
new_mem_store = record { kv = []; lists = [] }

module _ {ℓ} {V : Type ℓ} where
  unfoldable pub lookup : Key → List (Key × V) → Option V
  lookup k [] = none
  lookup k ((j, v) ∷ m) = if key_eq j k then some v else lookup k m

  -- delete(m, k)
  unfoldable pub delete : Key → List (Key × V) → List (Key × V)
  delete k [] = []
  delete k ((j, v) ∷ m) = let rest = delete k m in if key_eq j k then rest else (j, v) ∷ rest

  -- m[k] = v
  abbrev pub put : Key → V → List (Key × V) → List (Key × V)
  put k v m = (k, v) ∷ delete k m

  pub lookup-delete :
      (k j : Key) (m : List (Key × V))
      → lookup j (delete k m) ≡ (if key_eq k j then none else lookup j m)
  unfolding lookup delete
  lookup-delete k j [] = ground arith
  lookup-delete k j ((i, v) ∷ m) =
      ground (arith, lookup-delete k j m, key_eq_iff i k, key_eq_iff i j, key_eq_iff k j)

  pub lookup-put :
      (k j : Key) (v : V) (m : List (Key × V))
      → lookup j (put k v m) ≡ (if key_eq k j then some v else lookup j m)
  unfolding lookup
  lookup-put k j v m = ground (arith, lookup-delete k j m)

unfoldable pub expiry : ℕ → ℕ → Option ℕ
expiry now ttl = if ltb 0 ttl then some (now + ttl) else none

-- An expired entry is deleted when it is met.
unfoldable pub get_entry : ℕ → Key → MemStore → Option Entry × MemStore
unfolding lookup delete
get_entry now k s = elim (lookup k s.kv) [
  | none ↦ (none, s)
  | some e ↦ if expired now e then (none, record s { kv = delete k s.kv }) else (some e, s)
]

unfoldable pub get : ℕ → Key → MemStore → Reply String × MemStore
unfolding get_entry
get now k s =
    let (o, s') = get_entry now k s in elim o [ none ↦ (not_found, s') | some e ↦ (ok e.val, s') ]

unfoldable pub set : ℕ → Key → String → ℕ → MemStore → Reply (Unit {0}) × MemStore
unfolding expiry
set now k v ttl s =
    (ok tt, record s { kv = put k (record { val = v; expires_at = expiry now ttl }) s.kv })

unfoldable pub set_nx : ℕ → Key → String → ℕ → MemStore → Reply Bool × MemStore
unfolding get_entry expiry
set_nx now k v ttl s =
    let (o, s') = get_entry now k s in
    elim o [
      | some _ ↦ (ok false, s')
      | none ↦ (
        ok true,
        record s' { kv = put k (record { val = v; expires_at = expiry now ttl }) s'.kv },
      )
    ]

unfoldable pub delete_all : List Key → List (Key × Entry) → List (Key × Entry)
unfolding delete
delete_all [] m = m
delete_all (k ∷ ks) m = delete_all ks (delete k m)

unfoldable pub del : ℕ → List Key → MemStore → Reply (Unit {0}) × MemStore
unfolding delete_all
del now ks s = (ok tt, record s { kv = delete_all ks s.kv })

unfoldable pub exists : ℕ → Key → MemStore → Reply Bool × MemStore
unfolding get_entry
exists now k s = let (o, s') = get_entry now k s in (ok (is_some o), s')

unfoldable pub expire : ℕ → Key → ℕ → MemStore → Reply (Unit {0}) × MemStore
unfolding lookup delete
expire now k ttl s = elim (lookup k s.kv) [
  | none ↦ (ok tt, s)
  | some e ↦
      if expired now e
      then (ok tt, s)
      else (ok tt, record s { kv = put k (record e { expires_at = some (now + ttl) }) s.kv })
]

abbrev pub list_at : Key → MemStore → List String
list_at k s = elim (lookup k s.lists) [ none ↦ [] | some l ↦ l ]

unfoldable pub lpush : Key → String → MemStore → Reply (Unit {0}) × MemStore
lpush k v s = (ok tt, record s { lists = put k (v ∷ list_at k s) s.lists })

unfoldable pub rpush : Key → String → MemStore → Reply (Unit {0}) × MemStore
rpush k v s = (ok tt, record s { lists = put k (list_at k s ++ v ∷ []) s.lists })

unfoldable pub rpop : Key → MemStore → Reply String × MemStore
unfolding split_last
rpop k s = elim (split_last (list_at k s)) [
  | none ↦ (not_found, s)
  | some (init, last) ↦ (ok last, record s { lists = put k init s.lists })
]

-- The entries that are left, and how many were deleted.
unfoldable pub sweep_entries : ℕ → List (Key × Entry) → List (Key × Entry) × ℕ
sweep_entries now [] = ([], 0)
sweep_entries now ((k, e) ∷ m) =
    let (left, swept) = sweep_entries now m in
    if expired now e then (left, swept + 1) else ((k, e) ∷ left, swept)

unfoldable pub sweep : ℕ → MemStore → (ℕ × ℕ) × MemStore
unfolding sweep_entries
sweep now s =
    let (left, swept) = sweep_entries now s.kv in ((swept, length left), record s { kv = left })

unfoldable pub value_at : MemStore → ℕ → Key → Option String
unfolding lookup
value_at s t k = elim (lookup k s.kv) [
  | none ↦ none
  | some e ↦ if expired t e then none else some e.val
]

module _ (parse_int : String → Option ℕ) (format_int : ℕ → String) where
  unfoldable pub incr_by : ℕ → Key → ℕ → MemStore → Reply ℕ × MemStore
  unfolding get_entry
  incr_by now k n s =
      let (o, s') = get_entry now k s in
      elim o [
        | none ↦ (
          ok n,
          record s' { kv = put k (record { val = format_int n; expires_at = none }) s'.kv },
        )
        | some e ↦ elim (parse_int e.val) [
          | none ↦ (failed, s')
          | some m ↦
              (ok (m + n), record s' { kv = put k (record e { val = format_int (m + n) }) s'.kv })
        ]
      ]

  abbrev pub mem_kv : KvStore
  mem_kv = record {
    State = MemStore;
    get = get;
    set = set;
    set_nx = set_nx;
    del = del;
    incr_by = incr_by;
    expire = expire;
    lpush = lpush;
    rpush = rpush;
    rpop = rpop;
    value_at = value_at;
    items = λ s k. list_at k s;
    parse_count = parse_int;
    count_text = format_int;
  }
