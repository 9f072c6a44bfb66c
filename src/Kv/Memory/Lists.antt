-- ===== src/Kv/Memory/Lists.antt =====
-- The lists of `MemStore` behave as the clients of the interface expect.
use stone_server.Prelude.{
  ℕ, ◌≡◌, refl, Option, none, List, [], ◌∷◌, ◌++◌, String, if◌then◌else◌, arith, Option-cases, inl,
  inr,
}
use stone_server.Kv.{Key, key_eq, key_eq_iff, split_last, last_reply, without_last, ListLaws}
use stone_server.Kv.Memory.{MemStore, lookup-put, put, list_at, lpush, rpush, rpop, mem_kv}

list_at-put :
    (k j : Key) (l : List String) (s : MemStore)
    → list_at j (record s { lists = put k l s.lists }) ≡ (if key_eq k j then l else list_at j s)
list_at-put k j l s = ground (arith, lookup-put k j l s.lists)

same_list :
    (k j : Key) (s : MemStore) → list_at j s ≡ (if key_eq k j then list_at k s else list_at j s)
same_list k j s = ground (arith, key_eq_iff k j)

split_last-none : (l : List String) → split_last l ≡ none → l ≡ []
unfolding split_last
split_last-none [] e = refl
split_last-none (x ∷ l) e = ground arith

items-rpop :
    (k j : Key) (s : MemStore)
    → list_at j (rpop k s).1
      ≡ (if key_eq k j then without_last (split_last (list_at k s)) else list_at j s)
unfolding rpop
items-rpop k j s = elim (Option-cases (split_last (list_at k s))) [
  | inl e ↦ ground (arith, e, split_last-none (list_at k s) e, key_eq_iff k j)
  | inr ((init, last), e) ↦ ground (arith, e, list_at-put k j init s)
]

rpop-reply : (k : Key) (s : MemStore) → (rpop k s).0 ≡ last_reply (split_last (list_at k s))
unfolding rpop
rpop-reply k s = ground arith

-- The in-memory store meets the laws of lists.
pub mem_list_laws :
    (parse_int : String → Option ℕ) (format_int : ℕ → String)
    → ListLaws (mem_kv parse_int format_int)
mem_list_laws parse_int format_int = record {
  rpop-reply = rpop-reply;
  items-rpop = items-rpop;
  lpush-reply = unfold lpush in λ k v s. refl;
  items-lpush = unfold lpush in λ k j v s. list_at-put k j (v ∷ list_at k s) s;
  rpush-reply = unfold rpush in λ k v s. refl;
  items-rpush = unfold rpush in λ k j v s. list_at-put k j (list_at k s ++ v ∷ []) s;
}
