-- ===== src/RateLimit/Window.antt =====
-- The requests of one window are counted, and its end comes.
use stone_server.Prelude.{
  ℕ, suc, ◌+◌, ◌≤◌, ◌<◌, ◌≡◌, refl, ◌∙◌, none, some, List, [], ◌∷◌, String, arith,
}
use stone_server.Kv
use stone_server.Kv.{Key, KvStore, KvLaws, Reply, written, is_some, incremented, key_eq, key_eq_iff}
use stone_server.RateLimit.{Instants, rearm, incr_again, incr_rate_limit}

-- All commands of a request at one instant.
abbrev pub at_once : ℕ → Instants
at_once t = record { at_set = t; at_incr = t; at_expire = t }

-- Times in order, from `from` to `until`.
abbrev pub IsWithin : ℕ → ℕ → List ℕ → Type 0
IsWithin from until [] = Unit
IsWithin from until (t ∷ ts) = (from ≤ t) × (t ≤ until) × IsWithin t until ts

abbrev pub numbered : ℕ → List ℕ → List (Reply ℕ)
numbered n [] = []
numbered n (t ∷ ts) = Kv.ok n ∷ numbered (suc n) ts

in_window : (window now t : ℕ) → t ≤ now + window → written now window t "1" ≡ some "1"
in_window window now t h = ground arith

module _ (kv : KvStore) (key : Key) (window : ℕ) where
  -- The counts of requests at these times, one after the other.
  pub counts : List ℕ → kv.State → List (Reply ℕ)
  counts [] s = []
  counts (t ∷ ts) s =
      let (reply, s') = incr_rate_limit kv (at_once t) key window s in reply ∷ counts ts s'

module _ (kv : KvStore) (laws : KvLaws kv) (key : Key) (window : ℕ) where
  first_request :
      (t t' : ℕ) (s : kv.State)
      → t ≤ t'
      → kv.value_at s t key ≡ none
      → ((incr_rate_limit kv (at_once t) key window s).0 ≡ Kv.ok 1)
        × (kv.value_at (incr_rate_limit kv (at_once t) key window s).1 t' key
            ≡ written t window t' "1")
  unfolding incr_rate_limit
  first_request t t' s h free =
      let reply = laws.set_nx-reply t key "1" window s in
      let after = laws.value_at-set_nx t t' key key "1" window s h in
      (ground (arith, free, reply), ground (arith, free, reply, after, key_eq_iff key key))

  next_request :
      (t t' n : ℕ) (v v' : String) (s : kv.State)
      → t ≤ t'
      → 1 ≤ n
      → kv.value_at s t key ≡ some v
      → kv.parse_count v ≡ some n
      → kv.value_at s t' key ≡ some v'
      → ((incr_rate_limit kv (at_once t) key window s).0 ≡ Kv.ok (suc n))
        × (kv.value_at (incr_rate_limit kv (at_once t) key window s).1 t' key
            ≡ some (kv.count_text (suc n)))
  unfolding incr_rate_limit incr_again
  next_request t t' n v v' s h pos here parsed there =
      let s₁ = (kv.set_nx t key "1" window s).1 in
      let set = laws.set_nx-reply t key "1" window s in
      let kept = laws.value_at-set_nx t t key key "1" window s (omega arith) in
      let kept' = laws.value_at-set_nx t t' key key "1" window s h in
      let here₁ : kv.value_at s₁ t key ≡ some v = ground (arith, here, kept) in
      let there₁ : kv.value_at s₁ t' key ≡ some v' = ground (arith, here, there, kept') in
      let reply = laws.incr_by-reply t key 1 s₁ in
      let after = laws.value_at-incr_by_old t t' key key 1 n v s₁ h here₁ parsed in
      let up : n + 1 ≡ suc n = omega arith in
      (
        ground (arith, here, set, reply, here₁, parsed, pos, up),
        ground (arith, here, set, reply, here₁, there₁, parsed, after, pos, up, key_eq_iff key key),
      )

  counts-numbered :
      (n now until : ℕ) (ts : List ℕ) (s : kv.State)
      → 1 ≤ n
      → ((t : ℕ)
          → now ≤ t
          → t ≤ until
          → (v : String) × (kv.value_at s t key ≡ some v) × (kv.parse_count v ≡ some n))
      → IsWithin now until ts
      → counts kv key window ts s ≡ numbered (suc n) ts
  unfolding counts
  counts-numbered n now until [] s pos stored within = refl
  counts-numbered n now until (t ∷ ts) s pos stored (le, le', within) =
      let (v, here, parsed) = stored t le le' in
      let s' = (incr_rate_limit kv (at_once t) key window s).1 in
      let reply = (next_request t t n v v s (omega arith) pos here parsed here).0 in
      let stored' : (t' : ℕ)
          → t ≤ t'
          → t' ≤ until
          → (w : String) × (kv.value_at s' t' key ≡ some w) × (kv.parse_count w ≡ some (suc n)) =
        λ t' h h'.
          let (v', there, _) = stored t' (omega (arith, le, h)) h' in
          (
            kv.count_text (suc n),
            (next_request t t' n v v' s h pos here parsed there).1,
            laws.parse_count-count_text (suc n),
          ) in
      let rest = counts-numbered (suc n) t until ts s' (omega arith) stored' within in
      cc (reply, rest)

  -- The requests of a window, from one that finds no counter, are numbered from 1: each gets the
  -- count of the requests so far. Each runs at one instant, and the text "1" parses to 1.
  pub incr_rate_limit-numbered :
      (now : ℕ) (ts : List ℕ) (s : kv.State)
      → kv.parse_count "1" ≡ some 1
      → kv.value_at s now key ≡ none
      → IsWithin now (now + window) ts
      → counts kv key window (now ∷ ts) s ≡ numbered 1 (now ∷ ts)
  unfolding counts
  incr_rate_limit-numbered now ts s one free within =
      let s' = (incr_rate_limit kv (at_once now) key window s).1 in
      let reply = (first_request now now s (omega arith) free).0 in
      let stored : (t : ℕ)
          → now ≤ t
          → t ≤ now + window
          → (v : String) × (kv.value_at s' t key ≡ some v) × (kv.parse_count v ≡ some 1) =
        λ t h h'. ("1", (first_request now t s h free).1 ∙ in_window window now t h', one) in
      cc (reply, counts-numbered 1 now (now + window) ts s' (omega arith) stored within)

  -- A counter that expires between the two commands of a request is made again by the second one,
  -- and gets a ttl: it does not outlive a window, so it cannot refuse the player for ever.
  pub incr_rate_limit-rearmed :
      (i : Instants) (t : ℕ) (v : String) (s : kv.State)
      → i.at_set ≤ i.at_incr
      → i.at_incr ≤ i.at_expire
      → i.at_expire + window < t
      → kv.value_at s i.at_set key ≡ some v
      → kv.value_at s i.at_incr key ≡ none
      → ((incr_rate_limit kv i key window s).0 ≡ Kv.ok 1)
        × (kv.value_at (incr_rate_limit kv i key window s).1 t key ≡ none)
  unfolding incr_rate_limit incr_again rearm
  incr_rate_limit-rearmed i t v s h h' past here gone =
      let s₁ = (kv.set_nx i.at_set key "1" window s).1 in
      let s₂ = (kv.incr_by i.at_incr key 1 s₁).1 in
      let set = laws.set_nx-reply i.at_set key "1" window s in
      let kept = laws.value_at-set_nx i.at_set i.at_incr key key "1" window s h in
      let gone₁ : kv.value_at s₁ i.at_incr key ≡ none = ground (arith, here, gone, kept) in
      let reply = laws.incr_by-reply i.at_incr key 1 s₁ in
      let made = laws.value_at-incr_by_new i.at_incr i.at_expire key key 1 s₁ h' gone₁ in
      let made' : kv.value_at s₂ i.at_expire key ≡ some (kv.count_text 1) =
        ground (arith, made, key_eq_iff key key) in
      let armed = laws.expire-reply i.at_expire key window s₂ in
      let after =
        laws.value_at-expire i.at_expire t key key window (kv.count_text 1) s₂ (omega (arith, past))
          made' in
      (
        ground (arith, here, set, reply, gone₁),
        ground (arith, here, set, reply, gone₁, armed, after, past, key_eq_iff key key),
      )
