-- ===== src/Achievement/Worker/Queue.antt =====
-- The queue as the worker sees it: the items in the order in which RPop yields them.
use stone_server.Prelude.{
  ℕ, zero, suc, ◌<◌, ◌≡◌, refl, sym, ap, ◌∙◌, some, List, [], ◌∷◌, ◌++◌, length, length-append,
  String, true, arith,
}
use stone_server.Kv
use stone_server.Kv.{Key, KvStore, ListLaws, split_last, key_eq, key_eq_iff}
use stone_server.Achievement.{retry_queue}
use stone_server.Achievement.Worker.{requeue, drain, push_all}

-- From the last item to the first.
abbrev pub pop_order : List String → List String
pop_order [] = []
pop_order (x ∷ xs) = pop_order xs ++ x ∷ []

pub append_nil : (xs : List String) → xs ++ [] ≡ xs
append_nil [] = refl
append_nil (x ∷ xs) = ap (λ l. x ∷ l) (append_nil xs)

pub append_assoc : (xs ys zs : List String) → (xs ++ ys) ++ zs ≡ xs ++ (ys ++ zs)
append_assoc [] ys zs = refl
append_assoc (x ∷ xs) ys zs = ap (λ l. x ∷ l) (append_assoc xs ys zs)

pop_order-snoc : (xs : List String) (x : String) → pop_order (xs ++ x ∷ []) ≡ x ∷ pop_order xs
pop_order-snoc [] x = refl
pop_order-snoc (y ∷ xs) x = ap (λ l. l ++ y ∷ []) (pop_order-snoc xs x)

pub pop_order-pop_order : (xs : List String) → pop_order (pop_order xs) ≡ xs
pop_order-pop_order [] = refl
pop_order-pop_order (x ∷ xs) =
    pop_order-snoc (pop_order xs) x ∙ ap (λ l. x ∷ l) (pop_order-pop_order xs)

pub length-pop_order : (xs : List String) → length (pop_order xs) ≡ length xs
length-pop_order [] = refl
length-pop_order (x ∷ xs) =
    omega (arith, length-append (pop_order xs) (x ∷ []), length-pop_order xs)

pub split_last-snoc : (xs : List String) (x : String) → split_last (xs ++ x ∷ []) ≡ some (xs, x)
unfolding split_last
split_last-snoc [] x = refl
split_last-snoc (y ∷ xs) x = ground (arith, split_last-snoc xs x)

module _ (kv : KvStore) (laws : ListLaws kv) where
  -- What is in the queue.
  abbrev pub queued : kv.State → List String
  queued s = kv.items s retry_queue

  pub rpop_last :
      (s : kv.State) (x : String) (xs : List String)
      → queued s ≡ pop_order (x ∷ xs)
      → ((kv.rpop retry_queue s).0 ≡ Kv.ok x) × (queued (kv.rpop retry_queue s).1 ≡ pop_order xs)
  rpop_last s x xs e =
      let last = ap split_last e ∙ split_last-snoc (pop_order xs) x in
      (
        ground (arith, laws.rpop-reply retry_queue s, last),
        ground (
          arith,
          laws.items-rpop retry_queue retry_queue s,
          last,
          key_eq_iff retry_queue retry_queue,
        ),
      )

  pub rpop_empty :
      (s : kv.State)
      → queued s ≡ []
      → ((kv.rpop retry_queue s).0 ≡ Kv.not_found) × (queued (kv.rpop retry_queue s).1 ≡ [])
  unfolding split_last
  rpop_empty s e = (
    ground (arith, laws.rpop-reply retry_queue s, e),
    ground
        (arith, laws.items-rpop retry_queue retry_queue s, e, key_eq_iff retry_queue retry_queue),
  )

  pub queued-requeue :
      (items : List String) (s : kv.State)
      → queued (requeue kv items s) ≡ queued s ++ pop_order items
  unfolding requeue
  queued-requeue [] s = sym (append_nil (queued s))
  queued-requeue (x ∷ items) s =
      let ih = queued-requeue items s in
      let assoc = append_assoc (queued s) (pop_order items) (x ∷ []) in
      ground (
        arith,
        ih,
        assoc,
        laws.items-rpush retry_queue retry_queue x (requeue kv items s),
        key_eq_iff retry_queue retry_queue,
      )

  pub push_all_lem :
      (items : List String) (s : kv.State)
      → ((push_all kv items s).0 ≡ true)
        × (queued (push_all kv items s).1 ≡ pop_order items ++ queued s)
  unfolding push_all
  push_all_lem [] s = (refl, refl)
  push_all_lem (x ∷ items) s =
      let s' = (kv.lpush retry_queue x s).1 in
      let (pushed, ih) = push_all_lem items s' in
      let reply = laws.lpush-reply retry_queue x s in
      let assoc = append_assoc (pop_order items) (x ∷ []) (queued s) in
      (
        ground (arith, reply, pushed),
        ground (
          arith,
          reply,
          ih,
          assoc,
          laws.items-lpush retry_queue retry_queue x s,
          key_eq_iff retry_queue retry_queue,
        ),
      )

  drain-pop_order :
      (xs : List String) (fuel : ℕ) (s : kv.State)
      → queued s ≡ pop_order xs
      → length xs < fuel
      → (s' : kv.State) × (drain kv fuel s ≡ some (true, s')) × (queued s' ≡ [])
  unfolding drain
  drain-pop_order xs zero s e h = absurd (omega arith)
  drain-pop_order [] (suc fuel) s e h =
      let (reply, empty) = rpop_empty s e in
      ((kv.rpop retry_queue s).1, ground (arith, reply), empty)
  drain-pop_order (x ∷ xs) (suc fuel) s e h =
      let (reply, rest) = rpop_last s x xs e in
      let (s', done, empty) =
        drain-pop_order xs fuel (kv.rpop retry_queue s).1 rest (omega arith) in
      (s', ground (arith, reply, done), empty)

  -- Fuel for one more round than there are items empties the queue.
  pub drain_total :
      (fuel : ℕ) (s : kv.State)
      → length (queued s) < fuel
      → (s' : kv.State) × (drain kv fuel s ≡ some (true, s')) × (queued s' ≡ [])
  drain_total fuel s h =
      drain-pop_order (pop_order (queued s)) fuel s (sym (pop_order-pop_order (queued s)))
        (omega (arith, length-pop_order (queued s)))
