-- ===== src/Achievement/Worker/Batch.antt =====
-- What a batch and a reload do to the queue, over any store whose lists meet the laws.
use stone_server.Prelude.{
  ℕ, zero, suc, ◌<◌, ◌≡◌, sym, ap, ◌∙◌, false, some, List, [], ◌∷◌, ◌++◌, length, String,
  if◌then◌else◌, arith,
}
use stone_server.Kv.{KvStore, ListLaws}
use stone_server.Achievement.{Database, Env, select_pending}
use stone_server.Achievement.Worker.{
  process_one, process_items, requeue, process_batch, push_all, pending_items, reloaded,
  reload_pending_retries,
}
use stone_server.Achievement.Worker.Queue.{
  append_nil, pop_order, pop_order-pop_order, length-pop_order, queued, rpop_last, rpop_empty,
  queued-requeue, push_all_lem, drain_total,
}

-- The abstract batch: the items in the order of the queue, each handled once. The items that stay,
-- in that order.
abbrev pub run_items : ℕ → (ℕ → Env) → ℕ → Database → List String → List String × Database
run_items max envs n db [] = ([], db)
run_items max envs n db (item ∷ items) =
    let (again, db') = process_one max (envs n) item db in
    let (rest, db'') = run_items max envs (suc n) db' items in
    (if again then item ∷ rest else rest, db'')

module _ (kv : KvStore) (laws : ListLaws kv) where
  process_items-run_items :
      (max : ℕ) (envs : ℕ → Env) (fuel n : ℕ) (db : Database) (items : List String) (s : kv.State)
      → queued kv laws s ≡ pop_order items
      → length items < fuel
      → (s' : kv.State) × (process_items kv max envs fuel n db s
          ≡ some ((run_items max envs n db items).0, ((run_items max envs n db items).1, s')))
        × (queued kv laws s' ≡ [])
  unfolding process_items
  process_items-run_items max envs zero n db items s e h = absurd (omega arith)
  process_items-run_items max envs (suc fuel) n db [] s e h =
      let (reply, empty) = rpop_empty kv laws s e in ((kv.rpop _ s).1, ground (arith, reply), empty)
  process_items-run_items max envs (suc fuel) n db (item ∷ items) s e h =
      let (reply, rest) = rpop_last kv laws s item items e in
      let db' = (process_one max (envs n) item db).1 in
      let (s', done, empty) =
        process_items-run_items max envs fuel (suc n) db' items (kv.rpop _ s).1 rest
          (omega arith) in
      (s', ground (arith, reply, done), empty)

  -- A batch, with fuel for one more round than there are items, comes to an end. It handles each
  -- item that was in the queue once, in the order of the queue, and leaves those to be sent again
  -- in the order in which they were.
  pub process_batch-run_items :
      (max : ℕ) (envs : ℕ → Env) (fuel : ℕ) (db : Database) (s : kv.State)
      → length (queued kv laws s) < fuel
      → (s' : kv.State) × (process_batch kv max envs fuel db s
          ≡ some ((run_items max envs 0 db (pop_order (queued kv laws s))).1, s'))
        × (pop_order (queued kv laws s')
            ≡ (run_items max envs 0 db (pop_order (queued kv laws s))).0)
  unfolding process_batch
  process_batch-run_items max envs fuel db s h =
      let items = pop_order (queued kv laws s) in
      let (s', done, empty) =
        process_items-run_items max envs fuel 0 db items s
          (sym (pop_order-pop_order (queued kv laws s)))
          (omega (arith, length-pop_order (queued kv laws s))) in
      let left = (run_items max envs 0 db items).0 in
      let again = queued-requeue kv laws left s' in
      (
        requeue kv left s',
        ground (arith, done),
        ap pop_order (again ∙ ap (λ l. l ++ pop_order left) empty) ∙ pop_order-pop_order left,
      )

  -- A reload, with fuel for one more round than there are items and a query that does not fail,
  -- makes the queue the pending rows of the database, in the order in which they are due, whatever
  -- it held before, and returns their number.
  pub reload_pending_retries_lem :
      (max : ℕ) (env : Env) (fuel : ℕ) (db : Database) (s : kv.State)
      → env.fault select_pending ≡ false
      → length (queued kv laws s) < fuel
      → (s' : kv.State) × (reload_pending_retries kv max env fuel db s
          ≡ some (reloaded (length (pending_items max db)), s'))
        × (pop_order (queued kv laws s') ≡ pending_items max db)
  unfolding reload_pending_retries
  reload_pending_retries_lem max env fuel db s f h =
      let items = pending_items max db in
      let (s', drained, empty) = drain_total kv laws fuel s h in
      let (pushed, after) = push_all_lem kv laws items s' in
      (
        (push_all kv items s').1,
        ground (arith, f, drained, pushed),
        ap pop_order (after ∙ ap (λ l. pop_order items ++ l) empty ∙ append_nil (pop_order items))
            ∙ pop_order-pop_order items,
      )
