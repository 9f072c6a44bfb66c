-- ===== src/Gacha/Pull/Succeeds.antt =====
-- When a pull succeeds: nothing but its conditions stands in its way.
use stone_server.Prelude.{
  ℕ, ◌+◌, ◌-◌, ◌≤◌, ◌≡◌, refl, true, some, List, [], ◌∷◌, ◌++◌, ok, String, str_eq, eq_iff, arith,
  Bool-cases, inl, inr,
}
use stone_server.Tables.{
  PlayerState, PlayerRows, Item, Env, NoFaults, begin, commit, gate, claim_slot, read_balance,
  charge, grant, append_log, Slot, Charge, charge_points, charged_state, with_state, accrued,
  Rarity,
}
use stone_server.Cairn
use stone_server.Cairn.{apply_growth, find_layer, move_anchor}
use stone_server.Cairn.Laws.{IsGrowing, grown, moved_to}
use stone_server.Cairn.Windows.{apply_growth_total}
use stone_server.Gacha.Pool.{SkinPool, Seed}
use stone_server.Gacha.Pool.Draw.{IsDrawable, roll-drawn}
use stone_server.Gacha.Grant.{
  RewardGrant, grant_item, upsert, find_item, new_item, reward_grant, item_type_stone_skin,
  source_wish_cairn,
}
use stone_server.Gacha.Pull.{
  GameConfig, PullResponse, cooled_down, claimed_cooldown, claim_cooldown, claim_rows,
  claim_complete_slot, drawn_result, gacha_log, pull_response, finish_pull, exec_pull,
}
use stone_server.Gacha.Pull.Laws.{accrued_cong}

find_item-upsert :
    (new : Item) (rows : List Item)
    → (it : Item) × (find_item new.item_id (upsert new rows) ≡ some it)
unfolding find_item upsert
find_item-upsert new [] = (new, ground (arith, eq_iff new.item_id new.item_id))
find_item-upsert new (it ∷ rows) = elim (Bool-cases (str_eq it.item_id new.item_id)) [
  | inl e ↦ (record it { count = it.count + 1 }, ground (arith, e))
  | inr e ↦ let (found, q) = find_item-upsert new rows in (found, ground (arith, e, q))
]

claim_rows-hit :
    (now i max layers : ℕ) (rows : List Slot)
    → find_layer i rows ≡ some layers
    → max ≤ layers
    → (claim_rows now i max rows).1 ≡ true
unfolding claim_rows find_layer
claim_rows-hit now i max layers [] e h = absurd (ground (arith, e))
claim_rows-hit now i max layers (s ∷ rows) e h =
    ground (arith, e, h, claim_rows-hit now i max layers rows)

claim_slot_succeeds :
    (cairn : Cairn.Config) (env : Env) (i layers : ℕ) (db : PlayerRows)
    → NoFaults env
    → find_layer i db.slots ≡ some layers
    → cairn.max_layers ≤ layers
    → claim_complete_slot cairn env i db
      ≡ ok (record db { slots = (claim_rows env.now i cairn.max_layers db.slots).0 })
unfolding claim_complete_slot
claim_slot_succeeds cairn env i layers db f e h =
    ground (
      arith,
      f.none_fails claim_slot,
      claim_rows-hit env.now i cairn.max_layers layers db.slots e h,
    )

charge_succeeds :
    (env : Env) (cost : ℕ) (st : PlayerState) (db : PlayerRows)
    → NoFaults env
    → db.state ≡ some st
    → cost ≤ st.enlightenment_pts + accrued env.now st
    → (ch : Charge) × (charge_points env cost db
        ≡ ok (ch, with_state (charged_state env.now cost st) db))
unfolding charge_points
charge_succeeds env cost st db f e h = (
  record {
    balance_before = st.enlightenment_pts;
    balance_after = st.enlightenment_pts + accrued env.now st - cost;
    accrued_pts = st.enlightenment_pts + accrued env.now st - cost + cost - st.enlightenment_pts;
    last_sync_at = env.now;
  },
  ground (arith, e, h, f.none_fails read_balance, f.none_fails charge),
)

grant_succeeds :
    (env : Env) (id : String) (rarity : Rarity) (item_type source : String) (db : PlayerRows)
    → NoFaults env
    → (g : RewardGrant) × (db' : PlayerRows) × (grant_item env id rarity item_type source db
        ≡ ok (g, db'))
unfolding grant_item
grant_succeeds env id rarity item_type source db f =
    let (it, e) = find_item-upsert (new_item env.now id rarity item_type source) db.inventories in
    (
      reward_grant id rarity item_type source it.count it.acquired_at,
      record db {
        inventories = upsert (new_item env.now id rarity item_type source) db.inventories;
      },
      ground (arith, e, f.none_fails grant),
    )

finish_succeeds :
    (cfg : GameConfig) (pool : SkinPool) (random : Seed) (env : Env) (ch : Charge) (db : PlayerRows)
    → NoFaults env
    → IsDrawable pool
    → (r : PullResponse) × (after : PlayerRows) × (finish_pull cfg pool (some random) env ch db
        ≡ ok (r, after))
unfolding finish_pull drawn_result
finish_succeeds cfg pool random env ch db f v =
    let (res, rolled, _, _) = roll-drawn pool random v in
    let (g, db', granted) =
      grant_succeeds env res.item_id res.rarity item_type_stone_skin source_wish_cairn db f in
    (
      pull_response env cfg res g ch,
      record db' { gacha_logs = db'.gacha_logs ++ gacha_log env cfg res g.is_duplicate ch ∷ [] },
      rw (finish_pull, rolled, drawn_result, granted, f.none_fails append_log, f.none_fails commit)
          refl,
    )

gate_succeeds :
    (cfg : GameConfig) (env : Env) (st : PlayerState) (db : PlayerRows)
    → NoFaults env
    → db.state ≡ some st
    → cooled_down env.now st ≡ true
    → claim_cooldown cfg env db ≡ ok (with_state (claimed_cooldown env.now cfg.cooldown st) db)
unfolding claim_cooldown
gate_succeeds cfg env st db f e h = ground (arith, e, h, f.none_fails gate)

gated-IsGrowing :
    (cfg : GameConfig) (cairn : Cairn.Config) (env : Env) (st : PlayerState) (anchor : ℕ)
    (db : PlayerRows)
    → IsGrowing cairn st anchor db
    → IsGrowing cairn
        (claimed_cooldown env.now cfg.cooldown st)
        anchor
        (with_state (claimed_cooldown env.now cfg.cooldown st) db)
gated-IsGrowing cfg cairn env st anchor db v = record {
  has_state = refl;
  has_anchor = v.has_anchor;
  has_slots = v.has_slots;
  ordered = v.ordered;
  interval_pos = v.interval_pos;
}

-- A pull succeeds, if no statement fails, the player has an anchor and all slots, the cooldown has ended, the slot is complete once the
-- growth that is due is given, the balance with its accrual covers the cost, and the pool was
-- accepted by the loader.
pub exec_pull_total :
    (cfg : GameConfig) (cairn : Cairn.Config) (pool : SkinPool) (seed : ℕ → ℕ) (random : Seed)
    (env : Env) (i layers : ℕ) (st : PlayerState) (anchor : ℕ) (db : PlayerRows)
    → NoFaults env
    → IsGrowing cairn st anchor db
    → IsDrawable pool
    → cooled_down env.now st ≡ true
    → find_layer i (grown cairn seed env.now anchor st db).slots ≡ some layers
    → cairn.max_layers ≤ layers
    → cfg.pull_cost ≤ st.enlightenment_pts + accrued env.now st
    → (r : PullResponse) × (after : PlayerRows) × (exec_pull cfg cairn pool seed
          (some random)
          env
          i
          db
        ≡ ok (r, after))
unfolding exec_pull
exec_pull_total cfg cairn pool seed random env i layers st anchor db f v drawable cooled slot
      complete enough =
    let st₁ = claimed_cooldown env.now cfg.cooldown st in
    let db₁ = with_state st₁ db in
    let db₂ = grown cairn seed env.now anchor st₁ db₁ in
    let st₂ = move_anchor (moved_to cairn env.now anchor) st₁ in
    let db₃ : PlayerRows = record db₂ {
      slots = (claim_rows env.now i cairn.max_layers db₂.slots).0;
    } in
    let gated = gate_succeeds cfg env st db f v.has_state cooled in
    let grew =
      apply_growth_total cairn seed env st₁ anchor db₁ f
        (gated-IsGrowing cfg cairn env st anchor db v) in
    let claimed = claim_slot_succeeds cairn env i layers db₂ f slot complete in
    let same = accrued_cong env.now st₂ st refl refl in
    let (ch, charged) =
      charge_succeeds env cfg.pull_cost st₂ db₃ f refl (omega (arith, enough, same)) in
    let (r, after, finished) =
      finish_succeeds cfg pool random env ch
        (with_state (charged_state env.now cfg.pull_cost st₂) db₃) f drawable in
    (r, after, rw (exec_pull, f.none_fails begin, gated, grew, claimed, charged) finished)
