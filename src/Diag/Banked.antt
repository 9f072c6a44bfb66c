-- ===== src/Diag/Banked.antt =====
-- What can have accrued since an event: the balance after any syncs, and at the next charge.
use stone_server.Prelude.{
  ℕ, ◌+◌, ◌-◌, ◌*◌, ◌≤◌, ◌≡◌, refl, ap, ◌∙◌, true, some, ok, arith, Option-cases, Bool-cases, inl,
  inr,
}
use stone_server.Tables.{
  PlayerState, PlayerRows, Env, Charge, charge_points, charged_state, accrued, sync_state,
}
use stone_server.Cairn
use stone_server.Player.{synced_state, sync}
use stone_server.Player.Laws.{sync-purse, purse-state}

-- The balance is that of `base` at time e with what can have accrued since; it was banked by t.
pub record Banked (rate e base t : ℕ) (db : PlayerRows) : Type 0 where
  pub st : PlayerState
  pub last : ℕ
  pub has_state : db.state ≡ some st
  pub has_rate : st.enlightenment_rate ≡ rate
  pub has_last : st.last_sync_at ≡ some last
  pub since : e ≤ last
  pub until : last ≤ t
  pub least : base ≤ st.enlightenment_pts
  pub most : st.enlightenment_pts ≤ base + (last - e) * rate

pub mul_mono : (a b c : ℕ) → a ≤ b → a * c ≤ b * c
mul_mono a b c h =
    let whole : a + (b - a) ≡ b = omega arith in
    let cut : (a + (b - a)) * c ≡ a * c + (b - a) * c = grind arith in
    let split = ap (λ d. d * c) whole in omega (arith, cut, split)

-- The balance after a time in which points accrue.
accrue_mono :
    (base pts e last now rate : ℕ)
    → e ≤ last
    → last ≤ now
    → pts ≤ base + (last - e) * rate
    → pts + (now - last) * rate ≤ base + (now - e) * rate
accrue_mono base pts e last now rate h k le =
    let whole : (last - e) + (now - last) ≡ now - e = omega arith in
    let cut : ((last - e) + (now - last)) * rate ≡ (last - e) * rate + (now - last) * rate =
      grind arith in
    let split = ap (λ d. d * rate) whole in omega (arith, cut, split, le)

pub charge_points-identity :
    (env : Env) (cost : ℕ) (db : PlayerRows) {ch : Charge} {db' : PlayerRows}
    → charge_points env cost db ≡ ok (ch, db')
    → ch.balance_after + cost ≡ ch.balance_before + ch.accrued_pts
unfolding charge_points accrued
charge_points-identity env cost db e = elim (Option-cases db.state) [
  | inl q ↦ absurd (ground (arith, e, q))
  | inr (st, q) ↦ ground (arith, e, q)
]

pub charge_points-Banked :
    (rate e base t : ℕ) (env : Env) (cost : ℕ) (db : PlayerRows) {ch : Charge} {db' : PlayerRows}
    → Banked rate e base t db
    → charge_points env cost db ≡ ok (ch, db')
    → (base ≤ ch.balance_before)
      × (ch.balance_before ≤ base + (t - e) * rate)
      × Banked rate env.now ch.balance_after env.now db'
unfolding charge_points
charge_points-Banked rate e base t env cost db {ch} {db'} b q =
    let wide = mul_mono (b.last - e) (t - e) rate (omega (arith, b.until)) in
    (
      ground (arith, b.has_state, q, b.least),
      (let same : ch.balance_before ≡ b.st.enlightenment_pts = ground (arith, b.has_state, q) in
          omega (arith, same, b.most, wide)),
      record {
        st = charged_state env.now cost b.st;
        last = env.now;
        has_state = ground (arith, b.has_state, q);
        has_rate = b.has_rate;
        has_last = refl;
        since = omega arith;
        until = omega arith;
        least = ground (arith, b.has_state, q);
        most = ground (arith, b.has_state, q);
      },
    )

pub Banked-later :
    (rate e base t t' : ℕ) (db : PlayerRows)
    → Banked rate e base t db
    → t ≤ t'
    → Banked rate e base t' db
Banked-later rate e base t t' db b h = record {
  st = b.st;
  last = b.last;
  has_state = b.has_state;
  has_rate = b.has_rate;
  has_last = b.has_last;
  since = b.since;
  until = omega (arith, b.until, h);
  least = b.least;
  most = b.most;
}

Banked-same :
    (rate e base t : ℕ) (db db' : PlayerRows)
    → Banked rate e base t db
    → db'.state ≡ db.state
    → Banked rate e base t db'
Banked-same rate e base t db db' b h = record {
  st = b.st;
  last = b.last;
  has_state = h ∙ b.has_state;
  has_rate = b.has_rate;
  has_last = b.has_last;
  since = b.since;
  until = b.until;
  least = b.least;
  most = b.most;
}

sync-failed :
    (c : Cairn.Config) (seed : ℕ → ℕ) (env : Env) (db : PlayerRows)
    → env.fault sync_state ≡ true
    → (sync c seed env db).0 ≡ db
unfolding sync
sync-failed c seed env db f = ground (arith, f)

synced_pts :
    (now last : ℕ) (st : PlayerState)
    → st.last_sync_at ≡ some last
    → (synced_state now st).enlightenment_pts
      ≡ st.enlightenment_pts + (now - last) * st.enlightenment_rate
unfolding accrued
synced_pts now last st h = ground (arith, h)

-- A sync, whether its statement fails or not.
pub sync-Banked :
    (c : Cairn.Config) (seed : ℕ → ℕ) (rate e base t : ℕ) (env : Env) (db : PlayerRows)
    → Banked rate e base t db
    → t ≤ env.now
    → Banked rate e base env.now (sync c seed env db).0
sync-Banked c seed rate e base t env db b h = elim (Bool-cases (env.fault sync_state)) [
  | inl f ↦
      Banked-same rate e base env.now db (sync c seed env db).0
        (Banked-later rate e base t env.now db b h)
        (ap (λ d. d.state) (sync-failed c seed env db f))
  | inr f ↦
      let (st', q, p) =
        purse-state c seed (sync c seed env db).0 _ (sync-purse c seed env b.st db f b.has_state) in
      let points : st'.enlightenment_pts ≡ (synced_state env.now b.st).enlightenment_pts =
        ap (λ x. x.points) p in
      let gained = synced_pts env.now b.last b.st b.has_last in
      let same_rate = ap (λ r. (env.now - b.last) * r) b.has_rate in
      let most =
        accrue_mono base b.st.enlightenment_pts e b.last env.now rate b.since
          (omega (arith, b.until, h)) b.most in
      record {
        st = st';
        last = env.now;
        has_state = q;
        has_rate = ap (λ x. x.rate) p ∙ b.has_rate;
        has_last = ap (λ x. x.synced) p;
        since = omega (arith, b.since, b.until, h);
        until = omega arith;
        least = omega (arith, points, gained, b.least);
        most = omega (arith, points, gained, same_rate, most);
      }
]
