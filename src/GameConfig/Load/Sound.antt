-- ===== src/GameConfig/Load/Sound.antt =====
-- What a configuration that is loaded promises.
use stone_server.Prelude.{
  ◌*◌, ◌≤◌, ◌<◌, ◌≡◌, ◌≢◌, refl, sym, ap, ◌∙◌, ok_eq, Option, none, some, List, [], String, Result,
  ok, err, >>=-eq-ok, Result-cases, List-cases, inl, inr, arith, All,
}
use stone_server.Tables.{Rarity}
use stone_server.Cairn.{phase_offset}
use stone_server.Gacha.Pool.{Text}
use stone_server.Vow.Rates.{VowTier}
use stone_server.Vow.Rates.Crafted.{IsTier}
use stone_server.GameConfig.{ConfigError, build_vow_tiers, validate, units}
use stone_server.GameConfig.Accepted.{cairn_of, build_vow_tiers-IsTier, validate_lem}
use stone_server.GameConfig.Tiers.{ReadsAll, IsKeyed, build_vow_tiers-ReadsAll}
use stone_server.GameConfig.Load.{
  XmlConfig, Config, ReadError, nil_pointer, deref, unless_there, missing, config_with, config_of,
  wrapped, checked, load,
}

-- What the rest of the server takes from a configuration.
pub record IsSound (c : Config) : Type 0 where
  pub some_slots : 0 < (cairn_of c.file).slot_count
  pub few_slots : (cairn_of c.file).slot_count ≤ 50
  pub some_layers : 0 < (cairn_of c.file).max_layers
  pub few_layers : (cairn_of c.file).max_layers ≤ 100
  pub some_interval : 0 < (cairn_of c.file).spawn_interval_seconds
  pub even_phases :
      phase_offset (cairn_of c.file) * (cairn_of c.file).slot_count
      ≡ (cairn_of c.file).spawn_interval_seconds * (cairn_of c.file).max_layers
  pub some_cooldown : 0 < units c.file.cooldown_seconds
  pub tiers : All (λ p. IsTier p.1) c.vow_tiers

-- The document holds the configuration.
abbrev pub Holds : XmlConfig → Config → Type 0
Holds x c =
    (x.version ≡ some c.version)
    × (x.pull_cost ≡ some c.file.pull_cost)
    × (x.cooldown_seconds ≡ some c.file.cooldown_seconds)
    × (x.slot_count ≡ some c.file.slot_count)
    × (x.max_layers ≡ some c.file.max_layers)
    × (x.spawn_interval_seconds ≡ some c.file.spawn_interval_seconds)
    × (x.required_item_count ≡ some c.file.vow_required_item_count)

-- The tiers of the configuration are those of the document, one for one and in their order, each
-- with its rarity and its four values; no rarity has two.
abbrev pub HoldsTiers : Text → XmlConfig → Config → Type 0
HoldsTiers t x c = ReadsAll t x.tiers c.vow_tiers × IsKeyed c.vow_tiers

deref-ok {ℓ} : {A : Type ℓ} (o : Option A) {a : A} → deref o ≡ ok a → o ≡ some a
deref-ok none e = absurd (cc e)
deref-ok (some a) e = cc e

config_of-Holds :
    (x : XmlConfig) (tiers : List (Rarity × VowTier)) {c : Config}
    → config_of x tiers ≡ ok c
    → Holds x c × (c.vow_tiers ≡ tiers)
unfolding config_of
config_of-Holds x tiers {c} e =
    let (version, h₁, e₁) = >>=-eq-ok (deref x.version) _ e in
    let (cost, h₂, e₂) = >>=-eq-ok (deref x.pull_cost) _ e₁ in
    let (cooldown, h₃, e₃) = >>=-eq-ok (deref x.cooldown_seconds) _ e₂ in
    let (slots, h₄, e₄) = >>=-eq-ok (deref x.slot_count) _ e₃ in
    let (layers, h₅, e₅) = >>=-eq-ok (deref x.max_layers) _ e₄ in
    let (interval, h₆, e₆) = >>=-eq-ok (deref x.spawn_interval_seconds) _ e₅ in
    let (required, h₇, e₇) = >>=-eq-ok (deref x.required_item_count) _ e₆ in
    let same = ok_eq e₇ in
    (
      (
        deref-ok x.version h₁ ∙ ap (λ r. some r.version) same,
        deref-ok x.pull_cost h₂ ∙ ap (λ r. some r.file.pull_cost) same,
        deref-ok x.cooldown_seconds h₃ ∙ ap (λ r. some r.file.cooldown_seconds) same,
        deref-ok x.slot_count h₄ ∙ ap (λ r. some r.file.slot_count) same,
        deref-ok x.max_layers h₅ ∙ ap (λ r. some r.file.max_layers) same,
        deref-ok x.spawn_interval_seconds h₆ ∙ ap (λ r. some r.file.spawn_interval_seconds) same,
        deref-ok x.required_item_count h₇ ∙ ap (λ r. some r.file.vow_required_item_count) same,
      ),
      sym (ap (λ r. r.vow_tiers) same),
    )

wrapped-ok {ℓ} : {A : Type ℓ} (r : Result ConfigError A) {a : A} → wrapped r ≡ ok a → r ≡ ok a
wrapped-ok (ok a) e = cc e
wrapped-ok (err x) e = absurd (cc e)

checked_lem :
    (t : Text) (x : XmlConfig) {c : Config}
    → checked t x ≡ ok c
    → Holds x c × HoldsTiers t x c × IsSound c
unfolding checked
checked_lem t x {c} e =
    let (tiers, built, e₁) = >>=-eq-ok (wrapped (build_vow_tiers t x.tiers)) _ e in
    let (cfg, made, e₂) = >>=-eq-ok (config_of x tiers) _ e₁ in
    let (u, valid, e₃) = >>=-eq-ok (wrapped (validate cfg.file)) _ e₂ in
    let same : c ≡ cfg = cc e₃ in
    let (holds, table) = config_of-Holds x tiers made in
    let good = build_vow_tiers-IsTier t x.tiers (wrapped-ok _ built) in
    let (a, b, d, f, g, h, k) = validate_lem cfg.file (wrapped-ok _ valid) in
    rw same (
      holds,
      rw table (build_vow_tiers-ReadsAll t x.tiers (wrapped-ok _ built)),
      record {
        some_slots = a;
        few_slots = b;
        some_layers = d;
        few_layers = f;
        some_interval = g;
        even_phases = h;
        some_cooldown = k;
        tiers = rw table good;
      },
    )

-- A configuration that is loaded is the one in the document, with every required key there and its
-- tiers one for one, each with its rarity and its values, and none of a rarity twice. It gives the
-- cairn 1 to 50 slots, 1 to 100 layers and a positive interval, a phase offset that divides the
-- time of a full slot evenly among the slots, the pulls a positive cooldown, and every tier of the
-- vows an increasing range of powers and rates that increase within 0 and 100 percent.
pub load_lem :
    (t : Text) (x : XmlConfig) {c : Config}
    → load t (ok x) ≡ ok c
    → Holds x c × HoldsTiers t x c × IsSound c
unfolding load
load_lem t x e = elim (List-cases (missing x)) [
  | inl none_missing ↦ checked_lem t x (ground (arith, e, none_missing))
  | inr (name, names, some_missing) ↦ absurd (ground (arith, e, some_missing))
]

deref-total {ℓ} :
    {A : Type ℓ} (o : Option A) (name : String) (rest : List String)
    → unless_there o name rest ≡ []
    → ((a : A) × (o ≡ some a)) × (rest ≡ [])
deref-total none name rest e = absurd (cc e)
deref-total (some a) name rest e = ((a, refl), e)

config_of_total :
    (x : XmlConfig) (tiers : List (Rarity × VowTier))
    → missing x ≡ []
    → (c : Config) × (config_of x tiers ≡ ok c)
unfolding missing config_of
config_of_total x tiers e =
    let ((a, h₁), e₁) = deref-total x.version _ _ e in
    let ((b, h₂), e₂) = deref-total x.pull_cost _ _ e₁ in
    let ((d, h₃), e₃) = deref-total x.cooldown_seconds _ _ e₂ in
    let ((f, h₄), e₄) = deref-total x.slot_count _ _ e₃ in
    let ((g, h₅), e₅) = deref-total x.max_layers _ _ e₄ in
    let ((h, h₆), e₆) = deref-total x.spawn_interval_seconds _ _ e₅ in
    let ((k, h₇), e₇) = deref-total x.required_item_count _ _ e₆ in
    (config_with a b d f g h k tiers, ground (arith, h₁, h₂, h₃, h₄, h₅, h₆, h₇))

-- Whatever the document lacks, the loader reads through no nil pointer.
pub load-nil_pointer :
    (t : Text) (parsed : Result ReadError XmlConfig) → load t parsed ≢ err nil_pointer
unfolding load checked
load-nil_pointer t (err x) e = absurd (cc e)
load-nil_pointer t (ok x) e = elim (List-cases (missing x)) [
  | inr (name, names, q) ↦ absurd (ground (arith, e, q))
  | inl q ↦ elim (Result-cases (build_vow_tiers t x.tiers)) [
    | inr (y, b) ↦ absurd (ground (arith, e, q, b))
    | inl (tiers, b) ↦
        let (c, h) = config_of_total x tiers q in
        elim (Result-cases (validate c.file)) [
          | inr (y, v) ↦ absurd (ground (arith, e, q, b, h, v))
          | inl (u, v) ↦ absurd (ground (arith, e, q, b, h, v))
        ]
  ]
]
