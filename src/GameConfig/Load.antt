-- ===== src/GameConfig/Load.antt =====
-- pkg/gameconfig/gameconfig.go: `Load`, from the document that the XML parser returns. A key of the
-- document that is missing is `none`.
pub mod Sound
use stone_server.Prelude.{
  ℤ, ◌*◌, ◌≤◌, ◌<◌, ◌≡◌, ◌≢◌, refl, sym, ap, ◌∙◌, ok_eq, Option, none, some, List, [], ◌∷◌, String,
  Result, ok, err, ◌>>=◌, ◌>>◌, >>=-eq-ok, Result-cases, List-cases, inl, inr, arith, All,
}
use stone_server.Tables.{Rarity}
use stone_server.Cairn.{phase_offset}
use stone_server.Gacha.Pool.{Text}
use stone_server.Vow.Rates.{VowTier}
use stone_server.Vow.Rates.Crafted.{IsTier}
use stone_server.GameConfig.{
  Float, ConfigError, RawTier, ConfigFile, build_vow_tiers, validate, units,
}
use stone_server.GameConfig.Accepted.{cairn_of, build_vow_tiers-IsTier, validate_lem}
use stone_server.GameConfig.Tiers.{ReadsAll, IsKeyed, build_vow_tiers-ReadsAll}

pub record XmlConfig : Type 0 where
  pub version : Option ℤ
  pub pull_cost : Option Float
  pub cooldown_seconds : Option ℤ
  pub slot_count : Option ℤ
  pub max_layers : Option ℤ
  pub spawn_interval_seconds : Option ℤ
  pub required_item_count : Option ℤ
  pub tiers : List RawTier

pub record Config : Type 0 where
  pub version : ℤ
  pub file : ConfigFile
  pub vow_tiers : List (Rarity × VowTier)

-- `nil_pointer` stands for the panic of a read through a nil pointer.
pub data ReadError : Type 0 where
  unreadable malformed : ReadError

pub data LoadError : Type 0 where
  nil_pointer : LoadError
  not_read : ReadError → LoadError
  missing_required_keys : List String → LoadError
  invalid : ConfigError → LoadError

-- if key == nil { missing = append(missing, name) }
abbrev pub unless_there {ℓ} : {A : Type ℓ} → Option A → String → List String → List String
unless_there none name rest = name ∷ rest
unless_there (some a) name rest = rest

unfoldable pub missing : XmlConfig → List String
missing x = unless_there x.version "version" (
    unless_there x.pull_cost "gacha.pullCost" (
      unless_there x.cooldown_seconds "gacha.cooldownSeconds" (
        unless_there x.slot_count "cairn.slotCount" (
          unless_there x.max_layers "cairn.maxLayers" (
            unless_there x.spawn_interval_seconds "cairn.spawnIntervalSeconds"
              (unless_there x.required_item_count "vow.requiredItemCount" []))))))

-- *p
abbrev pub deref {ℓ} : {A : Type ℓ} → Option A → Result LoadError A
deref none = err nil_pointer
deref (some a) = ok a

abbrev pub config_with : ℤ → Float → ℤ → ℤ → ℤ → ℤ → ℤ → List (Rarity × VowTier) → Config
config_with version cost cooldown slots layers interval required tiers = record {
  version = version;
  file = record {
    pull_cost = cost;
    cooldown_seconds = cooldown;
    slot_count = slots;
    max_layers = layers;
    spawn_interval_seconds = interval;
    vow_required_item_count = required;
  };
  vow_tiers = tiers;
}

-- The values of the document, once no key is missing.
unfoldable pub config_of : XmlConfig → List (Rarity × VowTier) → Result LoadError Config
config_of x tiers = do
  version ← deref x.version
  cost ← deref x.pull_cost
  cooldown ← deref x.cooldown_seconds
  slots ← deref x.slot_count
  layers ← deref x.max_layers
  interval ← deref x.spawn_interval_seconds
  required ← deref x.required_item_count
  ok (config_with version cost cooldown slots layers interval required tiers)

-- fmt.Errorf("gameconfig: ...: %w", err)
abbrev pub wrapped {ℓ} : {A : Type ℓ} → Result ConfigError A → Result LoadError A
wrapped (ok a) = ok a
wrapped (err e) = err (invalid e)

-- The tiers and the values of a document in which no key is missing.
unfoldable pub checked : Text → XmlConfig → Result LoadError Config
unfolding config_of build_vow_tiers validate
checked t x = do
  tiers ← wrapped (build_vow_tiers t x.tiers)
  cfg ← config_of x tiers
  wrapped (validate cfg.file)
  ok cfg

-- The parser's document, or the error of the file or of the parser.
unfoldable pub load : Text → Result ReadError XmlConfig → Result LoadError Config
unfolding missing checked
load t (err e) = err (not_read e)
load t (ok x) = elim (missing x) [
  | name ∷ names ↦ err (missing_required_keys (name ∷ names))
  | [] ↦ checked t x
]
