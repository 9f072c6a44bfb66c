-- ===== src/Examples/BootRuns.antt =====
-- The start of a server, the opening of an old file, and a request that panics.
use stone_server.Gacha.Pool.{check_rarities, load_rows}
use stone_server.Prelude.{
  pos, ◌≡◌, refl, false, none, some, List, [], ◌∷◌, str_eq, if◌then◌else◌, ok,
}
use stone_server.Tables.{rare}
use stone_server.Gacha.Rng.{gacha_rarity}
use stone_server.Gacha.Pool.{Read, row, known_part_type, parts_by_rarity}
use stone_server.GameConfig.{Float, RawTier}
use stone_server.GameConfig.Load.{XmlConfig, Config, load}
use stone_server.GameConfig.Load.Sound.{Holds, HoldsTiers, IsSound, load_lem}
use stone_server.Routes.{Settings}
use stone_server.Server.Boot.{Files, Ready, boot, boot-Ready}
use stone_server.Examples.Sample.{text, header}

abbrev raw_tier : RawTier
raw_tier = record {
  target_rarity = "rare";
  min_n_power = some (Float.finite (pos 10));
  max_n_power = some (Float.finite (pos 20));
  min_success_rate = some (Float.finite (pos 20000000));
  max_success_rate = some (Float.finite (pos 60000000));
}

abbrev document : XmlConfig
document = record {
  version = some (pos 1);
  pull_cost = some (Float.finite (pos 100));
  cooldown_seconds = some (pos 1800);
  slot_count = some (pos 5);
  max_layers = some (pos 5);
  spawn_interval_seconds = some (pos 30);
  required_item_count = some (pos 4);
  tiers = raw_tier ∷ [];
}

abbrev config : Config
config = record {
  version = pos 1;
  file = record {
    pull_cost = Float.finite (pos 100);
    cooldown_seconds = pos 1800;
    slot_count = pos 5;
    max_layers = pos 5;
    spawn_interval_seconds = pos 30;
    vow_required_item_count = pos 4;
  };
  vow_tiers =
      (
        rare,
        record {
          min_n_power = 10;
          max_n_power = 20;
          min_success_rate = 20000000;
          max_success_rate = 60000000;
        },
      )
      ∷ [];
}

loaded : load text (ok document) ≡ ok config
unfolding load gacha_rarity
loaded = refl

load_lem_example : Holds document config × HoldsTiers text document config × IsSound config
load_lem_example = load_lem text document loaded

abbrev skins : List Read
skins =
    row ("plain" ∷ "top" ∷ "common" ∷ [])
    ∷ row ("mossy" ∷ "top" ∷ "uncommon" ∷ [])
    ∷ row ("amber" ∷ "face" ∷ "rare" ∷ [])
    ∷ row ("jade" ∷ "face" ∷ "unique" ∷ [])
    ∷ row ("star" ∷ "effect" ∷ "legendary" ∷ [])
    ∷ []

-- Production, on a SQLite file.
abbrev files : Files
files = record {
  getenv = λ key.
      if str_eq key "APP_ENV"
      then "production"
      else if str_eq key "SQLITE_PATH"
      then "stone.db"
      else if str_eq key "LOG_LEVEL"
      then ""
      else "x";
  read_csv = λ path. (some header, skins);
  read_xml = λ path. ok document;
}

booted : (s : Settings) × (boot 1 (λ _. none) text files ≡ ok (s, false))
unfolding boot gacha_rarity load_rows known_part_type check_rarities parts_by_rarity
booted = (_, refl)

boot-Ready_example : Ready booted.0 × (booted.0.development ≡ str_eq "production" "development")
boot-Ready_example = boot-Ready 1 (λ _. none) text files booted.1
