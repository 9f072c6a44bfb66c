-- ===== src/Server/Boot.antt =====
-- cmd/server/main.go: what `main` reads and refuses before it serves. `read_csv` and `read_xml` are
-- the files, as the CSV reader and the XML parser return them.
use stone_server.Prelude.{
  ℕ, ℤ, ◌+◌, ◌≡◌, ◌<◌, refl, sym, ap, ◌∙◌, Bool, false, not, Option, none, some, List, String,
  str_eq, ltb, ◌==◌, Result, ok, err, ◌>>=◌, ◌>>◌, refuse_if, >>=-eq-ok, ok_eq, arith, All,
}
use stone_server.Kv.{KvStore}
use stone_server.Gacha.Pool.{Text, LoadError, LoadStats, SkinPool, Read, parse_skin_pool}
use stone_server.Gacha.Pool.Sound.{IsBalanced}
use stone_server.Gacha.Pool.Draw.{IsDrawable, parse_skin_pool-IsDrawable}
use stone_server.EnvConfig
use stone_server.EnvConfig.{load_config, read_config}
use stone_server.Vow.Rates.Crafted.{IsTier}
use stone_server.GameConfig.{Float, units}
use stone_server.GameConfig.Accepted.{cairn_of}
use stone_server.GameConfig.Load
use stone_server.GameConfig.Load.{XmlConfig, ReadError, load}
use stone_server.GameConfig.Load.Sound.{load_lem, IsSound}
use stone_server.Server.{World, Reach}
use stone_server.Routes.{Settings, Outside}
use stone_server.Server.Sound.{WellFormed}
use stone_server.Server.Goods.{Accounted, Reach-Accounted}

-- Where `main` gives up.
pub data BootError : Type 0 where
  configuration : EnvConfig.ConfigError → BootError
  skin_pool : LoadError → BootError
  skipped_rows : BootError
  game_config : Load.LoadError → BootError

pub record Files : Type 0 where
  pub getenv : String → String
  pub read_csv : String → Option (List String) × List Read
  pub read_xml : String → Result ReadError XmlConfig

abbrev pub skipped : LoadStats → ℕ
skipped s = s.skipped_bad_rarity + s.skipped_bad_part + s.skipped_malformed

-- gameconfig.ExpectedVersion
abbrev pub expected_version : ℤ
expected_version = ℤ.pos 1

abbrev pub is_version : ℤ → ℤ → Bool
is_version (ℤ.pos a) (ℤ.pos b) = a == b
is_version (ℤ.negsuc a) (ℤ.negsuc b) = a == b
is_version a b = false

abbrev pub whole_units : Float → ℕ
whole_units (Float.finite n) = units n
whole_units f = 0

-- The arguments of the handlers; `one` is the number of units of a point.
unfoldable pub settings_of : ℕ → EnvConfig.Config → SkinPool → Load.Config → Settings
settings_of one env pool game =
    let development = str_eq env.app_env "development" in
    record {
      development = development;
      one = one;
      cairn = cairn_of game.file;
      gacha = record {
        pull_cost = whole_units game.file.pull_cost;
        cooldown = units game.file.cooldown_seconds;
      };
      vow = record {
        required_item_count = units game.file.vow_required_item_count;
        tiers = game.vow_tiers;
        allow_debug = development;
      };
      pool = pool;
    }

abbrev pub fatal {ℓ} : {E : Type 0} {A : Type ℓ} → (E → BootError) → Result E A → Result BootError A
fatal f (ok a) = ok a
fatal f (err e) = err (f e)

-- The settings, and whether the version of the game configuration is warned of.
unfoldable pub boot : ℕ → (String → Option ℤ) → Text → Files → Result BootError (Settings × Bool)
unfolding load_config parse_skin_pool load settings_of
boot one atoi text files = do
  env ← fatal configuration (load_config atoi files.getenv)
  let csv = files.read_csv env.skins_csv_path
  pool ← fatal skin_pool (parse_skin_pool text csv.0 csv.1)
  refuse_if (ltb 0 (skipped pool.stats)) skipped_rows
  game ← fatal game_config (load text (files.read_xml env.game_config_xml_path))
  ok (settings_of one env pool game, not (is_version game.version expected_version))

-- What the handlers can rely on.
pub record Ready (s : Settings) : Type 0 where
  pub drawable : IsDrawable s.pool
  pub whole_pool : s.pool.stats.loaded ≡ s.pool.stats.total
  pub some_slots : 0 < s.cairn.slot_count
  pub some_layers : 0 < s.cairn.max_layers
  pub some_interval : 0 < s.cairn.spawn_interval_seconds
  pub some_cooldown : 0 < s.gacha.cooldown
  pub tiers : All (λ p. IsTier p.1) s.vow.tiers
  pub debug : s.vow.allow_debug ≡ s.development

fatal-ok {ℓ} :
    {E : Type 0} {A : Type ℓ} (f : E → BootError) (r : Result E A) {a : A}
    → fatal f r ≡ ok a
    → r ≡ ok a
fatal-ok f (ok a) e = cc e
fatal-ok f (err x) e = absurd (cc e)

pool-IsDrawable :
    (text : Text) (header : Option (List String)) (reads : List Read) {pool : SkinPool}
    → parse_skin_pool text header reads ≡ ok pool
    → IsDrawable pool × IsBalanced pool.stats
unfolding parse_skin_pool
pool-IsDrawable text none reads e = absurd (cc e)
pool-IsDrawable text (some header) reads e =
    let (drawable, balanced, _) = parse_skin_pool-IsDrawable text header reads e in
    (drawable, balanced)

none_skipped :
    (s : LoadStats) {u : Unit {0}}
    → refuse_if (ltb 0 (skipped s)) skipped_rows ≡ ok u
    → skipped s ≡ 0
none_skipped s e = ground (arith, e)

load-XmlConfig :
    (text : Text) (parsed : Result ReadError XmlConfig) {c : Load.Config}
    → load text parsed ≡ ok c
    → IsSound c
unfolding load
load-XmlConfig text (err x) e = absurd (cc e)
load-XmlConfig text (ok x) e = (load_lem text x e).2

settings_of-Ready :
    (one : ℕ) (env : EnvConfig.Config) (pool : SkinPool) (game : Load.Config)
    → IsDrawable pool
    → pool.stats.loaded ≡ pool.stats.total
    → IsSound game
    → Ready (settings_of one env pool game)
unfolding settings_of
settings_of-Ready one env pool game drawable whole sound = record {
  drawable = drawable;
  whole_pool = whole;
  some_slots = sound.some_slots;
  some_layers = sound.some_layers;
  some_interval = sound.some_interval;
  some_cooldown = sound.some_cooldown;
  tiers = sound.tiers;
  debug = refl;
}

load_config-env :
    (atoi : String → Option ℤ) (getenv : String → String) {c : EnvConfig.Config}
    → load_config atoi getenv ≡ ok c
    → c.app_env ≡ getenv "APP_ENV"
unfolding load_config read_config
load_config-env atoi getenv e = ground (arith, e)

-- A server that starts has a pool that can be drawn from, of which no row was skipped; a cairn with
-- slots, layers and an interval, and pulls with a cooldown; tiers with increasing powers and rates;
-- and debug options and development routes just when the environment says "development".
pub boot-Ready :
    (one : ℕ) (atoi : String → Option ℤ) (text : Text) (files : Files) {s : Settings}
    {warned : Bool}
    → boot one atoi text files ≡ ok (s, warned)
    → Ready s × (s.development ≡ str_eq (files.getenv "APP_ENV") "development")
unfolding boot
boot-Ready one atoi text files {s} e =
    let (env, read, e₁) = >>=-eq-ok (fatal configuration (load_config atoi files.getenv)) _ e in
    let csv = files.read_csv env.skins_csv_path in
    let (pool, parsed, e₂) = >>=-eq-ok (fatal skin_pool (parse_skin_pool text csv.0 csv.1)) _ e₁ in
    let (u, clean, e₃) = >>=-eq-ok (refuse_if (ltb 0 (skipped pool.stats)) skipped_rows) _ e₂ in
    let (game, loaded, e₄) =
      >>=-eq-ok (fatal game_config (load text (files.read_xml env.game_config_xml_path))) _ e₃ in
    let same : s ≡ settings_of one env pool game = sym (ap (λ p. p.0) (ok_eq e₄)) in
    let (drawable, balanced) = pool-IsDrawable text csv.0 csv.1 (fatal-ok skin_pool _ parsed) in
    let nothing = none_skipped pool.stats clean in
    let sound = load-XmlConfig text _ (fatal-ok game_config _ loaded) in
    let app_env = load_config-env atoi files.getenv (fatal-ok configuration _ read) in
    rw same (
      settings_of-Ready one env pool game drawable (omega (arith, balanced, nothing)) sound,
      unfold settings_of in ap (λ a. str_eq a "development") app_env,
    )

-- A server that starts in production keeps the items of the players in step with the logs, from
-- rows that are well-formed and in step, whatever requests, ticks and restarts
-- follow.
pub boot-Accounted :
    (one : ℕ) (atoi : String → Option ℤ) (text : Text) (files : Files) {s : Settings}
    {warned : Bool} (kv : KvStore) (out : Outside) {w v : World kv}
    → boot one atoi text files ≡ ok (s, warned)
    → files.getenv "APP_ENV" ≡ "production"
    → ((q : String) → WellFormed s.cairn (w.0.rows q))
    → ((q id : String) → Accounted id (w.0.rows q))
    → Reach kv s out w v
    → (q id : String) → Accounted id (v.0.rows q)
boot-Accounted one atoi text files kv out e production w h r =
    let (ready, development) = boot-Ready one atoi text files e in
    let plain = ready.debug ∙ development ∙ rw production refl in
    Reach-Accounted kv _ out plain w h r
