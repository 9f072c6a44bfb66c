-- ===== src/EnvConfig.antt =====
-- pkg/config/config.go: the configuration from the environment, with its defaults and checks.
-- `getenv` is os.Getenv after the .env file has been read: an unset variable is the empty text.
-- `atoi` is strconv.Atoi.
use stone_server.Prelude.{
  ℤ, pos, ◌≡◌, ◌≢◌, ◌⊎◌, inl, inr, false, not, ◌&&◌, ◌||◌, Option, none, some, List, [], ◌∷◌,
  String, str_eq, eq_iff, if◌then◌else◌, Result, ok, err, ◌>>=◌, arith, Bool-cases,
}

pub record Config : Type 0 where
  pub db_url : String
  pub redis_url : String
  pub sqlite_path : String
  pub steam_api_key : String
  pub steam_app_id : String
  pub jwt_priv_key : String
  pub server_port : String
  pub app_env : String
  pub log_level : String
  pub trusted_proxies : String
  pub diag_interval_secs : ℤ
  pub skins_csv_path : String
  pub game_config_xml_path : String

pub data ConfigError : Type 0 where
  bad_app_env : ConfigError
  not_set not_set_in_production : String → ConfigError

-- The first of these variables that is empty.
unfoldable pub require_all : List (String × String) → Result ConfigError (Unit {0})
require_all [] = ok tt
require_all ((name, value) ∷ vars) =
    let rest = require_all vars in if str_eq value "" then err (not_set name) else rest

abbrev pub required : Config → List (String × String)
required c =
    ("JWT_PRIVATE_KEY", c.jwt_priv_key)
    ∷ (if str_eq c.sqlite_path ""
        then ("DB_URL", c.db_url) ∷ ("REDIS_URL", c.redis_url) ∷ []
        else [])

unfoldable pub validate_config : Config → Result ConfigError (Unit {0})
unfolding require_all
validate_config c =
    let production = str_eq c.app_env "production" in
    if not (str_eq c.app_env "development" || production)
    then err bad_app_env
    else require_all (required c) >>= λ done.
        if production && str_eq c.steam_api_key ""
        then err (not_set_in_production "STEAM_API_KEY")
        else if production && str_eq c.steam_app_id ""
        then err (not_set_in_production "STEAM_APP_ID")
        else ok tt

module _ (atoi : String → Option ℤ) (getenv : String → String) where
  unfoldable pub get_env_or_default : String → String → String
  get_env_or_default key default = let v = getenv key in if str_eq v "" then default else v

  unfoldable pub get_env_int : String → ℤ → ℤ
  get_env_int key default =
      let v = getenv key in
      if str_eq v "" then default else elim (atoi v) [ none ↦ default | some n ↦ n ]

  unfoldable pub read_config : Config
  unfolding get_env_or_default get_env_int
  read_config = record {
    db_url = getenv "DB_URL";
    redis_url = getenv "REDIS_URL";
    sqlite_path = getenv "SQLITE_PATH";
    steam_api_key = getenv "STEAM_API_KEY";
    steam_app_id = getenv "STEAM_APP_ID";
    jwt_priv_key = getenv "JWT_PRIVATE_KEY";
    server_port = get_env_or_default "SERVER_PORT" "8080";
    app_env = getenv "APP_ENV";
    log_level = getenv "LOG_LEVEL";
    trusted_proxies = getenv "TRUSTED_PROXIES";
    diag_interval_secs = get_env_int "DIAG_INTERVAL_SECS" (pos 0);
    skins_csv_path = get_env_or_default "SKINS_CSV_PATH" "Data/skins.csv";
    game_config_xml_path = get_env_or_default "GAME_CONFIG_XML_PATH" "Data/game-config.xml";
  }

  unfoldable pub load_config : Result ConfigError Config
  unfolding read_config validate_config
  load_config = validate_config read_config >>= λ done. ok read_config

-- What a server that starts can rely on.
pub record IsUsable (c : Config) : Type 0 where
  pub known_env : (c.app_env ≡ "development") ⊎ (c.app_env ≡ "production")
  pub has_key : c.jwt_priv_key ≢ ""
  pub has_store : (c.sqlite_path ≢ "") ⊎ ((c.db_url ≢ "") × (c.redis_url ≢ ""))
  pub has_steam : (c.app_env ≢ "production") ⊎ ((c.steam_api_key ≢ "") × (c.steam_app_id ≢ ""))
  pub has_port : c.server_port ≢ ""

non_empty : (s : String) → str_eq s "" ≡ false → s ≢ ""
non_empty s h e = ground (arith, h, eq_iff s "", e)

validate_config-env :
    (c : Config)
    → validate_config c ≡ ok tt
    → (c.app_env ≡ "development") ⊎ (c.app_env ≡ "production")
unfolding validate_config
validate_config-env c h = elim (Bool-cases (str_eq c.app_env "development")) [
  | inl e ↦ inl (ground (arith, e, eq_iff c.app_env "development"))
  | inr e ↦ inr (ground (arith, e, h, eq_iff c.app_env "production"))
]

validate_config-required :
    (c : Config) → validate_config c ≡ ok tt → require_all (required c) ≡ ok tt
unfolding validate_config
validate_config-required c h = ground (arith, h)

validate_config-store :
    (c : Config)
    → validate_config c ≡ ok tt
    → (c.sqlite_path ≢ "") ⊎ ((c.db_url ≢ "") × (c.redis_url ≢ ""))
unfolding require_all
validate_config-store c h =
    let vars = validate_config-required c h in
    elim (Bool-cases (str_eq c.sqlite_path "")) [
      | inr e ↦ inl (non_empty c.sqlite_path e)
      | inl e ↦ inr (
        non_empty c.db_url (ground (arith, e, vars)),
        non_empty c.redis_url (ground (arith, e, vars)),
      )
    ]

validate_config-steam :
    (c : Config)
    → validate_config c ≡ ok tt
    → (c.app_env ≢ "production") ⊎ ((c.steam_api_key ≢ "") × (c.steam_app_id ≢ ""))
unfolding validate_config
validate_config-steam c h = elim (Bool-cases (str_eq c.app_env "production")) [
  | inr e ↦ inl (λ same. ground (arith, e, eq_iff c.app_env "production", same))
  | inl e ↦ inr (
    non_empty c.steam_api_key (ground (arith, e, h)),
    non_empty c.steam_app_id (ground (arith, e, h)),
  )
]

has_jwt : (c : Config) → validate_config c ≡ ok tt → c.jwt_priv_key ≢ ""
unfolding require_all
has_jwt c h =
    let vars = validate_config-required c h in non_empty c.jwt_priv_key (ground (arith, vars))

read_config-port :
    (atoi : String → Option ℤ) (getenv : String → String)
    → (read_config atoi getenv).server_port ≢ ""
unfolding read_config get_env_or_default
read_config-port atoi getenv e =
    let port = getenv "SERVER_PORT" in
    elim (Bool-cases (str_eq port "")) [
      | inl f ↦ ground (arith, f, e, eq_iff "8080" "")
      | inr f ↦ ground (arith, f, e, eq_iff port "")
    ]

-- A configuration that is loaded is usable: the environment is one of the two that are known, the
-- key of the tokens is there, and either a SQLite file or both addresses, in production also both
-- Steam settings; and the port is not empty.
pub load_config-IsUsable :
    (atoi : String → Option ℤ) (getenv : String → String) {c : Config}
    → load_config atoi getenv ≡ ok c
    → IsUsable c
unfolding load_config
load_config-IsUsable atoi getenv {c} e =
    let valid : validate_config (read_config atoi getenv) ≡ ok tt = ground (arith, e) in
    let same : c ≡ read_config atoi getenv = ground (arith, e) in
    rw same (record {
      known_env = validate_config-env (read_config atoi getenv) valid;
      has_key = has_jwt (read_config atoi getenv) valid;
      has_store = validate_config-store (read_config atoi getenv) valid;
      has_steam = validate_config-steam (read_config atoi getenv) valid;
      has_port = read_config-port atoi getenv;
    })
