-- ===== src/Config.antt =====
-- app/config/settings.py. A timeout, a delay and the address, key and name of the
-- language model, which the program only hands on to a library, are left out.
use schedualerl_lm.Base.{ℕ, String, ◌<>◌, Option, none, some, ◌≡◌, Bool, false}
use schedualerl_lm.Base.Int.{ℤ, pos}
use schedualerl_lm.Enums.{LogLevel, info}
use schedualerl_lm.Python.Result.{Result, ok, err}

pub record AuthSettings : Type 0 where
  pub jwt_secret : String
  pub jwt_algorithm : String

pub record SchedulerSettings : Type 0 where
  pub webhook_jwt_ttl_minutes : ℕ
  pub scheduler_id : Option String

pub record DatabaseSettings : Type 0 where
  pub host : String
  pub port : ℤ
  pub user : String
  pub password : String
  pub name : String
  pub min_pool_size : ℕ
  pub max_pool_size : ℕ
  pub connect_retries : ℤ

-- `LLMSettings`: what the parsing of texts reads itself.
pub record LlmSettings : Type 0 where
  pub max_retries : ℤ
  pub trigger_parse_prompt_path : String

pub record AppSettings : Type 0 where
  pub name : String
  pub debug : Bool

pub record LogSettings : Type 0 where
  pub level : LogLevel
  pub format : String

pub record Settings : Type 0 where
  pub app : AppSettings
  pub auth : AuthSettings
  pub log : LogSettings
  pub db : DatabaseSettings
  pub scheduler : SchedulerSettings
  pub llm : LlmSettings

-- The default of each setting that has one.
abbrev pub default_app : AppSettings
default_app = record { name = "schedulerlm"; debug = false }

abbrev pub default_log : LogSettings
default_log = record { level = info; format = "%(asctime)s %(levelname)s [%(name)s] %(message)s" }

abbrev pub default_auth : String → AuthSettings
default_auth secret = record { jwt_secret = secret; jwt_algorithm = "HS256" }

abbrev pub default_scheduler : SchedulerSettings
default_scheduler = record { webhook_jwt_ttl_minutes = 5; scheduler_id = none }

-- The prompt stands beside app/prompts/loader.py.
abbrev pub default_llm : LlmSettings
default_llm = record { max_retries = pos 2; trigger_parse_prompt_path = "trigger_parse.txt" }

abbrev pub default_database : (user password name : String) → DatabaseSettings
default_database user password name = record {
  host = "localhost";
  port = pos 5432;
  user = user;
  password = password;
  name = name;
  min_pool_size = 1;
  max_pool_size = 10;
  connect_retries = pos 3;
}

-- `DatabaseSettings.async_url`; how Python writes a number is an argument.
abbrev pub async_url : (ℤ → String) → DatabaseSettings → String
async_url show_number db =
    "postgresql+asyncpg://"
    <> (db.user
        <> (":"
            <> (db.password
                <> ("@" <> (db.host <> (":" <> (show_number db.port <> ("/" <> db.name))))))))

-- `get_settings`, with the cache of `lru_cache`: what was read first is kept, an exception is not.
abbrev pub get_settings : Option Settings → Result Settings → Result Settings × Option Settings
get_settings (some settings) read = (ok settings, some settings)
get_settings none (ok settings) = (ok settings, some settings)
get_settings none (err e) = (err e, none)

-- Settings that were read once stay, whatever the environment becomes.
get_settings_again :
    (cache : Option Settings) (read later : Result Settings) (settings : Settings)
    → (get_settings cache read).0 ≡ ok settings
    → get_settings (get_settings cache read).1 later ≡ (ok settings, some settings)
get_settings_again (some kept) read later settings h = cc
get_settings_again none (ok kept) later settings h = cc
get_settings_again none (err e) later settings h = cc
