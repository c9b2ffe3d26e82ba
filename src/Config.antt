-- ===== src/Config.antt =====
-- internal/config/config.go: the configuration, read from the variables of the environment.
use async_task_orchestrator.Prelude.{String}

pub record DbConfig : Type 0 where
  pub host : String
  pub port : String
  pub user : String
  pub password : String
  pub name : String
  pub ssl_mode : String

pub record RedisConfig : Type 0 where
  pub host : String
  pub port : String
  pub redis_password : String
  pub redis_db : String

pub record RabbitMqConfig : Type 0 where
  pub url : String

pub record JwtConfig : Type 0 where
  pub secret : String

pub record Config : Type 0 where
  pub app_name : String
  pub app_env : String
  pub app_port : String
  pub db : DbConfig
  pub redis : RedisConfig
  pub rabbit_mq : RabbitMqConfig
  pub jwt : JwtConfig

-- `getenv` is os.Getenv, which gives "" for a variable that is not set.
unfoldable pub load : (String → String) → Config
load getenv = record {
  app_name = getenv "APP_NAME";
  app_env = getenv "APP_ENV";
  app_port = getenv "APP_PORT";
  db = record {
    host = getenv "DB_HOST";
    port = getenv "DB_PORT";
    user = getenv "DB_USER";
    password = getenv "DB_PASSWORD";
    name = getenv "DB_NAME";
    ssl_mode = getenv "DB_SSLMODE";
  };
  redis = record {
    host = getenv "REDIS_HOST";
    port = getenv "REDIS_PORT";
    redis_password = getenv "REDIS_PASSWORD";
    redis_db = getenv "REDIS_DB";
  };
  rabbit_mq = record { url = getenv "RABBITMQ_URL" };
  jwt = record { secret = getenv "JWT_SECRET" };
}
