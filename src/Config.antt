-- ===== src/Config.antt =====
-- The version numbers and the configuration of the program, helpers.go.
pub mod Laws
use Prim.Native.Nat.{bit_and}
use Prim.Native.String.{String}
use text.Mathlib.Text.{◌==◌ as str_eq}
use ezproxy.Base.{
  ℕ, ◌+◌, ◌*◌, ◌/◌, ◌%◌, ◌^◌, Bool, true, false, not, ◌&&◌, ◌||◌, ◌==◌, if◌then◌else◌, Option, none,
  some,
}

-- versionExperimental
abbrev pub version_experimental : ℕ
version_experimental = 0x8000_0000

-- proxyVersion
abbrev pub proxy_version : ℕ
proxy_version = 0x02_02_01

-- apiVersion
abbrev pub api_version : ℕ
api_version = 0x02_01_02

-- What versionToString prints: major.minor, r revision, and e for an experimental version.
pub record Version : Type 0 where
  pub major : ℕ
  pub minor : ℕ
  pub revision : ℕ
  pub experimental : Bool

-- versionToString: the numbers of its format.
unfoldable pub version_of : ℕ → Version
version_of v = record {
  major = v / 2 ^ 16 % 2 ^ 8;
  minor = v / 2 ^ 8 % 2 ^ 8;
  revision = v % 2 ^ 8;
  experimental = not (bit_and v version_experimental == 0);
}

-- ConfigAddress
pub record ConfigAddress : Type 0 where
  pub address : String
  pub port : ℕ

-- ConfigAddress.IsEmpty
unfoldable pub address_is_empty : ConfigAddress → Bool
address_is_empty c = not (str_eq c.address "") || not (c.port == 0)

-- ConfigLogging
pub record ConfigLogging : Type 0 where
  pub level : String

-- slog.Level, by its names
pub data Level : Type 0 where
  debug info warn error : Level

-- LevelToSlog; an unknown level is a panic.
unfoldable pub level_to_slog : ConfigLogging → Option Level
level_to_slog c =
    if str_eq c.level "debug"
    then some debug
    else if str_eq c.level "info"
    then some info
    else if str_eq c.level "warn"
    then some warn
    else if str_eq c.level "error"
    then some error
    else none

-- ConfigDebug
pub record ConfigDebug : Type 0 where
  pub enable : Bool
  pub api_key : ℕ

-- ConfigApi
pub record ConfigApi : Type 0 where
  pub enable : Bool
  pub use_auth : Bool
  pub address : ConfigAddress

-- ConfigLua
pub record ConfigLua : Type 0 where
  pub enable : Bool
  pub path : String
  pub mode : String

-- ConfigData
pub record ConfigData : Type 0 where
  pub proxy_address : ConfigAddress
  pub server_address : ConfigAddress
  pub api : ConfigApi
  pub logging : ConfigLogging
  pub lua : ConfigLua
  pub debugging : ConfigDebug

-- ConfigData.IsEmpty
unfoldable pub config_is_empty : ConfigData → Bool
unfolding address_is_empty
config_is_empty c =
    if not (address_is_empty c.proxy_address)
    then false
    else if not (address_is_empty c.server_address)
    then false
    else if not (address_is_empty c.api.address) || c.api.enable || c.api.use_auth
    then false
    else if not (str_eq c.logging.level "")
    then false
    else if c.debugging.enable || not (c.debugging.api_key == 0)
    then false
    else true
