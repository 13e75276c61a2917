-- ===== src/Config/Laws.antt =====
-- When the program takes its configuration for empty, helpers.go.
use ezproxy.Base.{ℕ, ◌+◌, ◌*◌, ◌^◌, ◌<◌, ◌≡◌, refl, false, ◌⊎◌, inl, inr, arith}
use ezproxy.Config.{version_of, ConfigAddress, address_is_empty, ConfigData, config_is_empty}

abbrev pub Unset : ConfigAddress → Type 0
Unset c = (c.address ≡ "") × (c.port ≡ 0)

-- A configuration in which one of the three addresses is not set at all is never taken for empty, the
-- configuration with nothing set among them: the test of an address has its sense turned around.
pub config_is_empty-Unset :
    (c : ConfigData)
    → Unset c.proxy_address ⊎ Unset c.server_address ⊎ Unset c.api.address
    → config_is_empty c ≡ false
unfolding config_is_empty address_is_empty
config_is_empty-Unset c (inl (a, p)) = rw (a, p) refl
config_is_empty-Unset c (inr (inl (a, p))) = rw (a, p) (ground arith)
config_is_empty-Unset c (inr (inr (a, p))) = rw (a, p) (ground arith)

-- The parts of a version, each below 256, are read back from its number.
pub version_of-parts :
    (major minor revision : ℕ)
    → major < 2 ^ 8
    → minor < 2 ^ 8
    → revision < 2 ^ 8
    → let v = version_of (major * 2 ^ 16 + minor * 2 ^ 8 + revision) in
      (v.major ≡ major) × (v.minor ≡ minor) × (v.revision ≡ revision)
unfolding version_of
version_of-parts major minor revision a b c = (omega arith, omega arith, omega arith)
