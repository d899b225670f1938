-- ===== src/Runtime/Config/Loaded.antt =====
-- backend/pentagon5_runtime/config.py: what settings that have been loaded satisfy.
use pentagon5_foundation.Prelude.{
  ℕ, String, ◌≡◌, Bool, true, false, ◌&&◌, List, ok, str_eq, one_of, arith,
}
use pentagon5_foundation.Prelude.Dict.{Dict}
use pentagon5_foundation.Runtime.Config.{
  Reading, RuntimeSettings, environments, log_levels, unknown_keys, is_empty, secret_value,
  bounded_number, load_runtime_settings,
}

module _ {F : Type 0} (r : Reading F) where
  abbrev pub is_between : ℕ → ℕ → F → Bool
  is_between minimum maximum v = r.le (r.of_ℕ minimum) v && r.le v (r.of_ℕ maximum)

  -- Loaded settings: no unknown key is set, the names are among the allowed ones, the texts are not
  -- empty, and both numbers are within their bounds.
  pub record IsLoaded (values : Dict String) (allowed_extra : List String) (s : RuntimeSettings F)
      : Type 0 where
    pub known : is_empty (r.sorted (unknown_keys allowed_extra values)) ≡ true
    pub environment : one_of s.environment environments ≡ true
    pub log_level : one_of s.log_level log_levels ≡ true
    pub service_name : str_eq s.service_name "" ≡ false
    pub database_url : str_eq s.database_url "" ≡ false
    pub request_timeout : is_between 1 60 s.request_timeout_seconds ≡ true
    pub max_body : (v : F) × (is_between 1024 10485760 v ≡ true) × (s.max_body_bytes ≡ r.truncate v)

  bounded_number-is_between :
      (values : Dict String) (name default : String) (minimum maximum : ℕ) (bounds : String) {v : F}
      → bounded_number r values name default minimum maximum bounds ≡ ok v
      → is_between minimum maximum v ≡ true
  unfolding bounded_number
  bounded_number-is_between values name default minimum maximum bounds e = ground arith

  pub secret_value-given :
      (name : String) (values : Dict String) {v : String}
      → secret_value r name values ≡ ok v
      → str_eq v "" ≡ false
  unfolding secret_value
  secret_value-given name values e = ground arith

  pub load_runtime_settings-IsLoaded :
      (values : Dict String) (allowed_extra : List String) {s : RuntimeSettings F}
      → load_runtime_settings r values allowed_extra ≡ ok s
      → IsLoaded values allowed_extra s
  unfolding load_runtime_settings
  load_runtime_settings-IsLoaded values allowed_extra e =
      grind (arith, bounded_number-is_between, secret_value-given)
