-- ===== src/Auth/Config/Loaded.antt =====
-- services/authentication/pentagon5_auth/config.py: what settings that have been loaded satisfy.
use pentagon5_foundation.Prelude.{ℕ, String, ◌≡◌, ◌≤◌, Bool, false, List, ok, arith, ltb, length}
use pentagon5_foundation.Prelude.Dict.{Dict}
use pentagon5_foundation.Runtime.Config.{RuntimeSettings, load_runtime_settings}
use pentagon5_foundation.Runtime.Config.Loaded.{IsLoaded, load_runtime_settings-IsLoaded}
use pentagon5_foundation.Auth.Config.{
  Settings, AuthReading, auth_keys, positive_int, decoded_key, load_auth_settings, settings_with,
}

module _ {F Byte : Type 0} (r : AuthReading F Byte) where
  -- Loaded settings: the shared ones are, the key has 256 bits, and every number is within its bounds.
  pub record IsAuthLoaded (values : Dict String) (s : Settings F Byte) : Type 0 where
    pub runtime : IsLoaded r.runtime values auth_keys s.runtime
    pub hmac_key : 32 ≤ length s.hmac_key
    pub session_ttl : (1 ≤ s.session_ttl_seconds) × (s.session_ttl_seconds ≤ 86400)
    pub flow_ttl : (1 ≤ s.flow_ttl_seconds) × (s.flow_ttl_seconds ≤ 600)
    pub login_grant_ttl : (1 ≤ s.login_grant_ttl_seconds) × (s.login_grant_ttl_seconds ≤ 120)
    pub ws_ticket_ttl : (1 ≤ s.ws_ticket_ttl_seconds) × (s.ws_ticket_ttl_seconds ≤ 60)
    pub ws_max_frame : (1024 ≤ s.ws_max_frame_bytes) × (s.ws_max_frame_bytes ≤ 65536)
    pub ws_max_subscriptions : (1 ≤ s.ws_max_subscriptions) × (s.ws_max_subscriptions ≤ 4)

  positive_int-bounds :
      (values : Dict String) (name default : String) (maximum : ℕ) (t : String) {n : ℕ}
      → positive_int r values name default maximum t ≡ ok n
      → (1 ≤ n) × (n ≤ maximum)
  unfolding positive_int
  positive_int-bounds values name default maximum t e = ground arith

  decoded_key-length :
      (raw : String) {key : List Byte} → decoded_key r raw ≡ ok key → 32 ≤ length key
  unfolding decoded_key
  decoded_key-length raw e = ground arith

  settings_with-IsAuthLoaded :
      (values : Dict String) (runtime : RuntimeSettings F) (issuer client_id redirect_uri : String)
      (key : List Byte) (desktop : String) (frame : ℕ) (cookie : Bool) {s : Settings F Byte}
      → IsLoaded r.runtime values auth_keys runtime
      → 32 ≤ length key
      → 1024 ≤ frame
      → frame ≤ 65536
      → settings_with r values runtime issuer client_id redirect_uri key desktop frame cookie ≡ ok s
      → IsAuthLoaded values s
  unfolding settings_with
  settings_with-IsAuthLoaded values runtime issuer client_id redirect_uri key desktop frame cookie l
        k a b e =
      grind (arith, positive_int-bounds)

  -- What holds of the settings that are built of loaded parts holds of loaded settings.
  load_parts :
      (P : Settings F Byte → Type 0) (values : Dict String) {s : Settings F Byte}
      → ((runtime : RuntimeSettings F) (issuer client_id redirect_uri : String) (key : List Byte)
            (desktop : String) (frame : ℕ) (cookie : Bool) (raw : String)
          → load_runtime_settings r.runtime values auth_keys ≡ ok runtime
          → decoded_key r raw ≡ ok key
          → positive_int r values "P5_WS_MAX_FRAME_BYTES" "16384" 65536 "65536" ≡ ok frame
          → ltb frame 1024 ≡ false
          → settings_with r values runtime issuer client_id redirect_uri key desktop frame cookie
            ≡ ok s
          → P s)
      → load_auth_settings r values ≡ ok s
      → P s
  unfolding load_auth_settings
  load_parts P values h e = grind (arith, h)

  -- Settings that have been loaded satisfy the shared conditions, have a key of at least 32 bytes, and
  -- have every lifetime, frame size and subscription count within its bounds.
  pub load_auth_settings-IsAuthLoaded :
      (values : Dict String) {s : Settings F Byte}
      → load_auth_settings r values ≡ ok s
      → IsAuthLoaded values s
  load_auth_settings-IsAuthLoaded values e =
      load_parts (IsAuthLoaded values) values
        (λ runtime issuer client_id redirect_uri key desktop frame cookie raw loaded decoded sized
            enough built.
          let (least, most) =
            positive_int-bounds values "P5_WS_MAX_FRAME_BYTES" "16384" 65536 "65536" sized in
          settings_with-IsAuthLoaded values runtime issuer client_id redirect_uri key desktop frame
            cookie (load_runtime_settings-IsLoaded r.runtime values auth_keys loaded)
            (decoded_key-length raw decoded) (ground (arith, enough)) most built)
        e
