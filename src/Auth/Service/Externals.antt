-- ===== src/Auth/Service/Externals.antt =====
-- What services/authentication/pentagon5_auth/service.py takes from Python and from libraries.
-- `Byte` is what a bytes object consists of: it is counted and cut, and never looked into. A parsed
-- JSON document is only asked whether it is an object and whether a member is a text.
use pentagon5_foundation.Prelude.{String, ◌≡◌, Option, some, List, [], ◌∷◌, Result}
use pentagon5_foundation.Prelude.Dict.{Dict}
use pentagon5_foundation.Auth.Models.{Error}

pub data Value : Type 0 where
  text : String → Value
  other : Value

pub data Document : Type 0 where
  object : Dict Value → Document
  not_object : Document

-- `hmac`, `hashlib` and `base64`, AES-GCM under the service's key, `json`, and methods of `str`.
pub record Outside (Byte : Type 0) : Type 0 where
  pub hmac_hex : List Byte → String → String
  pub s256 : String → String
  pub encrypt : List Byte → List Byte → String → List Byte
  pub decrypt : List Byte → List Byte → String → Option (List Byte)
  pub dumps : Dict String → List Byte
  pub loads : List Byte → Option Document
  pub b64encode : List Byte → String
  pub b64decode : String → Option (List Byte)
  pub urlencode_code : String → String
  pub lower : String → String
  pub strip : String → String

abbrev pub texts : Dict String → Dict Value
texts [] = []
texts ((k, v) ∷ d) = (k, text v) ∷ texts d

-- What is relied on: decoding undoes encoding, and decryption undoes encryption under one nonce
-- and the same associated data.
pub record IsInverse {Byte : Type 0} (o : Outside Byte) : Type 0 where
  pub decrypted :
      (nonce plain : List Byte) (associated : String)
      → o.decrypt nonce (o.encrypt nonce plain associated) associated ≡ some plain
  pub loaded : (d : Dict String) → o.loads (o.dumps d) ≡ some (object (texts d))
  pub decoded : (b : List Byte) → o.b64decode (o.b64encode b) ≡ some b

-- The OIDC client.
pub record Oidc : Type 0 where
  pub authorization_url : String → String → String → Result Error String
  pub exchange : String → String → String → Result Error (Dict Value)
