-- ===== src/Codecs.antt =====
-- The functions of Python's standard library that the code calls on texts and times and that stay
-- parameters: `hashlib`, `base64` and the ISO format of `datetime`.
use open_terminal_k8s_proxy.Base.{ℕ, String, Option, some, ◌≡◌}

-- `datetime.fromisoformat`: a time with no zone, one with a zone, or a `ValueError`.
pub data Iso : Type 0 where
  naive aware : ℕ → Iso
  invalid : Iso

pub record Codecs : Type 0 where
  pub sha256_hexdigest : String → String
  pub isoformat : ℕ → String
  pub fromisoformat : String → Iso
  pub b64encode : String → String
  pub b64decode : String → Option String

-- What Python documents of `base64`: decoding undoes encoding.
pub record Base64Laws (lib : Codecs) : Type 0 where
  pub b64decode-b64encode : (s : String) → lib.b64decode (lib.b64encode s) ≡ some s
