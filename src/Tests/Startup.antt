-- ===== src/Tests/Startup.antt =====
-- The theorems on the settings at concrete inputs.
use Prim.Native.Char.{Char, code}
use open_terminal_k8s_proxy.Base.{Bool, ◌≡◌, refl, [], ◌∷◌, eqb}
use open_terminal_k8s_proxy.Config.Origins.{Part, joined, cors_origins, cors_origins-joined}

abbrev is_space : Char → Bool
is_space c = eqb (code c) b' '

abbrev local : Part is_space
local = record {
  before = "";
  origin = "http://localhost";
  after = " ";
  blank_before = tt;
  blank_after = (refl, tt);
  starts = refl;
  ends = refl;
  whole = refl;
}

abbrev missing : Part is_space
missing = record {
  before = " ";
  origin = "";
  after = "";
  blank_before = (refl, tt);
  blank_after = tt;
  starts = refl;
  ends = refl;
  whole = refl;
}

cors_origins-joined_example :
    cors_origins is_space (joined "http://localhost " (" " ∷ "http://localhost " ∷ []))
    ≡ "http://localhost" ∷ "http://localhost" ∷ []
cors_origins-joined_example = cors_origins-joined is_space local (missing ∷ local ∷ [])
