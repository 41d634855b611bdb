-- ===== src/Models/Names.antt =====
-- `sanitize_k8s_name` of terminal_proxy/models.py. Python's `lower` is a parameter; the regular
-- expressions and the strips are written out.
use Prim.Native.Char.{Char, code}
use open_terminal_k8s_proxy.Base.{
  ℕ, zero, suc, Bool, true, false, ◌&&◌, ◌||◌, String, leb, eqb, if◌then◌else◌,
}

abbrev pub is_dash : Char → Bool
is_dash c = eqb (code c) b'-'

-- `[a-z0-9-]`
abbrev pub is_allowed : Char → Bool
is_allowed c =
    (leb b'a' (code c) && leb (code c) b'z')
    || (leb b'0' (code c) && leb (code c) b'9')
    || is_dash c

abbrev pub is_empty : String → Bool
is_empty String.[] = true
is_empty (String.◌∷◌ c s) = false

abbrev pub starts_with_dash : String → Bool
starts_with_dash String.[] = false
starts_with_dash (String.◌∷◌ c s) = is_dash c

-- `re.sub(r"[^a-z0-9-]", "-", s)`
unfoldable pub replaced : String → String
replaced String.[] = String.[]
replaced (String.◌∷◌ c s) = String.◌∷◌ (if is_allowed c then c else "-") (replaced s)

-- `re.sub(r"-+", "-", s)`: of a run of dashes, one stays.
unfoldable pub squeezed : String → String
squeezed String.[] = String.[]
squeezed (String.◌∷◌ c s) =
    let rest = squeezed s in if is_dash c && starts_with_dash s then rest else String.◌∷◌ c rest

-- `s.lstrip("-")`
unfoldable pub lstrip : String → String
lstrip String.[] = String.[]
lstrip (String.◌∷◌ c s) = let rest = lstrip s in if is_dash c then rest else String.◌∷◌ c s

-- `s.rstrip("-")`
unfoldable pub rstrip : String → String
rstrip String.[] = String.[]
rstrip (String.◌∷◌ c s) =
    let rest = rstrip s in if is_empty rest && is_dash c then String.[] else String.◌∷◌ c rest

-- `s[:n]`
unfoldable pub first : ℕ → String → String
first zero s = String.[]
first (suc n) String.[] = String.[]
first (suc n) (String.◌∷◌ c s) = String.◌∷◌ c (first n s)

unfoldable pub sanitize_k8s_name : (String → String) → String → String
sanitize_k8s_name lower name =
    let cut = rstrip (first 63 (rstrip (lstrip (squeezed (replaced (lower name)))))) in
    if is_empty cut then "unknown" else cut
