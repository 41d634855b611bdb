-- ===== src/Config/Origins.antt =====
-- `Settings.cors_origins` of terminal_proxy/config.py: the list that is written with commas. Which
-- characters Python's `strip` takes for blanks is a parameter.
use Prim.Native.Char.{Char, code}
use Prim.Native.String.append
use open_terminal_k8s_proxy.Base.{
  ◌≡◌, refl, ◌∙◌, ap, Bool, true, false, ◌&&◌, String, ◌<>◌, List, [], ◌∷◌, map, All, eqb, arith,
  if◌then◌else◌,
}
use open_terminal_k8s_proxy.Models.Names.{is_empty}

-- `s.split(",")`: the first part, and the others.
unfoldable pub split : String → String × List String
split String.[] = ("", [])
split (String.◌∷◌ c s) =
    let (part, others) = split s in
    if eqb (code c) b',' then ("", part ∷ others) else (String.◌∷◌ c part, others)

module _ (is_blank : Char → Bool) where
  unfoldable pub lstrip : String → String
  lstrip String.[] = String.[]
  lstrip (String.◌∷◌ c s) = let rest = lstrip s in if is_blank c then rest else String.◌∷◌ c s

  unfoldable pub rstrip : String → String
  rstrip String.[] = String.[]
  rstrip (String.◌∷◌ c s) =
      let rest = rstrip s in if is_empty rest && is_blank c then String.[] else String.◌∷◌ c rest

  -- `o.strip()`
  unfoldable pub strip : String → String
  strip o = rstrip (lstrip o)

  -- `[o.strip() for o in parts if o.strip()]`
  unfoldable pub stripped : List String → List String
  stripped [] = []
  stripped (o ∷ os) = let rest = stripped os in if is_empty (strip o) then rest else strip o ∷ rest

  unfoldable pub cors_origins : String → List String
  cors_origins cors_allowed_origins =
      let (part, others) = split cors_allowed_origins in stripped (part ∷ others)

-- A text as it may be written: parts with commas between them.
abbrev pub joined : String → List String → String
joined part [] = part
joined part (o ∷ os) = part <> "," <> joined o os

-- Whether some character of the text is a comma.
abbrev pub has_comma : String → Bool
has_comma String.[] = false
has_comma (String.◌∷◌ c s) = let rest = has_comma s in if eqb (code c) b',' then true else rest

abbrev pub LacksComma : String → Type 0
LacksComma s = has_comma s ≡ false

module _ (is_blank : Char → Bool) where
  abbrev pub IsBlank : String → Type 0
  IsBlank String.[] = Unit
  IsBlank (String.◌∷◌ c s) = (is_blank c ≡ true) × IsBlank s

  abbrev pub starts_blank : String → Bool
  starts_blank String.[] = false
  starts_blank (String.◌∷◌ c s) = is_blank c

  abbrev pub ends_blank : String → Bool
  ends_blank String.[] = false
  ends_blank (String.◌∷◌ c s) = let rest = ends_blank s in if is_empty s then is_blank c else rest

  -- An origin between blanks, or no origin.
  pub record Part : Type 0 where
    pub before : String
    pub origin : String
    pub after : String
    pub blank_before : IsBlank before
    pub blank_after : IsBlank after
    pub starts : starts_blank origin ≡ false
    pub ends : ends_blank origin ≡ false
    pub whole : LacksComma (before <> origin <> after)

  abbrev pub written : Part → String
  written p = p.before <> p.origin <> p.after

  abbrev pub origins : List Part → List String
  origins [] = []
  origins (p ∷ ps) = let rest = origins ps in if is_empty p.origin then rest else p.origin ∷ rest

tail : (c : Char) (s : String) → LacksComma (String.◌∷◌ c s) → LacksComma s
tail c s free = ground arith

split-joined :
    (part : String) (os : List String)
    → LacksComma part
    → All LacksComma os
    → split (joined part os) ≡ (part, os)
unfolding split
split-joined String.[] [] free others = refl
split-joined String.[] (o ∷ os) free (first, others) =
    let e : ("" <> ("," <> joined o os)) ≡ String.◌∷◌ "," (joined o os) =
      append.nil _ ∙ append.cons _ _ _ ∙ ap (String.◌∷◌ ",") (append.nil _) in
    rw e (rw (split-joined o os first others) refl)
split-joined (String.◌∷◌ c s) [] free others =
    ground (arith, split-joined s [] (tail c s free) tt, free)
split-joined (String.◌∷◌ c s) (o ∷ os) free others =
    let e : (String.◌∷◌ c s <> ("," <> joined o os)) ≡ String.◌∷◌ c (s <> ("," <> joined o os)) =
      append.cons _ _ _ in
    rw e (ground (arith, split-joined s (o ∷ os) (tail c s free) others, free))

module _ (is_blank : Char → Bool) where
  lstrip-append : (a s : String) → IsBlank is_blank a → lstrip is_blank (a <> s) ≡ lstrip is_blank s
  unfolding lstrip
  lstrip-append String.[] s h = rw (append.nil s) refl
  lstrip-append (String.◌∷◌ c a) s h = rw (append.cons c a s) (rw h.0 (lstrip-append a s h.1))

  rstrip-blank : (a : String) → IsBlank is_blank a → rstrip is_blank a ≡ ""
  unfolding rstrip
  rstrip-blank String.[] h = refl
  rstrip-blank (String.◌∷◌ c a) h = rw (rstrip-blank a h.1) (rw h.0 refl)

  rstrip-append :
      (s a : String)
      → IsBlank is_blank a
      → ends_blank is_blank s ≡ false
      → rstrip is_blank (s <> a) ≡ s
  unfolding rstrip
  rstrip-append String.[] a h e = rw (append.nil a) (rstrip-blank a h)
  rstrip-append (String.◌∷◌ c String.[]) a h e =
      rw (append.cons c "" a) (rw (append.nil a) (rw (rstrip-blank a h) (rw e refl)))
  rstrip-append (String.◌∷◌ c (String.◌∷◌ d s)) a h e =
      rw (append.cons c (String.◌∷◌ d s) a) (rw (rstrip-append (String.◌∷◌ d s) a h e) refl)

  lstrip-blank : (a : String) → IsBlank is_blank a → lstrip is_blank a ≡ ""
  unfolding lstrip
  lstrip-blank String.[] h = refl
  lstrip-blank (String.◌∷◌ c a) h = rw h.0 (lstrip-blank a h.1)

  strip-append :
      (s a : String)
      → IsBlank is_blank a
      → starts_blank is_blank s ≡ false
      → ends_blank is_blank s ≡ false
      → strip is_blank (s <> a) ≡ s
  unfolding strip lstrip rstrip
  strip-append String.[] a h e f = rw (append.nil a) (rw (lstrip-blank a h) refl)
  strip-append (String.◌∷◌ c s) a h e f =
      let first : lstrip is_blank (String.◌∷◌ c s <> a) ≡ (String.◌∷◌ c s <> a) =
        rw (append.cons c s a) (rw e refl) in
      ap (rstrip is_blank) first ∙ rstrip-append (String.◌∷◌ c s) a h f

  strip-written : (p : Part is_blank) → strip is_blank (written is_blank p) ≡ p.origin
  unfolding strip
  strip-written p =
      ap (rstrip is_blank) (lstrip-append p.before (p.origin <> p.after) p.blank_before)
      ∙ strip-append p.origin p.after p.blank_after p.starts p.ends

  stripped-written :
      (ps : List (Part is_blank))
      → stripped is_blank (map (written is_blank) ps) ≡ origins is_blank ps
  unfolding stripped
  stripped-written [] = refl
  stripped-written (p ∷ ps) = rw (strip-written p) (rw (stripped-written ps) refl)

  wholes : (ps : List (Part is_blank)) → All LacksComma (map (written is_blank) ps)
  wholes [] = tt
  wholes (p ∷ ps) = (p.whole, wholes ps)

  -- Of a text of origins with commas between them, with any blanks around each and also with no
  -- origin between two commas: `cors_origins` is the list of the origins, in their order.
  pub cors_origins-joined :
      (p : Part is_blank) (ps : List (Part is_blank))
      → cors_origins is_blank (joined (written is_blank p) (map (written is_blank) ps))
        ≡ origins is_blank (p ∷ ps)
  unfolding cors_origins
  cors_origins-joined p ps =
      rw (split-joined (written is_blank p) (map (written is_blank) ps) p.whole (wholes ps))
        (stripped-written (p ∷ ps))
