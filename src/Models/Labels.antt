-- ===== src/Models/Labels.antt =====
-- What `sanitize_k8s_name` returns is a DNS label.
use open_terminal_k8s_proxy.Base.{
  ℕ, zero, suc, ◌≤◌, ◌≡◌, refl, Bool, true, false, String, inl, inr, arith, Bool-cases,
  if◌then◌else◌,
}
use open_terminal_k8s_proxy.Models.Names.{
  is_dash, is_allowed, is_empty, starts_with_dash, replaced, squeezed, lstrip, rstrip, first,
  sanitize_k8s_name,
}

-- The number of characters.
abbrev pub size : String → ℕ
size String.[] = 0
size (String.◌∷◌ c s) = suc (size s)

-- All characters are of `[a-z0-9-]`.
abbrev pub IsPlain : String → Type 0
IsPlain String.[] = Unit
IsPlain (String.◌∷◌ c s) = (is_allowed c ≡ true) × IsPlain s

abbrev pub ends_with_dash : String → Bool
ends_with_dash String.[] = false
ends_with_dash (String.◌∷◌ c s) =
    let rest = ends_with_dash s in if is_empty s then is_dash c else rest

-- A label of RFC 1123: one to 63 characters of `[a-z0-9-]`, of which the first and the last are
-- no dashes.
pub record IsLabel (s : String) : Type 0 where
  pub filled : is_empty s ≡ false
  pub short : size s ≤ 63
  pub plain : IsPlain s
  pub starts : starts_with_dash s ≡ false
  pub ends : ends_with_dash s ≡ false

IsPlain-replaced : (s : String) → IsPlain (replaced s)
unfolding replaced
IsPlain-replaced String.[] = tt
IsPlain-replaced (String.◌∷◌ c s) = elim (Bool-cases (is_allowed c)) [
  | inl e ↦ rw e (e, IsPlain-replaced s)
  | inr e ↦ rw e (refl, IsPlain-replaced s)
]

IsPlain-squeezed : (s : String) → IsPlain s → IsPlain (squeezed s)
unfolding squeezed
IsPlain-squeezed String.[] p = tt
IsPlain-squeezed (String.◌∷◌ c s) p = ground (arith, IsPlain-squeezed s p.1, p.0)

IsPlain-lstrip : (s : String) → IsPlain s → IsPlain (lstrip s)
unfolding lstrip
IsPlain-lstrip String.[] p = tt
IsPlain-lstrip (String.◌∷◌ c s) p = ground (arith, IsPlain-lstrip s p.1, p)

IsPlain-rstrip : (s : String) → IsPlain s → IsPlain (rstrip s)
unfolding rstrip
IsPlain-rstrip String.[] p = tt
IsPlain-rstrip (String.◌∷◌ c s) p = ground (arith, IsPlain-rstrip s p.1, p.0)

IsPlain-first : (n : ℕ) (s : String) → IsPlain s → IsPlain (first n s)
unfolding first
IsPlain-first zero s p = tt
IsPlain-first (suc n) String.[] p = tt
IsPlain-first (suc n) (String.◌∷◌ c s) p = (p.0, IsPlain-first n s p.1)

size-first : (n : ℕ) (s : String) → size (first n s) ≤ n
unfolding first
size-first zero s = omega arith
size-first (suc n) String.[] = omega arith
size-first (suc n) (String.◌∷◌ c s) = omega (arith, size-first n s)

size-rstrip : (s : String) → size (rstrip s) ≤ size s
unfolding rstrip
size-rstrip String.[] = omega arith
size-rstrip (String.◌∷◌ c s) = ground (arith, size-rstrip s)

starts-lstrip : (s : String) → starts_with_dash (lstrip s) ≡ false
unfolding lstrip
starts-lstrip String.[] = refl
starts-lstrip (String.◌∷◌ c s) = ground (arith, starts-lstrip s)

starts-rstrip : (s : String) → starts_with_dash s ≡ false → starts_with_dash (rstrip s) ≡ false
unfolding rstrip
starts-rstrip String.[] p = refl
starts-rstrip (String.◌∷◌ c s) p = ground (arith, p)

starts-first :
    (n : ℕ) (s : String) → starts_with_dash s ≡ false → starts_with_dash (first n s) ≡ false
unfolding first
starts-first zero s p = refl
starts-first (suc n) String.[] p = refl
starts-first (suc n) (String.◌∷◌ c s) p = p

ends-rstrip : (s : String) → ends_with_dash (rstrip s) ≡ false
unfolding rstrip
ends-rstrip String.[] = refl
ends-rstrip (String.◌∷◌ c s) = ground (arith, ends-rstrip s)

-- Whatever the name is, and whatever its lower case, the sanitized name is a DNS label: one to 63
-- characters of `[a-z0-9-]`, of which the first and the last are no dashes.
pub sanitize_k8s_name-IsLabel :
    (lower : String → String) (name : String) → IsLabel (sanitize_k8s_name lower name)
unfolding sanitize_k8s_name
sanitize_k8s_name-IsLabel lower name =
    let stripped = lstrip (squeezed (replaced (lower name))) in
    let short = first 63 (rstrip stripped) in
    let cut = rstrip short in
    elim (Bool-cases (is_empty cut)) [
      | inl e ↦ rw e (record {
        filled = refl;
        short = omega arith;
        plain = (refl, (refl, (refl, (refl, (refl, (refl, (refl, tt)))))));
        starts = refl;
        ends = refl;
      })
      | inr e ↦ rw e (record {
        filled = e;
        short = omega (arith, size-rstrip short, size-first 63 (rstrip stripped));
        plain = IsPlain-rstrip short (
            IsPlain-first 63 _ (
              IsPlain-rstrip stripped
                (IsPlain-lstrip _ (IsPlain-squeezed _ (IsPlain-replaced (lower name))))));
        starts = starts-rstrip short (starts-first 63 _ (starts-rstrip stripped (starts-lstrip _)));
        ends = ends-rstrip short;
      })
    ]
