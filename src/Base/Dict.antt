-- ===== src/Base/Dict.antt =====
-- Python's `dict` with text keys, as an association list in insertion order. A write to a key
-- that is there keeps its place, and a new key goes to the end.
use Prim.Native.Nat.{◌+◌, ◌≤◌, ◌<◌}
use Prim.Native.String.{String}
use mathlib.Core.Path.{◌≡◌, refl, ◌∙◌}
use mathlib.Core.Bool.{false}
use mathlib.Core.Option.{Option, none, some}
use mathlib.Core.List.{List, [], ◌∷◌, map}
use native.Mathlib.Omega.{arith}
use text.Mathlib.Text.{◌==◌}
use text.Mathlib.TextEquality.{eq_iff}
use open_terminal_k8s_proxy.Base.Tests.{if◌then◌else◌}
use open_terminal_k8s_proxy.Base.Lists.{length, any, All}

abbrev pub Dict {ℓ} : Type ℓ → Type ℓ
Dict V = List (String × V)

module _ {ℓ} {V : Type ℓ} where
  -- `d.get(k)`
  unfoldable pub get : String → Dict V → Option V
  get k [] = none
  get k ((j, v) ∷ d) = if j == k then some v else get k d

  -- `d[k] = v`
  unfoldable pub put : String → V → Dict V → Dict V
  put k v [] = (k, v) ∷ []
  put k v ((j, w) ∷ d) = if j == k then (j, v) ∷ d else (j, w) ∷ put k v d

  -- `if v is not None: d[k] = v`
  abbrev pub put_some : String → Option V → Dict V → Dict V
  put_some k none d = d
  put_some k (some v) d = put k v d

  -- `d.pop(k, None)`, without its result
  unfoldable pub remove : String → Dict V → Dict V
  remove k [] = []
  remove k ((j, v) ∷ d) = let rest = remove k d in if j == k then rest else (j, v) ∷ rest

  -- `for k in ks: d.pop(k, None)`
  unfoldable pub remove_all : List String → Dict V → Dict V
  remove_all [] d = d
  remove_all (k ∷ ks) d = remove_all ks (remove k d)

  abbrev pub keys : Dict V → List String
  keys = map (λ e. e.0)

  abbrev pub values : Dict V → List V
  values = map (λ e. e.1)

  -- A predicate of all entries.
  abbrev pub Every {κ} : (String → V → Type κ) → Dict V → Type κ
  Every P = All (λ e. P e.0 e.1)

module _ {ℓ} {V : Type ℓ} where
  pub get-put :
      (k j : String) (v : V) (d : Dict V) → get j (put k v d) ≡ (if k == j then some v else get j d)
  unfolding get put
  get-put k j v [] = refl
  get-put k j v ((i, w) ∷ d) = ground (arith, eq_iff k j, eq_iff i k, eq_iff i j, get-put k j v d)

  pub put_some-get :
      (j k : String) (v : Option V) (d : Dict V)
      → (j == k) ≡ false
      → get k (put_some j v d) ≡ get k d
  put_some-get j k none d e = refl
  put_some-get j k (some v) d e = get-put j k v d ∙ rw e refl

  pub get-remove :
      (k j : String) (d : Dict V) → get j (remove k d) ≡ (if k == j then none else get j d)
  unfolding get remove
  get-remove k j [] = ground arith
  get-remove k j ((i, v) ∷ d) = ground (arith, get-remove k j d, eq_iff i k, eq_iff i j, eq_iff k j)

  pub remove-put : (k : String) (v : V) (d : Dict V) → remove k (put k v d) ≡ remove k d
  unfolding put remove
  remove-put k v [] = ground (arith, eq_iff k k)
  remove-put k v ((j, w) ∷ d) = ground (arith, remove-put k v d)

  pub get-remove_all :
      (ks : List String) (j : String) (d : Dict V)
      → get j (remove_all ks d) ≡ (if any (λ k. k == j) ks then none else get j d)
  unfolding remove_all
  get-remove_all [] j d = refl
  get-remove_all (k ∷ ks) j d = ground (arith, get-remove_all ks j (remove k d), get-remove k j d)

  pub length-put-le : (k : String) (v : V) (d : Dict V) → length (put k v d) ≤ length d + 1
  unfolding put
  length-put-le k v [] = omega arith
  length-put-le k v ((j, w) ∷ d) = ground (arith, length-put-le k v d)

  pub length-put_known :
      (k : String) (v w : V) (d : Dict V) → get k d ≡ some w → length (put k v d) ≡ length d
  unfolding get put
  length-put_known k v w [] h = cc
  length-put_known k v w ((j, u) ∷ d) h = ground (arith, length-put_known k v w d)

  pub length-remove-le : (k : String) (d : Dict V) → length (remove k d) ≤ length d
  unfolding remove
  length-remove-le k [] = omega arith
  length-remove-le k ((j, w) ∷ d) = ground (arith, length-remove-le k d)

  pub length-remove-lt :
      (k : String) (v : V) (d : Dict V) → get k d ≡ some v → length (remove k d) < length d
  unfolding get remove
  length-remove-lt k v [] h = cc
  length-remove-lt k v ((j, w) ∷ d) h = ground (arith, length-remove-le k d, length-remove-lt k v d)

module _ {ℓ κ} {V : Type ℓ} (P : String → V → Type κ) where
  pub Every-put : (k : String) (v : V) (d : Dict V) → P k v → Every P d → Every P (put k v d)
  unfolding put
  Every-put k v [] p h = (p, tt)
  Every-put k v ((j, w) ∷ d) p h = ground (arith, eq_iff j k, Every-put k v d p h.1)

  pub Every-remove : (k : String) (d : Dict V) → Every P d → Every P (remove k d)
  unfolding remove
  Every-remove k [] h = tt
  Every-remove k ((j, w) ∷ d) h = ground (arith, Every-remove k d h.1)

  pub Every-get : (k : String) (v : V) (d : Dict V) → Every P d → get k d ≡ some v → P k v
  unfolding get
  Every-get k v [] h e = cc
  Every-get k v ((j, w) ∷ d) h e = ground (arith, eq_iff j k, Every-get k v d h.1)

module _ {ℓ} {V : Type ℓ} where
  -- No key stands twice.
  abbrev pub Distinct : Dict V → Type ℓ
  Distinct [] = Unit
  Distinct ((k, v) ∷ d) = (get k d ≡ none) × Distinct d

  pub Distinct-put : (k : String) (v : V) (d : Dict V) → Distinct d → Distinct (put k v d)
  unfolding put get
  Distinct-put k v [] h = (refl, tt)
  Distinct-put k v ((j, w) ∷ d) h =
      ground (arith, eq_iff j k, eq_iff k j, get-put k j v d, Distinct-put k v d h.1)

  pub Distinct-remove : (k : String) (d : Dict V) → Distinct d → Distinct (remove k d)
  unfolding remove
  Distinct-remove k [] h = tt
  Distinct-remove k ((j, w) ∷ d) h = ground (arith, get-remove k j d, Distinct-remove k d h.1)

  pub Distinct-remove_all :
      (ks : List String) (d : Dict V) → Distinct d → Distinct (remove_all ks d)
  unfolding remove_all
  Distinct-remove_all [] d h = h
  Distinct-remove_all (k ∷ ks) d h = Distinct-remove_all ks (remove k d) (Distinct-remove k d h)

module _ {ℓ} {V : Type ℓ} where
  pub length-remove_all-le : (ks : List String) (d : Dict V) → length (remove_all ks d) ≤ length d
  unfolding remove_all
  length-remove_all-le [] d = omega arith
  length-remove_all-le (k ∷ ks) d =
      omega (arith, length-remove_all-le ks (remove k d), length-remove-le k d)

module _ {ℓ κ} {V : Type ℓ} (P : String → V → Type κ) where
  pub Every-remove_all : (ks : List String) (d : Dict V) → Every P d → Every P (remove_all ks d)
  unfolding remove_all
  Every-remove_all [] d h = h
  Every-remove_all (k ∷ ks) d h = Every-remove_all ks (remove k d) (Every-remove P k d h)
