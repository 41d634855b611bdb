-- ===== src/Json.antt =====
-- The JSON values of which manifests are made. An object is written from a `dict`.
use mathlib.Core.Option
use open_terminal_k8s_proxy.Base.{
  ℕ, zero, suc, String, Option, none, some, List, [], ◌∷◌, ◌==◌, if◌then◌else◌, ◌≡◌, refl, arith,
}
use open_terminal_k8s_proxy.Base.Dict
use open_terminal_k8s_proxy.Base.Dict.{Dict}

mutual
  pub data Json : Type 0 where
    text : String → Json
    number : ℕ → Json
    arr : Items → Json
    obj : Fields → Json

  pub data Items : Type 0 where
    nil : Items
    cons : Json → Items → Items

  pub data Fields : Type 0 where
    end : Fields
    field : String → Json → Fields → Fields

abbrev fields : Dict Json → Fields
fields [] = end
fields ((k, v) ∷ d) = field k v (fields d)

abbrev pub object : Dict Json → Json
object d = obj (fields d)

abbrev items : List Json → Items
items [] = nil
items (x ∷ xs) = cons x (items xs)

abbrev pub array : List Json → Json
array xs = arr (items xs)

-- A `dict` of texts.
abbrev texts_from : Dict String → Fields
texts_from [] = end
texts_from ((k, v) ∷ d) = field k (text v) (texts_from d)

abbrev pub texts : Dict String → Json
texts d = obj (texts_from d)

member_in : String → Fields → Option Json
member_in k end = none
member_in k (field j v f) = if j == k then some v else member_in k f

-- `v[k]`, none if `v` is no object or has no such key.
unfoldable pub member : String → Json → Option Json
unfolding member_in
member k (obj f) = member_in k f
member k v = none

-- `v[n]`, none if `v` is no list or has no such item.
item_at : ℕ → Items → Option Json
item_at n nil = none
item_at zero (cons v vs) = some v
item_at (suc n) (cons v vs) = item_at n vs

unfoldable pub element : ℕ → Json → Option Json
unfolding item_at
element n (arr vs) = item_at n vs
element n v = none

member_fields : (k : String) (d : Dict Json) → member_in k (fields d) ≡ Dict.get k d
unfolding member_in Dict.get
member_fields k [] = refl
member_fields k ((j, v) ∷ d) = ground (arith, member_fields k d)

-- Reading a key of an object written from a `dict` is reading the `dict`.
pub member-object : (k : String) (d : Dict Json) → member k (object d) ≡ Dict.get k d
unfolding member
member-object k d = member_fields k d

texts-member_in :
    (k : String) (d : Dict String) → member_in k (texts_from d) ≡ Option.map text (Dict.get k d)
unfolding member_in Dict.get
texts-member_in k [] = refl
texts-member_in k ((j, v) ∷ d) = ground (arith, texts-member_in k d)

-- And of one written from a `dict` of texts.
pub member-texts :
    (k : String) (d : Dict String) → member k (texts d) ≡ Option.map text (Dict.get k d)
unfolding member
member-texts k d = texts-member_in k d
