-- ===== src/Http/Headers.antt =====
-- Which headers reach the pod.
use open_terminal_k8s_proxy.Base.{
  ◌≡◌, refl, Bool, true, String, ◌<>◌, ◌==◌, eq_iff, Option, none, some, List, [], ◌∷◌,
  if◌then◌else◌, arith, Bool-cases, inl, inr, ◌⊎◌,
}
use open_terminal_k8s_proxy.Base.Dict
use open_terminal_k8s_proxy.Base.Dict.{Dict, get-put}
use open_terminal_k8s_proxy.Http.{Text, collect, upstream_headers, is_in, stripped_request_headers}

-- The last value of a key, or the given one.
abbrev pub last_value : String → List (String × String) → Option String → Option String
last_value k [] v = v
last_value k ((j, w) ∷ items) v =
    let rest = last_value k items in if j == k then rest (some w) else rest v

get-collect :
    (drop : String → Bool) (k : String) (items : List (String × String)) (d : Dict String)
    → Dict.get k (collect drop items d)
      ≡ (if drop k then Dict.get k d else last_value k items (Dict.get k d))
unfolding collect
get-collect drop k [] d = ground arith
get-collect drop k ((j, w) ∷ items) d = ground (
  arith,
  eq_iff j k,
  get-put j k w d,
  get-collect drop k items d,
  get-collect drop k items (Dict.put j w d),
)

-- The headers of the request to the pod, by name: `Authorization` holds the pod's key, a name whose
-- lower case is in the list of stripped ones is not there, and any other has its last value in the
-- client's request.
pub get-upstream_headers :
    (text : Text) (k : String) (headers : List (String × String)) (terminal_api_key : String)
    → Dict.get k (upstream_headers text headers terminal_api_key) ≡ (
        if "Authorization" == k
        then some ("Bearer " <> terminal_api_key)
        else if is_in (text.lower k) stripped_request_headers
        then none
        else last_value k headers none)
unfolding upstream_headers Dict.get
get-upstream_headers text k headers terminal_api_key =
    let drop : String → Bool = λ j. is_in (text.lower j) stripped_request_headers in
    let kept = collect drop headers [] in
    ground (
      arith,
      get-put "Authorization" k ("Bearer " <> terminal_api_key) kept,
      get-collect drop k headers [],
    )

-- No credentials of the client reach the pod: under any spelling of `authorization` there is
-- nothing, or the pod's key, whatever headers the client sends.
upstream_headers-authorization :
    (text : Text) (k : String) (headers : List (String × String)) (terminal_api_key : String)
    → text.lower k ≡ "authorization"
    → (Dict.get k (upstream_headers text headers terminal_api_key) ≡ none)
      ⊎ (Dict.get k (upstream_headers text headers terminal_api_key)
          ≡ some ("Bearer " <> terminal_api_key))
upstream_headers-authorization text k headers terminal_api_key spelled =
    let named = get-upstream_headers text k headers terminal_api_key in
    let listed : is_in (text.lower k) stripped_request_headers ≡ true = rw spelled refl in
    elim (Bool-cases ("Authorization" == k)) [
      | inl same ↦ inr (rw named (rw same refl))
      | inr other ↦ inl (rw named (rw other (rw listed refl)))
    ]
