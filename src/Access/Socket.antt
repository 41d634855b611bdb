-- ===== src/Access/Socket.antt =====
-- `websocket_terminal` of terminal_proxy/main.py, as far as the session that it hands over.
use open_terminal_k8s_proxy.Base.{
  ℕ, ◌≡◌, ◌⊎◌, Bool, true, false, String, ◌==◌, ◌&&◌, Option, none, some, truthy, if◌then◌else◌,
}
use open_terminal_k8s_proxy.Base.Dict
use open_terminal_k8s_proxy.Base.Dict.{Dict}
use open_terminal_k8s_proxy.Base.Exec.{
  Exn, http_exception, k8s_unavailable, Result, ok, err, Exec, pure, raise, attempt, ◌>>=◌,
}
use open_terminal_k8s_proxy.Access.{get_terminal_for_user}
use open_terminal_k8s_proxy.Json.{Json, text}
use open_terminal_k8s_proxy.Kube.{Env}
use open_terminal_k8s_proxy.Models.{TerminalPod}
use open_terminal_k8s_proxy.PodManager.{Manager}
use open_terminal_k8s_proxy.PodManager.Creation.{IsOwn}

-- What becomes of the client's socket: it is closed with a code, or handed to `proxy_websocket`.
pub data Handover : Type 0 where
  closed : ℕ → Handover
  handed : TerminalPod → Handover

-- How the calls of `client_ws.close` end, by their number: on a client that is gone, they raise.
abbrev pub Closes : Type 0
Closes = ℕ → Result (Unit {0})

unfoldable pub close_with : Closes → ℕ → ℕ → Result Handover
close_with close n code = elim (close n) [ ok _ ↦ ok (closed code) | err e ↦ err e ]

-- The call within the `try`: if it raises, the `except` clause closes again.
unfoldable pub close_twice : Closes → Result Handover
close_twice close = elim (close 0) [ ok _ ↦ ok (closed 1008) | err e ↦ close_with close 1 1008 ]

abbrev ends : {W : Type 0} → Result Handover → Exec (Manager W) Handover
ends r s = (r, s)

abbrev pub is_text : String → Option Json → Bool
is_text s (some (text t)) = t == s
is_text s _ = false

-- The check of a payload.
unfoldable pub is_authentic : String → Dict Json → Bool
is_authentic proxy_api_key payload =
    is_text "auth" (Dict.get "type" payload) && is_text proxy_api_key (Dict.get "token" payload)

-- The two `except` clauses.
unfoldable pub closed_by : {W : Type 0} → Closes → Exn → Exec (Manager W) Handover
closed_by close k8s_unavailable = ends (close_with close 0 1011)
closed_by close (http_exception status) = ends (close_with close 0 1011)
closed_by close e = raise e

-- `loads` is `json.loads` for a text that is an object, and none where it raises or the text is
-- no object. `first` is the client's first message, or none if it does not come in ten seconds.
module _ (loads : String → Option (Dict Json)) where
  -- Whether the first message has the key: nobody needs it if the proxy has none.
  unfoldable pub is_allowed : String → Option String → Bool
  is_allowed proxy_api_key first = if proxy_api_key == "" then true else elim first [
    | none ↦ false
    | some raw ↦ elim (loads raw) [
      | none ↦ false
      | some payload ↦ is_authentic proxy_api_key payload
    ]
  ]

  -- How the check of the first message ends the endpoint, if it does.
  unfoldable pub turned_away : Closes → String → Option String → Option (Result Handover)
  turned_away close proxy_api_key first = if proxy_api_key == "" then none else elim first [
    | none ↦ some (close_with close 0 1008)
    | some raw ↦ elim (loads raw) [
      | none ↦ some (close_with close 0 1008)
      | some payload ↦ if is_authentic proxy_api_key payload then none else some (close_twice close)
    ]
  ]

  -- The rest of it.
  unfoldable pub admitted :
      {W : Type 0} ⦃env : Env W⦄ → Closes → Option String → Exec (Manager W) Handover
  admitted close user_id = elim (truthy user_id) [
    | none ↦ ends (close_with close 0 1008)
    | some name ↦
        attempt (do terminal ← get_terminal_for_user name; pure (handed terminal)) (closed_by close)
  ]

  -- From the `accept` on.
  unfoldable pub websocket_terminal :
      {W : Type 0} ⦃env : Env W⦄
      → Closes
      → String
      → Option String
      → Option String
      → Exec (Manager W) Handover
  websocket_terminal close proxy_api_key first user_id =
      elim (turned_away close proxy_api_key first) [
        | some r ↦ ends r
        | none ↦ admitted close user_id
      ]

-- A call of `client_ws.close` with the code, or the exception that one raised.
pub data Closing (close : Closes) (code : ℕ) : Result Handover → Type 0 where
  shut : (n : ℕ) → close n ≡ ok tt → Closing close code (ok (closed code))
  gone : (n : ℕ) (e : Exn) → close n ≡ err e → Closing close code (err e)

-- How the endpoint ends.
pub data Admitted {W : Type 0} (close : Closes) (allowed : Bool) (hash_of : String → String)
    (user_id : Option String) (s : Manager W) : Result Handover → Manager W → Type 0 where
  away :
      (r : Result Handover)
      → (allowed ≡ false) ⊎ (truthy user_id ≡ none)
      → Closing close 1008 r
      → Admitted close allowed hash_of user_id s r s
  no_pod :
      (r : Result Handover) (s' : Manager W)
      → allowed ≡ true
      → Closing close 1011 r
      → Admitted close allowed hash_of user_id s r s'
  inside :
      (name : String) (t : TerminalPod) (s' : Manager W)
      → allowed ≡ true
      → truthy user_id ≡ some name
      → IsOwn (hash_of name) t
      → Dict.get (hash_of name) s'.pods ≡ some t
      → Admitted close allowed hash_of user_id s (ok (handed t)) s'

module _ {W : Type 0} ⦃env : Env W⦄ (close : Closes) where
  abbrev seeking : String → Exec (Manager W) Handover
  seeking name =
      attempt (get_terminal_for_user name >>= λ terminal. pure (handed terminal)) (closed_by close)
