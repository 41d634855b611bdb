-- ===== src/App/Shutdown/Quiet.antt =====
-- What the events keep: all of them sound pods and no lost session, and those that ask for neither the
-- HTTP client nor the session also these two.
use open_terminal_k8s_proxy.Base.{◌≡◌, Bool, String, Option, truthy, Option-cases, inl, inr}
use open_terminal_k8s_proxy.Base.Dict.{Dict}
use open_terminal_k8s_proxy.Base.Exec.{
  Exn, http_exception, k8s_unavailable, Result, ok, err, Exec, modify, on, Preserves, preserving,
  Preserves-swallow,
}
use open_terminal_k8s_proxy.Access.Socket.{
  Handover, Closes, handed, closed, closed_by, turned_away, admitted, websocket_terminal,
}
use open_terminal_k8s_proxy.Access.Terminal.{IsSound-get_terminal_for_user}
use open_terminal_k8s_proxy.App.{App, on_manager}
use open_terminal_k8s_proxy.App.History as History
use open_terminal_k8s_proxy.App.History.{
  Event, serves, rounds, checks, scrapes, happen-IsSound, startup-IsOrderly,
}
use open_terminal_k8s_proxy.App.Middleware.{Integer}
use open_terminal_k8s_proxy.App.Shutdown.{Service, Activity, does, opens, connected, act}
use open_terminal_k8s_proxy.App.Status as Status
use open_terminal_k8s_proxy.Http.{Network}
use open_terminal_k8s_proxy.Json.{Json}
use open_terminal_k8s_proxy.Kube.{Env}
use open_terminal_k8s_proxy.PodManager.{Manager}
use open_terminal_k8s_proxy.PodManager.Methods.{get_stats}
use open_terminal_k8s_proxy.PodManager.Spec.{IsSound}
use open_terminal_k8s_proxy.PodManager.Upkeep.{sound_rules}
use open_terminal_k8s_proxy.WebSocket.Sessions.{Sessions, NoneLost, get_session-NoneLost}

-- Nothing that asks for the HTTP client or for the session: no request of a route, and no client of
-- the WebSocket endpoint.
abbrev pub IsQuiet : Activity → Type 0
IsQuiet (does (serves asked route)) = ⊥
IsQuiet (does (rounds task)) = Unit
IsQuiet (does checks) = Unit
IsQuiet (does scrapes) = Unit
IsQuiet (opens close first user_id) = ⊥

-- The tracked pods are sound, and of the sessions at most the proxy's own is open.
pub record IsProper {W : Type 0} (v : Service W) : Type 0 where
  pub sound : IsSound v.app.manager
  pub found : NoneLost v.sessions.made

connected-NoneLost :
    (early : Bool) (r : Result Handover) (p : Sessions)
    → NoneLost p.made
    → NoneLost (connected early r p).made
connected-NoneLost early (ok (handed t)) p h = get_session-NoneLost early p h
connected-NoneLost early (ok (closed code)) p h = h
connected-NoneLost early (err e) p h = h

-- The client is there or not, as `b` says.
record HasClient {W : Type 0} (b : Bool) (s : App W) : Type 0 where
  client : s.proxy.has_client ≡ b

-- A quiet event leaves the sessions, and the client as it is, and the pods sound.
pub record IsStill {W : Type 0} (b : Bool) (p : Sessions) (v : Service W) : Type 0 where
  pub sound : IsSound v.app.manager
  pub client : v.app.proxy.has_client ≡ b
  pub sessions : v.sessions ≡ p

module _ {W : Type 0} ⦃env : Env W⦄ where
  IsSound-closed_by :
      (close : Closes) (e : Exn) → Preserves {S = Manager W} IsSound (closed_by close e)
  unfolding closed_by
  IsSound-closed_by close (http_exception status) = record { at = λ s h. h }
  IsSound-closed_by close k8s_unavailable = record { at = λ s h. h }
  IsSound-closed_by close _ = search sound_rules

  IsSound-admitted :
      (loads : String → Option (Dict Json)) (close : Closes) (user_id : Option String)
      → Preserves {S = Manager W} IsSound (admitted loads close user_id)
  unfolding admitted
  IsSound-admitted loads close user_id = elim (Option-cases (truthy user_id)) [
    | inl e ↦ rw (e, admitted) (record { at = λ s h. h })
    | inr (name, e) ↦
        rw (e, admitted) (search (sound_rules, IsSound-get_terminal_for_user, IsSound-closed_by))
  ]

  IsSound-websocket_terminal :
      (loads : String → Option (Dict Json)) (close : Closes) (key : String)
      (first user_id : Option String)
      → Preserves {S = Manager W} IsSound (websocket_terminal loads close key first user_id)
  unfolding websocket_terminal
  IsSound-websocket_terminal loads close key first user_id =
      elim (Option-cases (turned_away loads close key first)) [
        | inl e ↦ rw (e, websocket_terminal) (IsSound-admitted loads close user_id)
        | inr (r, e) ↦ rw (e, websocket_terminal) (record { at = λ s h. h })
      ]

  HasClient-on_manager :
      (b : Bool) {A : Type 0} (m : Exec (Manager W) A) → Preserves (HasClient b) (on_manager m)
  unfolding on
  HasClient-on_manager b m = record { at = λ s h. record { client = h.client } }

  HasClient-refresh : (b : Bool) → Preserves (HasClient {W = W} b) Status.refresh
  unfolding Status.refresh modify
  HasClient-refresh b = record { at = λ s h. record { client = h.client } }

module _ {W : Type 0} ⦃env : Env W⦄ ⦃net : Network W⦄ (int : String → Integer)
    (loads : String → Option (Dict Json)) (early : Bool) (key : String) where
  HasClient-happen :
      (b : Bool) (e : Event)
      → IsQuiet (does e)
      → Preserves (HasClient {W = W} b) (History.happen int key e)
  unfolding History.happen Status.health Status.metrics get_stats
  HasClient-happen b (serves asked route) q = absurd q
  HasClient-happen b (rounds task) q = HasClient-on_manager b _
  HasClient-happen b checks q =
      Preserves-swallow _ (search (preserving, HasClient-on_manager, HasClient-refresh) depth 12)
  HasClient-happen b scrapes q =
      Preserves-swallow _ (search (preserving, HasClient-on_manager, HasClient-refresh) depth 12)

  pub IsProper-act :
      (a : Activity) (v : Service W) → IsProper v → IsProper (act int loads early key a v)
  unfolding act on
  IsProper-act (does e) v h = record {
    sound = happen-IsSound int key e v.app h.sound;
    found = h.found;
  }
  IsProper-act (opens close first user_id) v h =
      let socket = websocket_terminal loads close key first user_id in
      record {
        sound = (IsSound-websocket_terminal loads close key first user_id).at v.app.manager h.sound;
        found = connected-NoneLost early (on_manager socket v.app).0 v.sessions h.found;
      }

  pub IsStill-act :
      (b : Bool) (p : Sessions) (a : Activity) (v : Service W)
      → IsQuiet a
      → IsStill b p v
      → IsStill b p (act int loads early key a v)
  unfolding act
  IsStill-act b p (does e) v q h = record {
    sound = happen-IsSound int key e v.app h.sound;
    client = ((HasClient-happen b e q).at v.app (record { client = h.client })).client;
    sessions = h.sessions;
  }
  IsStill-act b p (opens close first user_id) v q h = absurd q
