-- ===== src/App/Shutdown.antt =====
-- The whole of `lifespan` of terminal_proxy/main.py: the application with its background tasks, the
-- WebSocket endpoint and the session of its proxy, from the start to the end of the shutdown.
pub mod Quiet
pub mod Closing
use open_terminal_k8s_proxy.Base.{
  ◌≡◌, refl, Bool, String, Option, none, some, List, [], ◌∷◌, ◌++◌, if◌then◌else◌,
}
use open_terminal_k8s_proxy.Base.Dict.{Dict}
use open_terminal_k8s_proxy.Base.Exec.{Result, ok, err}
use open_terminal_k8s_proxy.Access.Socket.{Handover, Closes, handed, closed, websocket_terminal}
use open_terminal_k8s_proxy.App.{App, on_proxy, on_manager}
use open_terminal_k8s_proxy.App.History as History
use open_terminal_k8s_proxy.App.History.{Event, serves, rounds, checks, scrapes}
use open_terminal_k8s_proxy.App.Lifespan.{startup}
use open_terminal_k8s_proxy.App.Middleware.{Integer}
use open_terminal_k8s_proxy.Http as Http
use open_terminal_k8s_proxy.Http.{Network}
use open_terminal_k8s_proxy.Json.{Json}
use open_terminal_k8s_proxy.Kube.{Env}
use open_terminal_k8s_proxy.PodManager.Background.{
  Live, all_tasks, no_cleanup, only_pvcs, all_ended, happen_all, stop, kept,
}
use open_terminal_k8s_proxy.PodManager.History.{request, cleanup, health, pvcs}
use open_terminal_k8s_proxy.PodManager.Interleaving.{Round}
use open_terminal_k8s_proxy.PodManager.Interleaving as Interleaving
use open_terminal_k8s_proxy.WebSocket.Sessions.{
  Sessions, no_sessions, get_session, closes, begin_close, end_close,
}

pub record Service (W : Type 0) : Type 0 where
  pub app : App W
  pub sessions : Sessions

-- What comes from outside or from the loops, and a client of the WebSocket endpoint with the ends of
-- the calls that close it, its first message and the `user_id` of its query.
pub data Activity : Type 0 where
  does : Event → Activity
  opens : Closes → Option String → Option String → Activity

abbrev pub round_of : Activity → Option Round
round_of (does (rounds cleanup)) = some Interleaving.cleanup
round_of (does (rounds health)) = some Interleaving.health
round_of (does (rounds pvcs)) = some Interleaving.pvcs
round_of (does (rounds (request user_id))) = none
round_of (does (serves asked route)) = none
round_of (does checks) = none
round_of (does scrapes) = none
round_of (opens close first user_id) = none

-- The session is asked for once the endpoint has handed its socket over.
abbrev pub connected : Bool → Result Handover → Sessions → Sessions
connected early (ok (handed terminal)) p = get_session early p
connected early (ok (closed code)) p = p
connected early (err e) p = p

-- What happens of the events before the shutdown and at the waits of `stop`.
abbrev pub happened : List Activity → List Activity → List Activity → List Activity → List Activity
happened before first second third =
    before
    ++ (kept round_of no_cleanup first
        ++ (kept round_of only_pvcs second ++ kept round_of all_ended third))

module _ {W : Type 0} ⦃env : Env W⦄ where
  -- Up to the `yield`.
  unfoldable pub started : App W → Live (Service W)
  started s = record {
    state = record { app = (startup s).1; sessions = no_sessions };
    tasks = all_tasks;
  }

module _ {W : Type 0} ⦃env : Env W⦄ ⦃net : Network W⦄ (int : String → Integer)
    (loads : String → Option (Dict Json)) (early : Bool) (key : String) where
  unfoldable pub act : Activity → Service W → Service W
  act (does e) v = record v { app = (History.happen int key e v.app).1 }
  act (opens close first user_id) v =
      let (ending, app) = on_manager (websocket_terminal loads close key first user_id) v.app in
      record { app = app; sessions = connected early ending v.sessions }

  -- `http_proxy.close()`, with the events at its wait for `aclose`.
  unfoldable pub close_client : List Activity → Live (Service W) → Live (Service W)
  close_client es y =
      let z = happen_all round_of act es y in
      if y.state.app.proxy.has_client
      then record z { state = record z.state { app = (on_proxy Http.end_close z.state.app).1 } }
      else y

  -- `ws_proxy.close()`, with those at its wait for the session's `close`.
  unfoldable pub close_session : List Activity → Live (Service W) → Live (Service W)
  close_session es y =
      let begun = record y { state = record y.state { sessions = begin_close y.state.sessions } } in
      let z = happen_all round_of act es begun in
      if closes y.state.sessions.made
      then record z { state = record z.state { sessions = end_close z.state.sessions } }
      else y

  -- From the `yield` on, with what happens at the three waits of `stop` and at the two after them.
  unfoldable pub shutdown :
      List Activity
      → List Activity
      → List Activity
      → List Activity
      → List Activity
      → Live (Service W)
      → Live (Service W)
  shutdown first second third fourth fifth y =
      close_session fifth (close_client fourth (stop round_of act first second third y))
