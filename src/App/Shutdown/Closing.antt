-- ===== src/App/Shutdown/Closing.antt =====
-- What the end of `lifespan` leaves.
use open_terminal_k8s_proxy.Base.{
  ◌≡◌, refl, ◌∙◌, sym, subst, Bool, true, false, String, Option, List, [], ◌∷◌, All, Bool-cases,
  inl, inr, if◌then◌else◌,
}
use open_terminal_k8s_proxy.Base.Dict.{Dict}
use open_terminal_k8s_proxy.Base.Exec.{modify, on}
use open_terminal_k8s_proxy.App.{App}
use open_terminal_k8s_proxy.App.History.{startup-IsOrderly}
use open_terminal_k8s_proxy.App.Lifespan.{startup}
use open_terminal_k8s_proxy.App.Middleware.{Integer}
use open_terminal_k8s_proxy.App.Shutdown.{
  Service, Activity, round_of, happened, started, act, close_client, close_session, shutdown,
}
use open_terminal_k8s_proxy.Http as Http
use open_terminal_k8s_proxy.Http.{Network}
use open_terminal_k8s_proxy.Json.{Json}
use open_terminal_k8s_proxy.Kube.{Env}
use open_terminal_k8s_proxy.PodManager.Background.{
  Live, allows, all_ended, happen, happen_all, stop, replay, kept, stop_lem,
}
use open_terminal_k8s_proxy.PodManager.Interleaving.{Round}
use open_terminal_k8s_proxy.PodManager.Spec.{IsSound}
use open_terminal_k8s_proxy.WebSocket.Sessions.{
  IsClosed, no_sessions, closes, begin_close, end_close, end_close-IsClosed, idle-IsClosed,
}
use open_terminal_k8s_proxy.App.Shutdown.Quiet.{
  IsQuiet, IsProper, IsStill, IsProper-act, IsStill-act,
}

-- What the end of the shutdown leaves: no loop, no HTTP client and no session, and sound pods.
pub record IsDown {W : Type 0} (y : Live (Service W)) : Type 0 where
  pub tasks : y.tasks ≡ all_ended
  pub client : y.state.app.proxy.has_client ≡ false
  pub sessions : All IsClosed y.state.sessions.made
  pub sound : IsSound y.state.app.manager

module _ {S E : Type 0} (round_of : E → Option Round) (step : E → S → S) (Q : E → Type 0)
    (P : S → Type 0) (each : (e : E) (s : S) → Q e → P s → P (step e s)) where
  happen_all-keeps :
      (es : List E) (y : Live S)
      → All Q es
      → P y.state
      → P (happen_all round_of step es y).state × ((happen_all round_of step es y).tasks ≡ y.tasks)
  unfolding happen_all happen
  happen_all-keeps [] y q p = (p, refl)
  happen_all-keeps (e ∷ es) y (q, qs) p = elim (Bool-cases (allows y.tasks (round_of e))) [
    | inl runs ↦
        rw (runs, happen_all, happen)
          (happen_all-keeps es (record y { state = step e y.state }) qs (each e y.state q p))
    | inr ends ↦ rw (ends, happen_all, happen) (happen_all-keeps es y qs p)
  ]

if-holds :
    {A : Type 0} (P : A → Type 0) (b : Bool) (x y : A)
    → (b ≡ true → P x)
    → (b ≡ false → P y)
    → P (if b then x else y)
if-holds P true x y then_case else_case = then_case refl
if-holds P false x y then_case else_case = else_case refl

all-any : {E : Type 0} (es : List E) → All (λ e. Unit {0}) es
all-any [] = tt
all-any (e ∷ es) = (tt, all-any es)

module _ {W : Type 0} ⦃env : Env W⦄ ⦃net : Network W⦄ (int : String → Integer)
    (loads : String → Option (Dict Json)) (early : Bool) (key : String) where
  abbrev run : List Activity → Live (Service W) → Live (Service W)
  run = happen_all round_of (act int loads early key)

  IsProper-run :
      (es : List Activity) (y : Live (Service W))
      → IsProper y.state
      → IsProper (run es y).state × ((run es y).tasks ≡ y.tasks)
  IsProper-run es y h =
      happen_all-keeps round_of (act int loads early key) (λ e. Unit {0}) IsProper
        (λ e s q p. IsProper-act int loads early key e s p) es y (all-any es) h

  IsProper-replay :
      (es : List Activity) (v : Service W)
      → IsProper v
      → IsProper (replay (act int loads early key) es v)
  unfolding replay
  IsProper-replay [] v h = h
  IsProper-replay (e ∷ es) v h =
      IsProper-replay es (act int loads early key e v) (IsProper-act int loads early key e v h)

  -- After `http_proxy.close()` there is no client.
  record IsCut (y : Live (Service W)) : Type 0 where
    proper : IsProper y.state
    client : y.state.app.proxy.has_client ≡ false
    tasks : y.tasks ≡ all_ended

  close_client-IsCut :
      (es : List Activity) (y : Live (Service W))
      → IsProper y.state
      → y.tasks ≡ all_ended
      → IsCut (close_client int loads early key es y)
  unfolding close_client on modify Http.end_close
  close_client-IsCut es y h over =
      let (kept, same) = IsProper-run es y h in
      if-holds IsCut y.state.app.proxy.has_client _ y
        (λ there. record {
          proper = record {
            sound = record { distinct = kept.sound.distinct; own = kept.sound.own };
            found = kept.found;
          };
          client = refl;
          tasks = same ∙ over;
        })
        (λ none_there. record { proper = h; client = none_there; tasks = over })

  close_session-IsDown :
      (es : List Activity) (y : Live (Service W))
      → All IsQuiet es
      → IsCut y
      → IsDown (close_session int loads early key es y)
  unfolding close_session
  close_session-IsDown es y quiet h =
      let p = begin_close y.state.sessions in
      let begun : Live (Service W) = record y { state = record y.state { sessions = p } } in
      let (kept, same) =
        happen_all-keeps round_of (act int loads early key) IsQuiet (IsStill false p)
          (IsStill-act int loads early key false p) es begun quiet
          (record { sound = h.proper.sound; client = h.client; sessions = refl }) in
      if-holds IsDown (closes y.state.sessions.made) _ y
        (λ alive. record {
          tasks = same ∙ h.tasks;
          client = kept.client;
          sessions =
              subst (λ q. All IsClosed (end_close q).made) (sym kept.sessions)
                (end_close-IsClosed y.state.sessions h.proper.found);
          sound = kept.sound;
        })
        (λ idle. record {
          tasks = h.tasks;
          client = h.client;
          sessions = idle-IsClosed y.state.sessions.made h.proper.found idle;
          sound = h.proper.sound;
        })

  -- From a start with nothing tracked, through any requests, WebSocket clients, checks and rounds,
  -- also at the waits of the shutdown, where at the last one, for the session, there are only checks
  -- and rounds; whatever the cluster and the pods answer. `stop` leaves what the events left, of which
  -- a round counts if its task was not cancelled before it; and when the shutdown has ended, no
  -- background task, no HTTP client and no session of the WebSocket proxy is left, and the tracked
  -- pods are sound.
  pub lifespan_lem :
      (before first second third fourth fifth : List Activity) (s : App W)
      → s.manager.pods ≡ []
      → All IsQuiet fifth
      → let y = happen_all round_of (act int loads early key) before (started s) in
        let stopped : Live (Service W) = record {
          state =
              replay
                (act int loads early key)
                (happened before first second third)
                (started s).state;
          tasks = all_ended;
        } in
        (stop round_of (act int loads early key) first second third y ≡ stopped)
        × IsDown (shutdown int loads early key first second third fourth fifth y)
  unfolding shutdown started
  lifespan_lem before first second third fourth fifth s empty quiet =
      let begun : Service W = record { app = (startup s).1; sessions = no_sessions } in
      let proper =
        IsProper-replay (happened before first second third) begun
          (record { sound = (startup-IsOrderly int key s empty).manager; found = tt }) in
      let here = stop_lem round_of (act int loads early key) before first second third begun in
      (here, rw here (close_session-IsDown fifth _ quiet (close_client-IsCut fourth _ proper refl)))
