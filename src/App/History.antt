-- ===== src/App/History.antt =====
-- The application over any sequence of requests, checks and background rounds.
use open_terminal_k8s_proxy.Base.{
  ◌≡◌, String, List, [], ◌∷◌, arith, All, ◌++◌, ap, subst, sym, ◌∙◌, refl, some, append_assoc, inl,
  inr,
}
use open_terminal_k8s_proxy.Base.Exec.{
  Exec, modify, swallow, Preserves, Preserves-swallow, ok, Exec-cases,
}
use open_terminal_k8s_proxy.App.{App, Route, WebRequest, on_manager}
use open_terminal_k8s_proxy.App.Lifespan.{startup}
use open_terminal_k8s_proxy.App.Middleware.{Integer, serve}
use open_terminal_k8s_proxy.App.Status.{health, metrics}
use open_terminal_k8s_proxy.Http.{Network, Upstream, upstream}
use open_terminal_k8s_proxy.Kube.{Env}
use open_terminal_k8s_proxy.PodManager.{Manager}
use open_terminal_k8s_proxy.PodManager.History.{Task, start, perform, IsSound-perform}
use open_terminal_k8s_proxy.PodManager.Spec.{IsSound}
use open_terminal_k8s_proxy.PodManager.Upkeep.{sound_rules, IsSound-reconcile_existing_pods}
use open_terminal_k8s_proxy.App.Orderly.{
  IsOrderly, IsServed, IsOrderly-on_manager, IsOrderly-health, IsOrderly-metrics, serve-IsServed,
}
use open_terminal_k8s_proxy.App.Forwarding.{nothing, one, url_at, address_of}
use open_terminal_k8s_proxy.Access.{verify_api_key}
use open_terminal_k8s_proxy.Base.Dict
use open_terminal_k8s_proxy.Models.{TerminalPod, user_id_to_hash}
use open_terminal_k8s_proxy.PodManager.Creation.{IsOwn}

-- What the application does, one at a time.
pub data Event : Type 0 where
  serves : WebRequest → Route → Event
  rounds : Task → Event
  checks scrapes : Event

IsSound-start : {W : Type 0} ⦃env : Env W⦄ → Preserves {S = Manager W} IsSound (modify start)
unfolding start modify
IsSound-start = record { at = λ s v. IsSound-reconcile_existing_pods.at s v }

swallow-state : {S A : Type 0} (m : Exec S A) (s : S) → (swallow m s).1 ≡ (m s).1
unfolding swallow
swallow-state m s = elim (Exec-cases m s) [ inl (a, e) ↦ rw e refl | inr (x, e) ↦ rw e refl ]

module _ {W : Type 0} ⦃env : Env W⦄ ⦃net : Network W⦄ (int : String → Integer) (key : String) where
  unfoldable pub happen : Event → Exec (App W) Unit
  happen (serves request route) = swallow (serve int key request route)
  happen (rounds task) = on_manager (perform task)
  happen checks = swallow health
  happen scrapes = swallow metrics

  unfoldable pub happen_all : List Event → App W → App W
  happen_all [] s = s
  happen_all (e ∷ es) s = happen_all es (happen e s).1

  happen_all-append :
      (es fs : List Event) (s : App W) → happen_all (es ++ fs) s ≡ happen_all fs (happen_all es s)
  unfolding happen_all
  happen_all-append [] fs s = refl
  happen_all-append (e ∷ es) fs s = happen_all-append es fs (happen e s).1

  -- What one event leaves: a request of a route, what `Forwarded` says, and any other event sends
  -- nothing to a pod.
  abbrev pub Left : Event → App W → App W → Type 0
  Left (serves request route) s s' = IsServed key route request s s'
  Left (rounds task) s s' = IsOrderly s.proxy.sent s'
  Left checks s s' = IsOrderly s.proxy.sent s'
  Left scrapes s s' = IsOrderly s.proxy.sent s'

  pub happen-Left : (e : Event) (s : App W) → IsSound s.manager → Left e s (happen e s).1
  unfolding happen
  happen-Left (serves request route) s v =
      subst (IsServed key route request s) (sym (swallow-state (serve int key request route) s))
        (serve-IsServed int key request route s v)
  happen-Left (rounds task) s v =
      (IsOrderly-on_manager s.proxy.sent _ (IsSound-perform task)).at s
        (record { manager = v; same = refl })
  happen-Left checks s v =
      (Preserves-swallow _ (IsOrderly-health s.proxy.sent)).at s
        (record { manager = v; same = refl })
  happen-Left scrapes s v =
      (Preserves-swallow _ (IsOrderly-metrics s.proxy.sent)).at s
        (record { manager = v; same = refl })

  pub happen-IsSound : (e : Event) (s : App W) → IsSound s.manager → IsSound (happen e s).1.manager
  happen-IsSound (serves request route) s v = (happen-Left (serves request route) s v).manager
  happen-IsSound (rounds task) s v = (happen-Left (rounds task) s v).manager
  happen-IsSound checks s v = (happen-Left checks s v).manager
  happen-IsSound scrapes s v = (happen-Left scrapes s v).manager

  -- Of the events from the state `s` on, one is a request of a route that names a user and passes the
  -- check of the key, and `up` goes to the route's path at the address of the user's hash, with the
  -- request's parts and with the key of the pod that is tracked under the hash right after that event.
  pub record IsOwed (es : List Event) (s : App W) (up : Upstream) : Type 0 where
    pub earlier : List Event
    pub request : WebRequest
    pub route : Route
    pub later : List Event
    pub event : earlier ++ (serves request route ∷ later) ≡ es
    pub credentials : String
    pub allowed : verify_api_key key request.credentials ≡ ok credentials
    pub user_id : String
    pub named : request.user_id ≡ some user_id
    pub pod : TerminalPod
    pub own : IsOwn (user_id_to_hash env.codecs user_id) pod
    pub tracked :
        Dict.get
          (user_id_to_hash env.codecs user_id)
          (happen_all (earlier ++ (serves request route ∷ [])) s).manager.pods
        ≡ some pod
    pub sent :
        up
        ≡ upstream net.text
            (url_at route request (address_of (user_id_to_hash env.codecs user_id)))
            request.incoming
            pod.api_key

  -- The state after the first events of `es`, from the state `first` on.
  record IsReached (es : List Event) (first : App W) (done : List Event) (s : App W) : Type 0 where
    reached : happen_all done first ≡ s
    sound : IsSound s.manager
    owed : All (IsOwed es first) s.proxy.sent

  module _ (es : List Event) (first : App W) where
    next-reached :
        (done : List Event) (e : Event) (s : App W)
        → happen_all done first ≡ s
        → happen_all (done ++ (e ∷ [])) first ≡ (happen e s).1
    unfolding happen_all
    next-reached done e s h = happen_all-append done (e ∷ []) first ∙ ap (λ t. (happen e t).1) h

    owed-same : (l l' : List Upstream) → l' ≡ l → All (IsOwed es first) l → All (IsOwed es first) l'
    owed-same l l' e a = subst (All (IsOwed es first)) (sym e) a

    owed-Left :
        (done : List Event) (e : Event) (rest : List Event) (s s' : App W)
        → done ++ (e ∷ rest) ≡ es
        → happen_all (done ++ (e ∷ [])) first ≡ s'
        → Left e s s'
        → All (IsOwed es first) s.proxy.sent
        → All (IsOwed es first) s'.proxy.sent
    owed-Left done (rounds task) rest s s' split here left a = owed-same _ _ left.same a
    owed-Left done checks rest s s' split here left a = owed-same _ _ left.same a
    owed-Left done scrapes rest s s' split here left a = owed-same _ _ left.same a
    owed-Left done (serves request route) rest s s' split here left a = elim left.forwarded [
      | nothing e ↦ owed-same _ _ e a
      | one k u t allowed named (own, tracked, e) ↦ owed-same _ _ e (
        record {
          earlier = done;
          request = request;
          route = route;
          later = rest;
          event = split;
          credentials = k;
          allowed = allowed;
          user_id = u;
          named = named;
          pod = t;
          own = own;
          tracked = ap (λ x. Dict.get (user_id_to_hash env.codecs u) x.manager.pods) here ∙ tracked;
          sent = refl;
        },
        a,
      )
    ]

    all-reached :
        (done rest : List Event) (s : App W)
        → done ++ rest ≡ es
        → IsReached es first done s
        → IsSound (happen_all rest s).manager × All (IsOwed es first) (happen_all rest s).proxy.sent
    unfolding happen_all
    all-reached done [] s split h = (h.sound, h.owed)
    all-reached done (e ∷ rest) s split h =
        let here = next-reached done e s h.reached in
        all-reached (done ++ (e ∷ [])) rest (happen e s).1 (append_assoc done (e ∷ []) rest ∙ split)
          (record {
            reached = here;
            sound = happen-IsSound e s h.sound;
            owed =
                owed-Left done e rest s (happen e s).1 split here (happen-Left e s h.sound) h.owed;
          })

  IsOrderly-startup : (sent : List Upstream) → Preserves (IsOrderly {W = W} sent) startup
  unfolding startup
  IsOrderly-startup sent = search (sound_rules, IsOrderly-on_manager, IsSound-start) depth 12

  -- The start of the application with nothing tracked.
  pub startup-IsOrderly : (s : App W) → s.manager.pods ≡ [] → IsOrderly s.proxy.sent (startup s).1
  startup-IsOrderly s empty = (IsOrderly-startup s.proxy.sent).at s (record {
    manager = record { distinct = ground (arith, empty); own = ground (arith, empty) };
    same = refl;
  })

  -- After the application's start with nothing tracked and nothing sent, and any sequence of requests
  -- on the routes, health checks, scrapes of the metrics and background rounds, whatever the cluster
  -- and the pods answer: the tracked pods are sound, and every request that was sent to a pod stems
  -- from a request of the sequence that names a user and passes the check of the key; it went to that
  -- request's route, at the address of its user's hash, with the key of the running pod that was
  -- tracked under the hash right after that request.
  pub run-IsOrderly :
      (es : List Event) (s : App W)
      → s.manager.pods ≡ []
      → s.proxy.sent ≡ []
      → IsSound (happen_all es (startup s).1).manager
        × All (IsOwed es (startup s).1) (happen_all es (startup s).1).proxy.sent
  unfolding happen_all
  run-IsOrderly es s empty unsent =
      let begun = startup-IsOrderly s empty in
      let none_sent : (startup s).1.proxy.sent ≡ [] = begun.same ∙ unsent in
      all-reached es (startup s).1 [] es (startup s).1 refl (record {
        reached = refl;
        sound = begun.manager;
        owed = owed-same es (startup s).1 [] _ none_sent tt;
      })
