-- ===== src/App/Orderly.antt =====
-- What the application's steps leave of the tracked pods, and what they send to the pods.
use open_terminal_k8s_proxy.Base.Dict
use open_terminal_k8s_proxy.Base.{List, ◌∷◌, ap, ◌∙◌, Bool-cases, ◌≡◌, refl, String, inl, inr}
use open_terminal_k8s_proxy.Base.Exec.{
  Exec, Exec-cases, modify, on, Preserves, Preserves-attempt, preserving,
}
use open_terminal_k8s_proxy.Access.Terminal.{IsSound-get_terminal_for_user}
use open_terminal_k8s_proxy.App.{App, Route, WebRequest, Reply, on_manager, on_proxy}
use open_terminal_k8s_proxy.App.Admission.{Preserves-dependencies}
use open_terminal_k8s_proxy.App.Forwarding.{
  Forwarded, nothing, one, url_at, address_of, route_request-Forwarded, handler_lem, handled-still,
}
use open_terminal_k8s_proxy.App.Middleware.{Integer, size_of, clock, rate_limit_middleware, serve}
use open_terminal_k8s_proxy.App.Middleware.Gate.{
  Size-cases, decided, onward, limited, passed, broke, fitting, oversized, unread,
}
use open_terminal_k8s_proxy.App.Routes.{handler, route_request}
use open_terminal_k8s_proxy.App.Status.{refresh, health, metrics}
use open_terminal_k8s_proxy.Http.{Network, Proxy, Upstream, upstream}
use open_terminal_k8s_proxy.Kube.{Env}
use open_terminal_k8s_proxy.Models.{user_id_to_hash}
use open_terminal_k8s_proxy.PodManager.{Manager}
use open_terminal_k8s_proxy.PodManager.Methods.{get_stats}
use open_terminal_k8s_proxy.PodManager.Spec.{IsSound}
use open_terminal_k8s_proxy.PodManager.Upkeep.{sound_rules}

-- The tracked pods are sound.
record IsTidy {W : Type 0} (s : App W) : Type 0 where
  manager : IsSound s.manager

module _ {W : Type 0} where
  IsTidy-on_manager :
      {A : Type 0} (act : Exec (Manager W) A)
      → Preserves IsSound act
      → Preserves IsTidy (on_manager act)
  unfolding on
  IsTidy-on_manager act kept = record {
    at = λ s h. record { manager = kept.at s.manager h.manager };
  }

  IsTidy-on_proxy : {A : Type 0} (act : Exec (Proxy W) A) → Preserves IsTidy (on_proxy act)
  unfolding on
  IsTidy-on_proxy act = record {
    at = λ s h. record { manager = record { distinct = h.manager.distinct; own = h.manager.own } };
  }

module _ {W : Type 0} ⦃env : Env W⦄ ⦃net : Network W⦄ where
  IsTidy-handler :
      (request : WebRequest) (route : Route) (user_id : String)
      → Preserves (IsTidy {W = W}) (handler request route user_id)
  IsTidy-handler request route user_id =
      rw (handler_lem request route user_id)
        (search (preserving, IsTidy-on_manager, IsTidy-on_proxy, IsSound-get_terminal_for_user))

  IsTidy-route_request :
      (request : WebRequest) (key : String) (route : Route)
      → Preserves (IsTidy {W = W}) (route_request request key route)
  unfolding route_request
  IsTidy-route_request request key route =
      Preserves-attempt _ _ (search (preserving, Preserves-dependencies, IsTidy-handler))
        (λ x. record { at = λ s h. rw (handled-still x s) h })

-- What the application does besides its routes keeps the tracked pods sound, and sends nothing to a
-- pod: `sent` is what was sent.
pub record IsOrderly {W : Type 0} (sent : List Upstream) (s : App W) : Type 0 where
  pub manager : IsSound s.manager
  pub same : s.proxy.sent ≡ sent

module _ {W : Type 0} ⦃env : Env W⦄ ⦃net : Network W⦄ (sent : List Upstream) where
  abbrev Ordered : App W → Type 0
  Ordered = IsOrderly sent

  pub IsOrderly-on_manager :
      {A : Type 0} (act : Exec (Manager W) A)
      → Preserves IsSound act
      → Preserves Ordered (on_manager act)
  unfolding on
  IsOrderly-on_manager act kept = record {
    at = λ s h. record { manager = kept.at s.manager h.manager; same = h.same };
  }

  IsOrderly-refresh : Preserves Ordered refresh
  unfolding refresh modify
  IsOrderly-refresh = record { at = λ s h. record { manager = h.manager; same = h.same } }

  pub IsOrderly-health : Preserves Ordered health
  unfolding health get_stats
  IsOrderly-health = search (sound_rules, IsOrderly-on_manager, IsOrderly-refresh) depth 12

  pub IsOrderly-metrics : Preserves Ordered metrics
  unfolding metrics get_stats
  IsOrderly-metrics = search (sound_rules, IsOrderly-on_manager, IsOrderly-refresh) depth 12

-- The tracked pods are sound, and what a request of the route changes is `Forwarded`.
pub record IsServed {W : Type 0} ⦃env : Env W⦄ ⦃net : Network W⦄ (key : String) (route : Route)
    (request : WebRequest) (before after : App W) : Type 0 where
  pub manager : IsSound after.manager
  pub forwarded : Forwarded key route request before after

Forwarded-frame :
    {W : Type 0} ⦃env : Env W⦄ ⦃net : Network W⦄ (key : String) (route : Route)
    (request : WebRequest) (a b a' b' : App W)
    → a.proxy.sent ≡ a'.proxy.sent
    → b'.proxy.sent ≡ b.proxy.sent
    → b'.manager.pods ≡ b.manager.pods
    → Forwarded key route request a b
    → Forwarded key route request a' b'
Forwarded-frame key route request a b a' b' first last pods (nothing e) = nothing (last ∙ e ∙ first)
Forwarded-frame ⦃env = env⦄ ⦃net = net⦄ key route request a b a' b' first last pods
      (one k u t allowed named (own, tracked, e)) =
    one k u t allowed named (
      own,
      ap (λ d. Dict.get (user_id_to_hash env.codecs u) d) pods ∙ tracked,
      last
          ∙ e
          ∙ ap
              (λ l.
                upstream net.text (url_at route request (address_of (user_id_to_hash env.codecs u)))
                  request.incoming t.api_key
                ∷ l)
              first,
    )

module _ {W : Type 0} ⦃env : Env W⦄ ⦃net : Network W⦄ (int : String → Integer) (key : String)
    (request : WebRequest) (route : Route) (s : App W) (sound : IsSound s.manager) where
  abbrev Serves : App W → Type 0
  Serves = IsServed key route request s

  still : IsSound (onward request s).manager
  unfolding clock
  still = record { distinct = sound.distinct; own = sound.own }

  routed :
      IsServed key route request
        (onward request s)
        (route_request request key route (onward request s)).1
  routed = record {
    manager =
        ((IsTidy-route_request request key route).at (onward request s)
          (record { manager = still })).manager;
    forwarded = route_request-Forwarded key route request (onward request s) still;
  }

  abbrev after : App W
  after = (route_request request key route (onward request s)).1

  through :
      (s' : App W)
      → s'.proxy.sent ≡ after.proxy.sent
      → s'.manager.pods ≡ after.manager.pods
      → IsSound s'.manager
      → Serves s'
  unfolding clock
  through s' sent pods v = record {
    manager = v;
    forwarded =
        Forwarded-frame key route request (onward request s) after s s' refl sent pods
          routed.forwarded;
  }

  quiet : (s' : App W) → s'.proxy.sent ≡ s.proxy.sent → IsSound s'.manager → Serves s'
  quiet s' e v = record { manager = v; forwarded = nothing e }

  -- Also through the middleware.
  pub serve-IsServed : Serves (serve int key request route s).1
  unfolding serve clock
  serve-IsServed =
      let inner : Exec (App W) Reply = route_request request key route in
      let next : Exec (App W) Reply = rate_limit_middleware request inner in
      elim (Size-cases (size_of int request)) [
        | inr (inl large) ↦ rw (oversized int request next s large) (quiet _ refl sound)
        | inr (inr bad) ↦ rw (unread int request next s bad) (quiet _ refl sound)
        | inl fits ↦ elim (Bool-cases (decided request s).0) [
          | inr shut ↦
              rw (fitting int request next s fits, limited request inner s shut)
                (quiet _ refl (record { distinct = sound.distinct; own = sound.own }))
          | inl allowed ↦ elim (Exec-cases inner (onward request s)) [
            | inl (r, e) ↦
                rw (fitting int request next s fits, passed request inner s _ r allowed e)
                  (through _ refl refl
                    (record { distinct = routed.manager.distinct; own = routed.manager.own }))
            | inr (x, e) ↦
                rw (fitting int request next s fits, broke request inner s _ x allowed e)
                  (through _ refl refl routed.manager)
          ]
        ]
      ]
