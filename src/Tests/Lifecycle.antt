-- ===== src/Tests/Lifecycle.antt =====
-- The theorems on the whole run of the application, on requests to pods at once, and on how the
-- manifests refer to one another, at concrete inputs.
use open_terminal_k8s_proxy.Base.{ℕ, false, ◌≡◌, refl, none, some, [], ◌∷◌, List, arith}
use open_terminal_k8s_proxy.Base.Exec.{httpx_connect, ok, err, ◌>>=◌}
use open_terminal_k8s_proxy.Base.Dict
use open_terminal_k8s_proxy.Breaker.Registry
use open_terminal_k8s_proxy.Breaker.Registry.{apply, changed}
use open_terminal_k8s_proxy.App.{Route}
use open_terminal_k8s_proxy.App.History.{serves, rounds, checks}
use open_terminal_k8s_proxy.App.Shutdown.{
  Service, Activity, does, opens, happened, act, started, shutdown, round_of,
}
use open_terminal_k8s_proxy.App.Shutdown.Closing.{IsDown, lifespan_lem}
use open_terminal_k8s_proxy.Breaker.{can_execute, record_success, step}
use open_terminal_k8s_proxy.Config.{Settings, shared}
use open_terminal_k8s_proxy.Http.{report, ask, permitted, get_client, upstream, Answer}
use open_terminal_k8s_proxy.Http.Concurrent.{
  sent, Traffic, Event, arrives, body_comes, answered, elapses, happen, happen_all,
}
use open_terminal_k8s_proxy.Http.Concurrent.Shut.{StaysShut, happen_all-StaysShut}
use open_terminal_k8s_proxy.Http.Parts.{land, send_out, depart}
use open_terminal_k8s_proxy.Models.{create, user_id_to_hash}
use open_terminal_k8s_proxy.PodBuilder.{Manifests, build_pod_for_user, choose_storage}
use open_terminal_k8s_proxy.PodBuilder.Wiring.{IsWired, build_pod_for_user-IsWired}
use open_terminal_k8s_proxy.PodBuilder.Claims.{build_secret_manifest}
use open_terminal_k8s_proxy.PodBuilder.Pods.{build_pod_manifest}
use open_terminal_k8s_proxy.PodBuilder.Services.{build_service_manifest}
use open_terminal_k8s_proxy.PodBuilder.Shared.{pod_labels, shared_pvc_name}
use open_terminal_k8s_proxy.PodManager.Background.{
  Live, all_ended, stop, happen_all as live_all, replay,
}
use open_terminal_k8s_proxy.PodManager.History.{cleanup, health}
use open_terminal_k8s_proxy.Tests.Application.{list_files, fresh_app, three_digits}
use open_terminal_k8s_proxy.Tests.Pods.{willing, alices}
use open_terminal_k8s_proxy.Tests.Sockets.{loads}
use open_terminal_k8s_proxy.Tests.Traffic.{down, listing, proxy, plain_text}
use open_terminal_k8s_proxy.Tests.World.{defaults, plain_codecs}

-- A request, a round and a WebSocket client before the shutdown; events at each of its waits.
abbrev before : List Activity
before =
    does (serves list_files Route.proxy_files_list)
    ∷ does (rounds cleanup)
    ∷ opens (λ n. ok tt) (some "proxy-key") (some "alice")
    ∷ []

abbrev first : List Activity
first = does (rounds cleanup) ∷ does (rounds health) ∷ []

abbrev second : List Activity
second = does (rounds health) ∷ does checks ∷ []

abbrev third : List Activity
third = does (serves list_files Route.proxy_files_list) ∷ []

abbrev fourth : List Activity
fourth = opens (λ n. ok tt) (some "proxy-key") (some "alice") ∷ third

abbrev fifth : List Activity
fifth = does checks ∷ []

abbrev act_of : Activity → Service ℕ → Service ℕ
act_of = act ⦃env = willing⦄ ⦃net = down⦄ three_digits loads false "proxy-key"

abbrev running : Live (Service ℕ)
running = live_all round_of act_of before (started ⦃env = willing⦄ fresh_app)

lifespan_lem_example :
    (stop round_of act_of first second third running ≡ record {
      state =
          replay act_of
            (happened before first second third)
            (started ⦃env = willing⦄ fresh_app).state;
      tasks = all_ended;
    })
    × IsDown (
        shutdown ⦃env = willing⦄ ⦃net = down⦄ three_digits loads false "proxy-key" first second
          third fourth fifth running)
lifespan_lem_example =
    lifespan_lem ⦃env = willing⦄ ⦃net = down⦄ three_digits loads false "proxy-key" before first
      second third fourth fifth fresh_app refl (tt, tt)

-- The circuit of `b` has opened at 100 while a request to `b` was under way; at 200 it is answered,
-- and another request comes.
abbrev late : Traffic ℕ
late = record {
  proxy = proxy;
  flights =
      (
        sent,
        record { key = some "b"; up = upstream plain_text "http://b:8000/ports" listing "key" },
      )
      ∷ [];
}

abbrev fine : Answer
fine = record { status_code = 200; headers = []; content_type = ""; content = "" }

abbrev arrivals : List (Event ℕ)
arrivals =
    answered 0 (ok fine)
    ∷ arrives "http://b:8000/ports" listing "key" (some "b")
    ∷ arrives "http://a:8000/ports" listing "key" (some "a")
    ∷ body_comes 1
    ∷ elapses 300
    ∷ answered 1 (err httpx_connect)
    ∷ []

happen_all-StaysShut_example : StaysShut 100 30000000 "b" 1 (happen_all ⦃net = down⦄ arrivals late)
unfolding happen land ◌>>=◌ report depart ask permitted can_execute Dict.get apply changed Dict.put
    Registry.get step record_success get_client send_out
happen_all-StaysShut_example =
    happen_all-StaysShut ⦃net = down⦄ 100 30000000 "b" 1 arrivals late
      (
        omega arith,
        omega arith,
        (
          omega arith,
          omega arith,
          (
            omega arith,
            omega arith,
            (omega arith, omega arith, (omega arith, omega arith, (omega arith, omega arith, tt))),
          ),
        ),
      )
      (record {
        shut = record {
          is_open = refl;
          failed_at = 100;
          failed = refl;
          late = omega arith;
          waits = refl;
        };
        through = refl;
      })

abbrev shared_settings : Settings
shared_settings = record defaults { storage_mode = shared }

abbrev shared_manifests : Manifests
shared_manifests = record {
  pod =
      build_pod_manifest alices shared_settings none (some shared_pvc_name) (some alices.user_hash)
        none (some alices.secret_name);
  pvc = none;
  secret =
      build_secret_manifest alices.secret_name alices.api_key (pod_labels shared_settings alices);
  service = build_service_manifest alices shared_settings;
}

build_pod_for_user-IsWired_example : IsWired plain_codecs shared alices shared_manifests
unfolding build_pod_for_user choose_storage create user_id_to_hash
build_pod_for_user-IsWired_example =
    build_pod_for_user-IsWired plain_codecs shared_settings alices none shared_manifests refl refl
      refl refl
