-- ===== src/Tests/Application.antt =====
-- The theorems on the application and the metrics at concrete requests.
use open_terminal_k8s_proxy.Models.Labels.{IsLabel, sanitize_k8s_name-IsLabel}
use open_terminal_k8s_proxy.Models.Names.{
  sanitize_k8s_name, replaced, squeezed, lstrip, rstrip, first,
}
use open_terminal_k8s_proxy.Base.{
  ℕ, ◌-◌, ◌*◌, ◌/◌, ◌≤◌, ◌<◌, min, ◌≡◌, refl, inl, String, none, some, [], ◌∷◌, length, filter,
  arith, eq_iff, ltb, leb, ◌==◌, truthy, if◌then◌else◌, List, All,
}
use open_terminal_k8s_proxy.Base.Dict
use open_terminal_k8s_proxy.Base.Digits.{decimal}
use open_terminal_k8s_proxy.Base.Exec.{ok, attempt, on, ◌>>=◌}
use open_terminal_k8s_proxy.App.{App, Route, WebRequest, refused, entering}
use open_terminal_k8s_proxy.App.Delivery.{breaker_key, route_request-sent}
use open_terminal_k8s_proxy.App.Forwarding.{
  Forwarded, url_at, route_request-Forwarded, route_request-denied,
}
use open_terminal_k8s_proxy.App.History.{
  Event, serves, rounds, checks, scrapes, happen_all, IsOwed, run-IsOrderly,
}
use open_terminal_k8s_proxy.App.Lifespan.{startup}
use open_terminal_k8s_proxy.App.Middleware.{Integer, natural, invalid}
use open_terminal_k8s_proxy.App.Middleware.Gate.{served, over_size, serve-Shut}
use open_terminal_k8s_proxy.App.Middleware.Recorded.{Noted, serve-Recorded}
use open_terminal_k8s_proxy.PodManager.Spec.{IsSound}
use open_terminal_k8s_proxy.App.Routes.{key_first, route_request}
use open_terminal_k8s_proxy.Access.{
  verify_api_key, extract_user_id, get_terminal_for_user, ensure_k8s_available,
}
use open_terminal_k8s_proxy.Models.{TerminalPod, endpoint, create, user_id_to_hash, running}
use open_terminal_k8s_proxy.PodManager.Create.{get_or_create, reuse}
use open_terminal_k8s_proxy.PodManager.{Manager}
use open_terminal_k8s_proxy.Http.{upstream}
use open_terminal_k8s_proxy.Http.Circuit.{permits}
use open_terminal_k8s_proxy.Metrics.{
  no_metrics, or_empty, or_zero, error_key, record_pod_startup, update_pod_states, value_of,
}
use open_terminal_k8s_proxy.Metrics.Counting.{
  Sample, record_all, latencies_of, is_error, IsNewest, record_all_lem, states-counted,
  record_pod_startup-bounded,
}
use open_terminal_k8s_proxy.Metrics.ErrorKeys.{three_parts-error_key}
use open_terminal_k8s_proxy.Metrics.Percentile.{calculate_percentile, calculate_percentile_ranks}
use open_terminal_k8s_proxy.Metrics.Prometheus.{three_parts}
use open_terminal_k8s_proxy.PodManager.History.{cleanup}
use open_terminal_k8s_proxy.Tests.Pods.{willing, manager, alices, crowded}
use open_terminal_k8s_proxy.Tests.Traffic.{down, listing, proxy}

abbrev pub list_files : WebRequest
list_files = record {
  incoming = listing;
  path = "/files/list";
  client_host = some "1.1.1.1";
  credentials = some "proxy-key";
  user_id = some "alice";
  content_length = none;
  query = "directory=/data";
}

abbrev stranger : WebRequest
stranger = record list_files { credentials = some "guess" }

abbrev pub fresh_app : App ℕ
fresh_app = record {
  manager = manager [];
  proxy = record proxy { breakers = [] };
  request_counts = [];
  metrics = no_metrics;
}

abbrev pub three_digits : String → Integer
three_digits text = if text == "999999999" then natural 999999999 else invalid

route_request-Forwarded_example :
    Forwarded ⦃env = willing⦄ ⦃net = down⦄ "proxy-key" Route.proxy_files_list list_files fresh_app
      (route_request ⦃env = willing⦄ ⦃net = down⦄ list_files "proxy-key" Route.proxy_files_list
        fresh_app).1
route_request-Forwarded_example =
    route_request-Forwarded ⦃env = willing⦄ ⦃net = down⦄ "proxy-key" Route.proxy_files_list
      list_files fresh_app (record { distinct = tt; own = tt })

route_request-denied_example :
    route_request ⦃env = willing⦄ ⦃net = down⦄ stranger "proxy-key" Route.proxy_ports fresh_app ≡ (
      ok (
          refused (
            if key_first Route.proxy_ports
            then 401
            else elim (truthy stranger.user_id) [ none ↦ 400 | some _ ↦ 401 ])),
      fresh_app,
    )
route_request-denied_example =
    route_request-denied ⦃env = willing⦄ ⦃net = down⦄ "proxy-key" Route.proxy_ports stranger
      fresh_app (ground (arith, eq_iff "proxy-key" ""))
      (λ e. ground (arith, eq_iff "guess" "proxy-key", e))

serve-Recorded_example :
    Noted stranger no_metrics
      (served ⦃env = willing⦄ ⦃net = down⦄ three_digits "proxy-key" stranger Route.get_cwd
        fresh_app).0
      (served ⦃env = willing⦄ ⦃net = down⦄ three_digits "proxy-key" stranger Route.get_cwd
        fresh_app).1.metrics
serve-Recorded_example =
    serve-Recorded ⦃env = willing⦄ ⦃net = down⦄ three_digits "proxy-key" stranger Route.get_cwd
      fresh_app

abbrev shut_out : WebRequest
shut_out = record stranger {
  incoming = record listing { method = "POST" };
  content_length = some "999999999";
}

abbrev after_shut : App ℕ
after_shut =
    (served ⦃env = willing⦄ ⦃net = down⦄ three_digits "proxy-key" shut_out Route.set_cwd
      fresh_app).1

serve-Shut_example :
    ((served ⦃env = willing⦄ ⦃net = down⦄ three_digits "proxy-key" shut_out Route.set_cwd
        fresh_app).0
      ≡ ok (refused 413))
    × (after_shut.manager.pods ≡ [])
    × (after_shut.manager.storage.client.sent ≡ [])
    × (after_shut.proxy.sent ≡ [])
    × (after_shut.proxy.breakers ≡ [])
serve-Shut_example =
    serve-Shut ⦃env = willing⦄ ⦃net = down⦄ three_digits "proxy-key" shut_out Route.set_cwd
      fresh_app 413
      (over_size (record {
        bodied = inl refl;
        header = "999999999";
        announced = refl;
        filled = ground (arith, eq_iff "999999999" "");
        bytes = 999999999;
        reads = refl;
        over = omega arith;
      }))

abbrev sequence : List Event
sequence = serves list_files Route.proxy_files_list ∷ rounds cleanup ∷ checks ∷ scrapes ∷ []

abbrev launched : App ℕ
launched = (startup ⦃env = willing⦄ fresh_app).1

run-IsOrderly_example :
    IsSound
      (happen_all ⦃env = willing⦄ ⦃net = down⦄ three_digits "proxy-key" sequence launched).manager
    × All
        (IsOwed ⦃env = willing⦄ ⦃net = down⦄ three_digits "proxy-key" sequence launched)
        (happen_all ⦃env = willing⦄ ⦃net = down⦄ three_digits "proxy-key" sequence
          launched).proxy.sent
run-IsOrderly_example =
    run-IsOrderly ⦃env = willing⦄ ⦃net = down⦄ three_digits "proxy-key" sequence fresh_app refl refl

abbrev samples : List Sample
samples =
    record { method = "GET"; path = "/ports"; latency = 7; status_code = 200 }
    ∷ record { method = "GET"; path = "/ports"; latency = 9; status_code = 404 }
    ∷ []

record_all_lem_example :
    IsNewest
      (latencies_of "GET:/ports" samples)
      (or_empty (Dict.get "GET:/ports" (record_all samples no_metrics).request_latencies))
    × (or_zero (Dict.get "GET:/ports:404" (record_all samples no_metrics).error_counts)
        ≡ length (filter (is_error "GET:/ports:404") samples))
record_all_lem_example = record_all_lem "GET:/ports" "GET:/ports:404" samples

calculate_percentile_ranks_example :
    (length (filter (λ x. ltb x (calculate_percentile (5 ∷ 1 ∷ 3 ∷ []) 50)) (5 ∷ 1 ∷ 3 ∷ []))
      ≤ min (3 * 50 / 100) (3 - 1))
    × (min (3 * 50 / 100) (3 - 1)
        < length (filter (λ x. leb x (calculate_percentile (5 ∷ 1 ∷ 3 ∷ []) 50)) (5 ∷ 1 ∷ 3 ∷ [])))
calculate_percentile_ranks_example = calculate_percentile_ranks (5 ∷ 1 ∷ 3 ∷ []) 50 (omega arith)

three_parts-error_key_example :
    three_parts (error_key "GET" "/ports" 404) ≡ some ("GET", "/ports", decimal 404)
three_parts-error_key_example =
    three_parts-error_key "GET" "/ports" 404 (ground arith) (ground arith)

states-counted_example :
    or_zero (
      Dict.get
        (value_of running)
        (update_pod_states (("alice", alices) ∷ []) no_metrics).active_pods_by_state)
    ≡ length
        (filter (λ t. value_of t.state == value_of running) (Dict.values (("alice", alices) ∷ [])))
states-counted_example = states-counted running (("alice", alices) ∷ []) no_metrics

record_pod_startup-bounded_example : length (record_pod_startup "alice" 7 []) ≤ 100
record_pod_startup-bounded_example = record_pod_startup-bounded "alice" 7 [] (omega arith)

abbrev alices_app : App ℕ
alices_app = record fresh_app { manager = crowded }

abbrev used : TerminalPod
used = record alices { last_active_at = 5000000000 }

abbrev served_manager : Manager ℕ
served_manager = (get_terminal_for_user ⦃env = willing⦄ "alice" crowded).1

route_request-sent_example :
    (route_request ⦃env = willing⦄ ⦃net = down⦄ list_files "proxy-key" Route.proxy_files_list
      alices_app).1.proxy.sent
    ≡ (if permits ⦃net = down⦄
          (breaker_key Route.proxy_files_list used)
          (entering (record alices_app { manager = served_manager }))
        then upstream down.text
            (url_at Route.proxy_files_list list_files (endpoint used))
            listing
            "key"
          ∷ []
        else [])
unfolding verify_api_key extract_user_id get_terminal_for_user ◌>>=◌ on ensure_k8s_available attempt
    get_or_create Dict.get create user_id_to_hash reuse
route_request-sent_example =
    route_request-sent ⦃env = willing⦄ ⦃net = down⦄ "proxy-key" Route.proxy_files_list list_files
      alices_app "proxy-key" "alice" used served_manager refl refl refl

-- A run of dashes at the cut, and other characters.
abbrev untidy : String
untidy = "-My App_v2/terminal-0123456789-0123456789-0123456789-0123456789-0---abc"

sanitize_k8s_name-IsLabel_example : IsLabel (sanitize_k8s_name (λ k. k) untidy)
sanitize_k8s_name-IsLabel_example = sanitize_k8s_name-IsLabel (λ k. k) untidy

sanitized :
    sanitize_k8s_name (λ k. k) untidy
    ≡ "y-pp-v2-terminal-0123456789-0123456789-0123456789-0123456789-0"
unfolding sanitize_k8s_name replaced squeezed lstrip rstrip first
sanitized = refl
