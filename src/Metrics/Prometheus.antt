-- ===== src/Metrics/Prometheus.antt =====
-- `format_prometheus_metrics`: the text that the metrics endpoint returns.
use Prim.Native.Char.{code}
use Prim.Native.Nat.{Ordering}
use Prim.Native.String.{compare}
use open_terminal_k8s_proxy.Base.{
  ℕ, ◌+◌, Bool, true, false, String, ◌<>◌, Option, none, some, List, [], ◌∷◌, ◌++◌, map, length,
  sorted, eqb, leb, if◌then◌else◌,
}
use open_terminal_k8s_proxy.Base.Dict
use open_terminal_k8s_proxy.Base.Dict.{Dict}
use open_terminal_k8s_proxy.Base.Digits.{decimal, six_places}
use open_terminal_k8s_proxy.Metrics.{Metrics}
use open_terminal_k8s_proxy.Metrics.Percentile.{calculate_percentile}

abbrev sum : List ℕ → ℕ
sum [] = 0
sum (x ∷ xs) = x + sum xs

abbrev concat : List (List String) → List String
concat [] = []
concat (xs ∷ xss) = xs ++ concat xss

-- `all_latencies`
abbrev pub all_values : Dict (List ℕ) → List ℕ
all_values [] = []
all_values ((key, xs) ∷ d) = xs ++ all_values d

-- The order of pairs of a text and a number.
abbrev entry_before : String × ℕ → String × ℕ → Bool
entry_before (k, n) (j, m) = elim (compare k j) [
  | Ordering.lt ↦ true
  | Ordering.eq ↦ leb n m
  | Ordering.gt ↦ false
]

-- A text up to its first colon, and what comes after that.
unfoldable pub split_colon : String → String × Option String
split_colon String.[] = ("", none)
split_colon (String.◌∷◌ c s) =
    let (first, rest) = split_colon s in
    if eqb (code c) b':' then ("", some s) else (String.◌∷◌ c first, rest)

-- `key.split(":", 2)`, if it has three parts
unfoldable pub three_parts : String → Option (String × String × String)
three_parts key =
    let (method, more) = split_colon key in
    elim more [
      | none ↦ none
      | some text ↦
          let (path, status) = split_colon text in
          elim status [ none ↦ none | some s ↦ some (method, path, s) ]
    ]

abbrev gauge : String → String → List String
gauge name help =
    ("# HELP terminal_proxy_" <> name <> " " <> help)
    ∷ ("# TYPE terminal_proxy_" <> name <> " gauge")
    ∷ []

abbrev quantile : String → List ℕ → ℕ × String → String
quantile name values (p, label) =
    "terminal_proxy_"
    <> name
    <> "{quantile=\""
    <> label
    <> "\"} "
    <> six_places (calculate_percentile values p)

-- The percentiles, the sum and the count of durations, if there are any.
unfoldable pub summary : String → String → List ℕ → List String
summary name help values =
    ("# HELP terminal_proxy_" <> name <> " " <> help)
    ∷ ("# TYPE terminal_proxy_" <> name <> " summary")
    ∷ (if eqb (length values) 0
        then []
        else map (quantile name values)
            ((50, "0.5") ∷ (90, "0.9") ∷ (95, "0.95") ∷ (99, "0.99") ∷ [])
          ++ (("terminal_proxy_" <> name <> "_sum " <> six_places (sum values))
              ∷ ("terminal_proxy_" <> name <> "_count " <> decimal (length values))
              ∷ []))

unfoldable pub error_line : String × ℕ → List String
error_line (key, count) = elim (three_parts key) [
  | none ↦ []
  | some (method, path, status) ↦
      ("terminal_proxy_errors_total{method=\""
        <> method
        <> "\",path=\""
        <> path
        <> "\",status=\""
        <> status
        <> "\"} "
        <> decimal count)
      ∷ []
]

abbrev state_line : String × ℕ → String
state_line (state, count) =
    "terminal_proxy_pods_by_state{state=\"" <> state <> "\"} " <> decimal count

unfoldable pub lines : ℕ → ℕ → String → Metrics → Dict ℕ → List String
lines active_pods max_pods storage_mode m startup_durations =
    gauge "active_pods" "Number of active terminal pods"
    ++ (("terminal_proxy_active_pods " <> decimal active_pods) ∷ [])
    ++ gauge "max_pods" "Maximum allowed terminal pods"
    ++ (("terminal_proxy_max_pods " <> decimal max_pods) ∷ [])
    ++ gauge "storage_mode" "Current storage mode (1=active)"
    ++ (("terminal_proxy_storage_mode{mode=\"" <> storage_mode <> "\"} 1") ∷ [])
    ++ summary "request_latency_seconds" "Request latency in seconds"
        (all_values m.request_latencies)
    ++ ("# HELP terminal_proxy_errors_total Total number of errors by endpoint and status" ∷ [])
    ++ ("# TYPE terminal_proxy_errors_total counter" ∷ [])
    ++ concat (map error_line (sorted entry_before m.error_counts))
    ++ summary "pod_startup_duration_seconds" "Pod startup duration in seconds"
        (Dict.values startup_durations)
    ++ gauge "pods_by_state" "Number of pods by state"
    ++ map state_line (sorted entry_before m.active_pods_by_state)

abbrev unlines : List String → String
unlines [] = ""
unlines (line ∷ rest) = line <> "\n" <> unlines rest

-- `"\n".join(lines) + "\n"`, since there is a line
unfoldable pub format_prometheus_metrics : ℕ → ℕ → String → Metrics → Dict ℕ → String
format_prometheus_metrics active_pods max_pods storage_mode m startup_durations =
    unlines (lines active_pods max_pods storage_mode m startup_durations)
