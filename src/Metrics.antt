-- ===== src/Metrics.antt =====
-- terminal_proxy/metrics.py: the counters that requests and pods leave. Durations are microseconds;
-- a difference of two times is 0 if the clock went back between them.
pub mod Counting
pub mod ErrorKeys
pub mod Percentile
pub mod Prometheus
pub mod Tracking
use open_terminal_k8s_proxy.Base.{
  ℕ, ◌+◌, ◌-◌, Bool, String, ◌<>◌, Option, none, some, List, [], ◌∷◌, ◌++◌, length, take, drop, ltb,
  leb, if◌then◌else◌,
}
use open_terminal_k8s_proxy.Base.Dict
use open_terminal_k8s_proxy.Base.Dict.{Dict}
use open_terminal_k8s_proxy.Base.Digits.{decimal}
use open_terminal_k8s_proxy.Models.{PodState, TerminalPod, creating, running, failed, terminated}

abbrev trim : Dict ℕ → Dict ℕ
trim d = if ltb 100 (length d) then Dict.remove_all (take 50 (Dict.keys d)) d else d

unfoldable pub record_pod_startup : String → ℕ → Dict ℕ → Dict ℕ
record_pod_startup user_hash duration d = trim (Dict.put user_hash duration d)

-- The module's tables but for the startup durations, which stand beside the pods. Nothing reads or
-- writes `_request_counts`.
pub record Metrics : Type 0 where
  pub request_latencies : Dict (List ℕ)
  pub error_counts : Dict ℕ
  pub active_pods_by_state : Dict ℕ

abbrev pub no_metrics : Metrics
no_metrics = record { request_latencies = []; error_counts = []; active_pods_by_state = [] }

-- The entry of a `defaultdict(list)` and of a `defaultdict(int)`.
abbrev pub or_empty : Option (List ℕ) → List ℕ
or_empty none = []
or_empty (some xs) = xs

abbrev pub or_zero : Option ℕ → ℕ
or_zero none = 0
or_zero (some n) = n

abbrev pub max_latencies : ℕ
max_latencies = 1000

-- A new latency at the end; of more than 1000, the last 500 stay.
unfoldable pub append_latency : ℕ → List ℕ → List ℕ
append_latency latency xs =
    let more = xs ++ (latency ∷ []) in
    if ltb max_latencies (length more) then drop (length more - 500) more else more

unfoldable pub increment : String → Dict ℕ → Dict ℕ
increment key d = Dict.put key (or_zero (Dict.get key d) + 1) d

unfoldable pub request_key : String → String → String
request_key method path = method <> ":" <> path

unfoldable pub error_key : String → String → ℕ → String
error_key method path status_code = request_key method path <> ":" <> decimal status_code

unfoldable pub record_request : String → String → ℕ → ℕ → Metrics → Metrics
record_request method path latency status_code m =
    let key = request_key method path in
    record m {
      request_latencies =
          Dict.put key (append_latency latency (or_empty (Dict.get key m.request_latencies)))
            m.request_latencies;
      error_counts =
          if leb 400 status_code
          then increment (error_key method path status_code) m.error_counts
          else m.error_counts;
    }

-- The values of the enumeration `PodState`.
abbrev pub value_of : PodState → String
value_of creating = "creating"
value_of running = "running"
value_of failed = "failed"
value_of terminated = "terminated"

unfoldable pub count_states : List TerminalPod → Dict ℕ → Dict ℕ
count_states [] d = d
count_states (t ∷ ts) d = count_states ts (increment (value_of t.state) d)

unfoldable pub update_pod_states : Dict TerminalPod → Metrics → Metrics
update_pod_states pods m = record m { active_pods_by_state = count_states (Dict.values pods) [] }
