-- ===== src/Metrics/Counting.antt =====
-- What the tables hold after any number of requests.
use open_terminal_k8s_proxy.Base.{
  ℕ, suc, ◌+◌, ◌-◌, ◌≤◌, ◌≡◌, refl, ◌∙◌, ap, Bool, Bool-cases, zero, subst, append_assoc,
  append-nil, String, ◌==◌, eq_iff, List, some, take, [], ◌∷◌, ◌++◌, length, filter, drop,
  length-drop, length-append, ltb, leb, ◌&&◌, if◌then◌else◌, arith, ◌⊎◌, inl, inr,
}
use open_terminal_k8s_proxy.Base.Dict
use open_terminal_k8s_proxy.Base.Dict.{
  Dict, get-put, length-put-le, length-remove-lt, length-remove_all-le,
}
use open_terminal_k8s_proxy.Models.{TerminalPod, PodState}
use open_terminal_k8s_proxy.Metrics.{
  Metrics, no_metrics, or_empty, or_zero, max_latencies, append_latency, increment, request_key,
  error_key, record_request, value_of, count_states, update_pod_states, record_pod_startup,
}

-- A call of `record_request`.
pub record Sample : Type 0 where
  pub method : String
  pub path : String
  pub latency : ℕ
  pub status_code : ℕ

unfoldable pub record_all : List Sample → Metrics → Metrics
record_all [] m = m
record_all (e ∷ es) m = record_all es (record_request e.method e.path e.latency e.status_code m)

-- The latencies of the samples with a key, in order.
abbrev pub latencies_of : String → List Sample → List ℕ
latencies_of key [] = []
latencies_of key (e ∷ es) =
    let rest = latencies_of key es in
    if request_key e.method e.path == key then e.latency ∷ rest else rest

-- Whether a sample counts as an error under a key.
abbrev pub is_error : String → Sample → Bool
is_error key e = leb 400 e.status_code && error_key e.method e.path e.status_code == key

get-increment :
    (k j : String) (d : Dict ℕ)
    → or_zero (Dict.get j (increment k d)) ≡ (if k == j then 1 else 0) + or_zero (Dict.get j d)
unfolding increment
get-increment k j d = ground (arith, eq_iff k j, get-put k j (or_zero (Dict.get k d) + 1) d)

errors-counted_from :
    (key : String) (es : List Sample) (m : Metrics)
    → or_zero (Dict.get key (record_all es m).error_counts)
      ≡ length (filter (is_error key) es) + or_zero (Dict.get key m.error_counts)
unfolding record_all record_request
errors-counted_from key [] m = omega arith
errors-counted_from key (e ∷ es) m =
    let next = record_request e.method e.path e.latency e.status_code m in
    ground (
      arith,
      errors-counted_from key es next,
      get-increment (error_key e.method e.path e.status_code) key m.error_counts,
    )

-- The entries of the latencies, by key.
abbrev kept : String → Metrics → List ℕ
kept key m = or_empty (Dict.get key m.request_latencies)

append_all : List ℕ → List ℕ → List ℕ
append_all [] xs = xs
append_all (t ∷ ts) xs = append_all ts (append_latency t xs)

kept-record_request :
    (key : String) (e : Sample) (m : Metrics)
    → kept key (record_request e.method e.path e.latency e.status_code m) ≡ (
        if request_key e.method e.path == key
        then append_latency e.latency (kept key m)
        else kept key m)
unfolding record_request
kept-record_request key e m =
    let k = request_key e.method e.path in
    ground
      (arith, eq_iff k key, get-put k key (append_latency e.latency (kept k m)) m.request_latencies)

kept-record_all :
    (key : String) (es : List Sample) (m : Metrics)
    → kept key (record_all es m) ≡ append_all (latencies_of key es) (kept key m)
unfolding record_all append_all
kept-record_all key [] m = refl
kept-record_all key (e ∷ es) m =
    let next = record_request e.method e.path e.latency e.status_code m in
    ground (arith, kept-record_all key es next, kept-record_request key e m)

-- A list holds the newest of a log: all of it, or at least 500 of its last, and never more than
-- 1000.
pub record IsNewest (log xs : List ℕ) : Type 0 where
  pub dropped : ℕ
  pub within : dropped ≤ length log
  pub newest : xs ≡ drop dropped log
  pub bounded : length xs ≤ max_latencies
  pub enough : (dropped ≡ 0) ⊎ (500 ≤ length xs)

drop-append : (n : ℕ) (xs ys : List ℕ) → n ≤ length xs → drop n (xs ++ ys) ≡ drop n xs ++ ys
drop-append zero xs ys h = refl
drop-append (suc n) [] ys h = absurd (omega (arith, h))
drop-append (suc n) (x ∷ xs) ys h = drop-append n xs ys (omega (arith, h))

drop-empty : (n : ℕ) → drop {A = ℕ} n [] ≡ []
drop-empty zero = refl
drop-empty (suc n) = refl

drop-drop : (m n : ℕ) (xs : List ℕ) → drop m (drop n xs) ≡ drop (n + m) xs
drop-drop m zero xs = ground arith
drop-drop m (suc n) [] = ground (arith, drop-empty m, drop-empty (suc n + m))
drop-drop m (suc n) (x ∷ xs) =
    let e : suc n + m ≡ suc (n + m) = omega arith in rw e (drop-drop m n xs)

append_latency-IsNewest :
    (t : ℕ) (log xs : List ℕ) → IsNewest log xs → IsNewest (log ++ (t ∷ [])) (append_latency t xs)
unfolding append_latency
append_latency-IsNewest t log xs h =
    let more = xs ++ (t ∷ []) in
    let grown = length-append xs (t ∷ []) in
    let longer = length-append log (t ∷ []) in
    let tail : more ≡ drop h.dropped (log ++ (t ∷ [])) =
      ground (arith, h.newest, drop-append h.dropped log (t ∷ []) h.within) in
    let size = length-drop h.dropped log in
    let sized = ap length h.newest in
    elim (Bool-cases (ltb max_latencies (length more))) [
      | inr small ↦ rw small (record {
        dropped = h.dropped;
        within = omega (arith, h.within, longer);
        newest = tail;
        bounded = ground (arith, small);
        enough = ground (arith, h.enough, grown);
      })
      | inl big ↦ rw big (record {
        dropped = h.dropped + (length more - 500);
        within = omega (arith, h.within, longer, grown, size, sized);
        newest = ap (drop (length more - 500)) tail ∙ drop-drop (length more - 500) h.dropped _;
        bounded = omega (arith, length-drop (length more - 500) more, grown, h.bounded);
        enough = inr (ground (arith, length-drop (length more - 500) more, big));
      })
    ]

append_all-IsNewest :
    (ts log xs : List ℕ) → IsNewest log xs → IsNewest (log ++ ts) (append_all ts xs)
unfolding append_all
append_all-IsNewest [] log xs h = rw append-nil h
append_all-IsNewest (t ∷ ts) log xs h =
    subst (λ l. IsNewest l (append_all ts (append_latency t xs))) (append_assoc log (t ∷ []) ts)
      (append_all-IsNewest ts (log ++ (t ∷ [])) (append_latency t xs)
        (append_latency-IsNewest t log xs h))

record_all-IsNewest :
    (key : String) (es : List Sample)
    → IsNewest
        (latencies_of key es)
        (or_empty (Dict.get key (record_all es no_metrics).request_latencies))
unfolding Dict.get
record_all-IsNewest key es = rw (kept-record_all key es no_metrics) (
    append_all-IsNewest (latencies_of key es) [] [] (record {
      dropped = 0;
      within = omega arith;
      newest = refl;
      bounded = omega arith;
      enough = inl refl;
    }))

errors-counted :
    (key : String) (es : List Sample)
    → or_zero (Dict.get key (record_all es no_metrics).error_counts)
      ≡ length (filter (is_error key) es)
unfolding Dict.get
errors-counted key es = omega (arith, errors-counted_from key es no_metrics)

-- After any number of requests, the latencies that are kept of a method and path are the newest of
-- theirs: all, or at least the last 500, and never more than 1000; and the error count of a method,
-- path and status is the number of the requests with that key whose status was at least 400.
pub record_all_lem :
    (key error : String) (es : List Sample)
    → IsNewest
        (latencies_of key es)
        (or_empty (Dict.get key (record_all es no_metrics).request_latencies))
      × (or_zero (Dict.get error (record_all es no_metrics).error_counts)
          ≡ length (filter (is_error error) es))
record_all_lem key error es = (record_all-IsNewest key es, errors-counted error es)

count_states_from :
    (key : String) (ts : List TerminalPod) (d : Dict ℕ)
    → or_zero (Dict.get key (count_states ts d))
      ≡ length (filter (λ t. value_of t.state == key) ts) + or_zero (Dict.get key d)
unfolding count_states
count_states_from key [] d = omega arith
count_states_from key (t ∷ ts) d = ground (
  arith,
  count_states_from key ts (increment (value_of t.state) d),
  get-increment (value_of t.state) key d,
)

-- The number of pods by state is that of the tracked pods, whatever was counted before.
pub states-counted :
    (state : PodState) (pods : Dict TerminalPod) (m : Metrics)
    → or_zero (Dict.get (value_of state) (update_pod_states pods m).active_pods_by_state)
      ≡ length (filter (λ t. value_of t.state == value_of state) (Dict.values pods))
unfolding update_pod_states Dict.get
states-counted state pods m =
    omega (arith, count_states_from (value_of state) (Dict.values pods) [])

length-trim :
    (d : Dict ℕ) → length d ≤ 101 → length (Dict.remove_all (take 50 (Dict.keys d)) d) ≤ 100
unfolding Dict.remove_all Dict.get
length-trim [] h = omega arith
length-trim ((k, v) ∷ d) h =
    let found : Dict.get k ((k, v) ∷ d) ≡ some v = ground (arith, eq_iff k k) in
    omega (
      arith,
      h,
      length-remove-lt k v ((k, v) ∷ d) found,
      length-remove_all-le (take 49 (Dict.keys d)) (Dict.remove k ((k, v) ∷ d)),
    )

-- The table of startup durations never has more than 100 pods, if it had no more before.
pub record_pod_startup-bounded :
    (h : String) (n : ℕ) (d : Dict ℕ) → length d ≤ 100 → length (record_pod_startup h n d) ≤ 100
unfolding record_pod_startup
record_pod_startup-bounded h n d small =
    ground (arith, length-put-le h n d, length-trim (Dict.put h n d))
