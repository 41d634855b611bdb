-- ===== src/Metrics/ErrorKeys.antt =====
-- The keys of the error counts, which `format_prometheus_metrics` takes apart again.
use Prim.Native.Char.{code}
use Prim.Native.String.append
use text.Mathlib.TextLemmas.{append_assoc}
use open_terminal_k8s_proxy.Base.{ap, ◌∙◌, ℕ, ◌≡◌, ◌≢◌, refl, String, ◌<>◌, some, arith}
use open_terminal_k8s_proxy.Base.Digits.{decimal}
use open_terminal_k8s_proxy.Metrics.{request_key, error_key}
use open_terminal_k8s_proxy.Metrics.Prometheus.{split_colon, three_parts}

-- No character of the text is a colon.
abbrev pub LacksColon : String → Type 0
LacksColon String.[] = Unit
LacksColon (String.◌∷◌ c s) = (code c ≢ b':') × LacksColon s

split_colon-append : (s t : String) → LacksColon s → split_colon (s <> (":" <> t)) ≡ (s, some t)
unfolding split_colon
split_colon-append String.[] t free =
    let e : ("" <> (":" <> t)) ≡ String.◌∷◌ ":" t =
      append.nil _ ∙ append.cons _ _ _ ∙ ap (String.◌∷◌ ":") (append.nil t) in
    rw e refl
split_colon-append (String.◌∷◌ c s) t free =
    let e : (String.◌∷◌ c s <> (":" <> t)) ≡ String.◌∷◌ c (s <> (":" <> t)) = append.cons _ _ _ in
    rw e (ground (arith, split_colon-append s t free.1, free.0))

-- If the method and the path have no colon, the metrics' text tells method, path and status of an
-- error count apart as they were recorded.
pub three_parts-error_key :
    (method path : String) (status_code : ℕ)
    → LacksColon method
    → LacksColon path
    → three_parts (error_key method path status_code) ≡ some (method, path, decimal status_code)
unfolding three_parts error_key request_key
three_parts-error_key method path status_code named plain =
    let status = decimal status_code in
    let e : ((method <> ":" <> path) <> ":" <> status)
        ≡ (method <> ":" <> (path <> ":" <> status)) =
      append_assoc method (":" <> path) (":" <> status)
      ∙ ap (λ k. method <> k) (append_assoc ":" path (":" <> status)) in
    let outer = ap split_colon e ∙ split_colon-append method (path <> ":" <> status) named in
    ground (arith, outer, split_colon-append path status plain)
