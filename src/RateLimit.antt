-- ===== src/RateLimit.antt =====
-- terminal_proxy/main.py: the first part of `rate_limit_middleware`, which decides on a request. It
-- waits for nothing, so it is one step.
pub mod Window
use open_terminal_k8s_proxy.Base.{
  ℕ, ◌+◌, Bool, true, false, String, Option, none, some, List, [], ◌∷◌, ◌++◌, ◌==◌, length, filter,
  ltb, leb, if◌then◌else◌,
}
use open_terminal_k8s_proxy.Base.Dict
use open_terminal_k8s_proxy.Base.Dict.{Dict}

-- `REQUESTS_PER_MINUTE`, and a minute in microseconds.
abbrev pub requests_per_minute : ℕ
requests_per_minute = 300

abbrev pub minute : ℕ
minute = 60000000

-- `request_counts`, a `defaultdict(list)`.
abbrev pub Counts : Type 0
Counts = Dict (List ℕ)

abbrev pub or_empty : Option (List ℕ) → List ℕ
or_empty none = []
or_empty (some stamps) = stamps

abbrev pub stamps_of : String → Counts → List ℕ
stamps_of client_ip counts = or_empty (Dict.get client_ip counts)

-- `now - ts < 60`
abbrev pub is_recent : ℕ → ℕ → Bool
is_recent now stamp = ltb now (stamp + minute)

-- Whether a request is let through, and the stamps after it.
unfoldable pub admit : String → ℕ → Counts → Bool × Counts
admit client_ip now counts =
    let kept = filter (is_recent now) (stamps_of client_ip counts) in
    if leb requests_per_minute (length kept)
    then (false, Dict.put client_ip kept counts)
    else (true, Dict.put client_ip (kept ++ (now ∷ [])) counts)

-- The times of the requests of one client that are let through, of a history of all clients'.
unfoldable pub let_through : String → List (String × ℕ) → Counts → List ℕ
let_through client [] counts = []
let_through client ((ip, now) ∷ es) counts =
    let (allowed, counts') = admit ip now counts in
    let rest = let_through client es counts' in
    if ip == client then (if allowed then now ∷ rest else rest) else rest
