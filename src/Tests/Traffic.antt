-- ===== src/Tests/Traffic.antt =====
-- The theorems on the rate limit and the HTTP proxy at a concrete history, network and request.
use open_terminal_k8s_proxy.Base.{
  ℕ, ◌≡◌, refl, false, String, ◌<>◌, ◌==◌, none, some, List, [], ◌∷◌, arith, if◌then◌else◌,
}
use open_terminal_k8s_proxy.Base.Dict
use open_terminal_k8s_proxy.Base.Exec.{httpx_connect, err}
use open_terminal_k8s_proxy.Breaker.{opened, new_breaker, run}
use open_terminal_k8s_proxy.Breaker.Registry.{breaker}
use open_terminal_k8s_proxy.Http.{
  Text, Network, Proxy, Incoming, upstream_headers, upstream, proxy_request, is_in,
  stripped_request_headers,
}
use open_terminal_k8s_proxy.Http.Circuit.{heard, breaker-proxy_request}
use open_terminal_k8s_proxy.Http.Headers.{last_value, get-upstream_headers}
use open_terminal_k8s_proxy.RateLimit.{let_through}
use open_terminal_k8s_proxy.RateLimit.Window.{times_of, sliding, let_through-sliding}

abbrev two_clients : List (String × ℕ)
two_clients = ("1.1.1.1", 5) ∷ ("2.2.2.2", 6) ∷ ("1.1.1.1", 9) ∷ ("1.1.1.1", 70000000) ∷ []

let_through-sliding_example :
    let_through "1.1.1.1" two_clients [] ≡ sliding [] (times_of "1.1.1.1" two_clients)
let_through-sliding_example =
    let_through-sliding "1.1.1.1" two_clients (omega arith, (omega arith, (omega arith, tt)))

-- The lower case of the two spellings that the examples use.
abbrev pub plain_text : Text
plain_text = record {
  lower = λ k. if k == "Authorization" then "authorization" else k;
  contains = λ part whole. part == whole;
}

-- A network whose pods cannot be connected to.
abbrev pub down : Network ℕ
down = record { text = plain_text; request = λ up w. (err httpx_connect, w); time = λ w. (w, w) }

abbrev pub listing : Incoming
listing = record {
  method = "GET";
  headers = ("host", "proxy") ∷ ("authorization", "Bearer client") ∷ ("accept", "*/*") ∷ [];
  query_params = ("directory", "/data") ∷ [];
  body = "";
}

abbrev pub proxy : Proxy ℕ
proxy = record {
  world = 200;
  has_client = false;
  breakers =
      ("b", record new_breaker { state = opened; failure_count = 5; last_failure_time = some 100 })
      ∷ [];
  sent = [];
}

get-upstream_headers_example :
    Dict.get "accept" (upstream_headers plain_text listing.headers "key") ≡ (
      if "Authorization" == "accept"
      then some ("Bearer " <> "key")
      else if is_in "accept" stripped_request_headers
      then none
      else last_value "accept" listing.headers none)
get-upstream_headers_example = get-upstream_headers plain_text "accept" listing.headers "key"

breaker-proxy_request_example :
    breaker "a"
      (proxy_request ⦃net = down⦄ "http://a:8000/files/list" listing "key"
        (some "a")
        proxy).1.breakers
    ≡ (if "a" == "a"
        then run
            (heard ⦃net = down⦄
              (upstream plain_text "http://a:8000/files/list" listing "key")
              "a"
              proxy)
            (breaker "a" proxy.breakers)
        else breaker "a" proxy.breakers)
breaker-proxy_request_example =
    breaker-proxy_request ⦃net = down⦄ "http://a:8000/files/list" listing "key" "a" proxy refl "a"
