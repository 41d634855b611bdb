-- ===== src/RateLimit/Window.antt =====
-- The rate limit against a sliding window over the whole log of a client.
use native.Mathlib.Decide.{dec_lt}
use open_terminal_k8s_proxy.Base.{
  ℕ, ◌+◌, ◌≤◌, ◌≡◌, ◌≢◌, refl, Bool, true, false, String, List, [], ◌∷◌, ◌++◌, ◌==◌, eq_iff, length,
  filter, All, ltb, if◌then◌else◌, arith, Bool-cases, inl, inr, length-filter-le, length-append,
}
use open_terminal_k8s_proxy.Base.Dict
use open_terminal_k8s_proxy.Base.Dict.{get-put}
use open_terminal_k8s_proxy.RateLimit.{
  Counts, stamps_of, is_recent, requests_per_minute, admit, let_through,
}

abbrev kept : ℕ → List ℕ → List ℕ
kept now stamps = filter (is_recent now) stamps

-- What is recent later was recent before.
kept-kept : (now t : ℕ) (xs : List ℕ) → now ≤ t → length (kept t (kept now xs)) ≡ length (kept t xs)
kept-kept now t [] h = refl
kept-kept now t (x ∷ xs) h = ground (arith, kept-kept now t xs h)

kept-snoc :
    (t x : ℕ) (xs : List ℕ)
    → length (kept t (xs ++ (x ∷ []))) ≡ length (kept t xs) + length (kept t (x ∷ []))
kept-snoc t x [] = omega arith
kept-snoc t x (y ∷ xs) = ground (arith, kept-snoc t x xs)

kept-cons :
    (t x : ℕ) (xs : List ℕ)
    → length (kept t (x ∷ xs)) ≡ length (kept t (x ∷ [])) + length (kept t xs)
kept-cons t x xs = ground arith

-- The step on the client's own stamps.
abbrev decide : ℕ → List ℕ → Bool
decide now stamps = ltb (length (kept now stamps)) requests_per_minute

abbrev stamped : ℕ → List ℕ → List ℕ
stamped now stamps = if decide now stamps then kept now stamps ++ (now ∷ []) else kept now stamps

admit-own :
    (client : String) (now : ℕ) (counts : Counts)
    → ((admit client now counts).0 ≡ decide now (stamps_of client counts))
      × (stamps_of client (admit client now counts).1 ≡ stamped now (stamps_of client counts))
unfolding admit
admit-own client now counts =
    let stamps = stamps_of client counts in
    ground (
      arith,
      eq_iff client client,
      get-put client client (kept now stamps) counts,
      get-put client client (kept now stamps ++ (now ∷ [])) counts,
    )

admit-other :
    (client ip : String) (now : ℕ) (counts : Counts)
    → ip ≢ client
    → stamps_of client (admit ip now counts).1 ≡ stamps_of client counts
unfolding admit
admit-other client ip now counts other =
    let stamps = stamps_of ip counts in
    ground (
      arith,
      eq_iff ip client,
      get-put ip client (kept now stamps) counts,
      get-put ip client (kept now stamps ++ (now ∷ [])) counts,
    )

-- The requests that are let through by one client's stamps alone.
alone : List ℕ → List ℕ → List ℕ
alone stamps [] = []
alone stamps (now ∷ nows) =
    let rest = alone (stamped now stamps) nows in if decide now stamps then now ∷ rest else rest

-- The times of a client's requests.
abbrev pub times_of : String → List (String × ℕ) → List ℕ
times_of client [] = []
times_of client ((ip, now) ∷ es) =
    let rest = times_of client es in if ip == client then now ∷ rest else rest

let_through-alone :
    (client : String) (es : List (String × ℕ)) (counts : Counts)
    → let_through client es counts ≡ alone (stamps_of client counts) (times_of client es)
unfolding let_through alone
let_through-alone client [] counts = refl
let_through-alone client ((ip, now) ∷ es) counts =
    let rest = let_through-alone client es (admit ip now counts).1 in
    elim (Bool-cases (ip == client)) [
      | inl same ↦ ground (arith, same, rest, admit-own client now counts, eq_iff ip client)
      | inr differ ↦
          ground (arith, differ, rest, admit-other client ip now counts, eq_iff ip client)
    ]

-- The stamps stay within the limit, and with what is let through later, those of any minute do.
alone-limit :
    (stamps nows : List ℕ) (t : ℕ)
    → length stamps ≤ requests_per_minute
    → All (λ now. now ≤ t) nows
    → length (kept t stamps) + length (kept t (alone stamps nows)) ≤ requests_per_minute
unfolding alone
alone-limit stamps [] t h past = omega (arith, h, length-filter-le (is_recent t) stamps)
alone-limit stamps (now ∷ nows) t h past =
    let older = kept-kept now t stamps past.0 in
    let left = kept now stamps in
    let more = left ++ (now ∷ []) in
    let grown = length-append left (now ∷ []) in
    elim (dec_lt (length left) requests_per_minute) [
      | yes allowed ↦
          let open_now : decide now stamps ≡ true = ground arith in
          rw (open_now) (
            omega (
              arith,
              older,
              kept-snoc t now left,
              kept-cons t now (alone more nows),
              alone-limit more nows t (omega (arith, grown, allowed)) past.1,
            ))
      | no refused ↦
          let shut : decide now stamps ≡ false = ground arith in
          rw (shut) (
            omega (
              arith,
              older,
              alone-limit left nows t (omega (arith, h, length-filter-le (is_recent now) stamps))
                  past.1,
            ))
    ]

-- The reference: the whole log is kept, and a request is let through if the log has fewer than the
-- limit from the last minute.
unfoldable pub sliding : List ℕ → List ℕ → List ℕ
sliding log [] = []
sliding log (now ∷ nows) =
    let with_it = sliding (now ∷ log) nows in
    let without = sliding log nows in
    if ltb (length (filter (is_recent now) log)) requests_per_minute then now ∷ with_it else without

-- The times do not go back, from `m` on.
abbrev pub InOrder : ℕ → List ℕ → Type 0
InOrder m [] = Unit
InOrder m (now ∷ nows) = (m ≤ now) × InOrder now nows

alone-sliding :
    (m : ℕ) (stamps log nows : List ℕ)
    → ((t : ℕ) → m ≤ t → length (kept t stamps) ≡ length (kept t log))
    → InOrder m nows
    → alone stamps nows ≡ sliding log nows
unfolding alone sliding
alone-sliding m stamps log [] agree order = refl
alone-sliding m stamps log (now ∷ nows) agree order =
    let left = kept now stamps in
    let more = left ++ (now ∷ []) in
    let before = agree now order.0 in
    elim (dec_lt (length left) requests_per_minute) [
      | yes allowed ↦
          let rest =
            alone-sliding now more (now ∷ log) nows
              (λ t h. omega (
                arith,
                kept-snoc t now left,
                kept-cons t now log,
                kept-kept now t stamps h,
                agree t (omega (arith, order.0, h)),
              ))
              order.1 in
          ground (arith, before, rest)
      | no refused ↦
          let rest =
            alone-sliding now left log nows
              (λ t h. omega (arith, kept-kept now t stamps h, agree t (omega (arith, order.0, h))))
              order.1 in
          ground (arith, before, rest)
    ]

-- At any time that is not before a client's requests, at most 300 of those of the last minute have
-- been let through, whatever the requests of the other clients.
pub let_through-limit :
    (client : String) (es : List (String × ℕ)) (t : ℕ)
    → All (λ now. now ≤ t) (times_of client es)
    → length (filter (is_recent t) (let_through client es [])) ≤ requests_per_minute
unfolding Dict.get
let_through-limit client es t past =
    rw (let_through-alone client es [])
      (omega (arith, alone-limit [] (times_of client es) t (omega arith) past))

-- If the clock does not go back, the requests of a client that are let through are those of the
-- reference, which keeps the whole log of this client and no other: the stamps that are thrown away
-- never count, and no client takes from another's limit.
pub let_through-sliding :
    (client : String) (es : List (String × ℕ))
    → InOrder 0 (times_of client es)
    → let_through client es [] ≡ sliding [] (times_of client es)
unfolding Dict.get
let_through-sliding client es order =
    rw (let_through-alone client es [])
      (alone-sliding 0 [] [] (times_of client es) (λ t h. refl) order)
