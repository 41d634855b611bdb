-- ===== src/Breaker/Registry.antt =====
-- `CircuitBreakerRegistry`: a breaker for each key, made when it is first asked for.
use open_terminal_k8s_proxy.Base.{
  ◌≡◌, refl, String, Option, none, some, List, [], ◌∷◌, arith, ◌==◌, eq_iff, if◌then◌else◌,
  Option-cases, inl, inr,
}
use open_terminal_k8s_proxy.Base.Dict
use open_terminal_k8s_proxy.Base.Dict.{Dict, get-put, get-remove}
use open_terminal_k8s_proxy.Breaker.{CircuitBreaker, Event, step, run, new_breaker}

abbrev pub Registry : Type 0
Registry = Dict CircuitBreaker

abbrev pub or_new : Option CircuitBreaker → CircuitBreaker
or_new none = new_breaker
or_new (some b) = b

abbrev ensure : String → Registry → Option CircuitBreaker → Registry
ensure key r none = Dict.put key new_breaker r
ensure key r (some b) = r

-- `get` adds a new breaker under a key that is not there, and returns the key's breaker.
unfoldable pub get : String → Registry → CircuitBreaker × Registry
get key r = let r' = ensure key r (Dict.get key r) in (or_new (Dict.get key r'), r')

unfoldable pub remove : String → Registry → Registry
remove key r = Dict.remove key r

-- The object under a key becomes `b`; where there is none, the change is of an object that nothing
-- refers to.
unfoldable pub changed : String → CircuitBreaker → Registry → Registry
changed key b r = elim (Dict.get key r) [ none ↦ r | some _ ↦ Dict.put key b r ]

-- A method call on the breaker that `get` returned changes the object that the registry has.
unfoldable pub apply : String → Event → Registry → Registry
apply key e r = let (b, r') = get key r in changed key (step e b) r'

unfoldable pub serve : List (String × Event) → Registry → Registry
serve [] r = r
serve ((key, e) ∷ es) r = serve es (apply key e r)

abbrev pub breaker : String → Registry → CircuitBreaker
breaker key r = or_new (Dict.get key r)

-- The events of one key, in order.
abbrev pub events_of : String → List (String × Event) → List Event
events_of key [] = []
events_of key ((k, e) ∷ es) = let rest = events_of key es in if k == key then e ∷ rest else rest

-- Asking for a key's breaker twice returns the same breaker and changes nothing more, and the
-- breaker of any other key is as before.
pub get-get :
    (key other : String) (r : Registry)
    → (get key (get key r).1 ≡ get key r) × (breaker other (get key r).1 ≡ breaker other r)
unfolding get
get-get key other r = elim (Option-cases (Dict.get key r)) [
  | inl new ↦ ground (
    arith,
    new,
    eq_iff key other,
    eq_iff key key,
    get-put key key new_breaker r,
    get-put key other new_breaker r,
  )
  | inr (b, known) ↦ ground (arith, known)
]

pub breaker-apply :
    (key k : String) (e : Event) (r : Registry)
    → breaker key (apply k e r) ≡ (if k == key then step e (breaker key r) else breaker key r)
unfolding apply get changed
breaker-apply key k e r = elim (Option-cases (Dict.get k r)) [
  | inl new ↦ ground (
    arith,
    new,
    eq_iff k key,
    eq_iff k k,
    get-put k key (step e new_breaker) (Dict.put k new_breaker r),
    get-put k key new_breaker r,
    get-put k k new_breaker r,
  )
  | inr (b, known) ↦ ground (arith, known, eq_iff k key, get-put k key (step e b) r)
]

-- After any history of calls to the breakers of all keys, the breaker of a key is the one that the
-- key's own calls alone would make: the pods' breakers do not affect one another.
pub breaker-serve :
    (key : String) (es : List (String × Event)) (r : Registry)
    → breaker key (serve es r) ≡ run (events_of key es) (breaker key r)
unfolding serve run
breaker-serve key [] r = refl
breaker-serve key ((k, e) ∷ es) r =
    ground (arith, breaker-apply key k e r, breaker-serve key es (apply k e r))

-- A breaker that was removed comes back as a new one, and no other breaker changes.
pub breaker-remove :
    (key k : String) (r : Registry)
    → breaker key (remove k r) ≡ (if k == key then new_breaker else breaker key r)
unfolding remove
breaker-remove key k r = rw get-remove (ground arith)
