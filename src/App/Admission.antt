-- ===== src/App/Admission.antt =====
-- What the dependencies of a route let through.
use open_terminal_k8s_proxy.Base.{
  ℕ, ◌≡◌, refl, ◌⊎◌, inl, inr, Bool, true, false, String, Option, none, some, truthy, Bool-cases,
  ◌==◌, if◌then◌else◌, arith, Option-cases,
}
use open_terminal_k8s_proxy.Base.Exec.{Preserves, http_exception, ok, err, ◌>>=◌}
use open_terminal_k8s_proxy.Access.{verify_api_key, extract_user_id}
use open_terminal_k8s_proxy.App.{App, Route, WebRequest}
use open_terminal_k8s_proxy.App.Routes.{key_first, in_order, dependencies}

verify-cases :
    (key : String) (credentials : Option String)
    → ((k : String) × (verify_api_key key credentials ≡ ok k))
      ⊎ (verify_api_key key credentials ≡ err (http_exception 401))
unfolding verify_api_key
verify-cases key none = ground arith
verify-cases key (some k) = elim (Bool-cases (key == "")) [
  | inl open_to_all ↦ inl ("anonymous", ground (arith, open_to_all))
  | inr guarded ↦ elim (Bool-cases (k == key)) [
    | inl same ↦ inl (k, ground (arith, guarded, same))
    | inr other ↦ inr (ground (arith, guarded, other))
  ]
]

extract-cases :
    (name : Option String)
    → ((u : String) × (extract_user_id name ≡ ok u) × (name ≡ some u))
      ⊎ (extract_user_id name ≡ err (http_exception 400))
unfolding extract_user_id
extract-cases none = inr refl
extract-cases (some u) = elim (Bool-cases (u == "")) [
  | inl empty ↦ inr (ground (arith, empty))
  | inr named ↦ inl (u, ground (arith, named), refl)
]

module _ {W : Type 0} where
  pub both : (first : Bool) (k u : String) (s : App W) → in_order first (ok k) (ok u) s ≡ (ok u, s)
  unfolding in_order ◌>>=◌
  both true k u s = refl
  both false k u s = refl

  no_user :
      (first : Bool) (k : String) (s : App W)
      → in_order first (ok k) (err (http_exception 400)) s ≡ (err (http_exception 400), s)
  unfolding in_order ◌>>=◌
  no_user true k s = refl
  no_user false k s = refl

  no_key :
      (first : Bool) (u : String) (s : App W)
      → in_order first (err (http_exception 401)) (ok u) s ≡ (err (http_exception 401), s)
  unfolding in_order ◌>>=◌
  no_key true u s = refl
  no_key false u s = refl

  neither :
      (first : Bool) (s : App W)
      → in_order first (err (http_exception 401)) (err (http_exception 400)) s
        ≡ (err (http_exception (if first then 401 else 400)), s)
  unfolding in_order ◌>>=◌
  neither true s = refl
  neither false s = refl

module _ {W : Type 0} (key : String) (route : Route) (request : WebRequest) (s : App W) where
  -- The dependencies find a user of a request with the key, or raise and change nothing.
  pub dependencies-cases :
      ((k : String) × (u : String) × (verify_api_key key request.credentials ≡ ok k)
        × (request.user_id ≡ some u)
        × (dependencies key route request s ≡ (ok u, s)))
      ⊎ ((n : ℕ) × (dependencies key route request s ≡ (err (http_exception n), s)))
  unfolding dependencies
  dependencies-cases =
      let first = key_first route in
      elim (verify-cases key request.credentials) [
        | inl (k, v) ↦ elim (extract-cases request.user_id) [
          | inl (u, x, named) ↦ inl (k, u, v, named, rw (v, x) (both first k u s))
          | inr x ↦ inr (400, rw (v, x) (no_user first k s))
        ]
        | inr v ↦ elim (extract-cases request.user_id) [
          | inl (u, x, named) ↦ inr (401, rw (v, x) (no_key first u s))
          | inr x ↦ inr (if first then 401 else 400, rw (v, x) (neither first s))
        ]
      ]

  pub denied_by :
      verify_api_key key request.credentials ≡ err (http_exception 401)
      → dependencies key route request s ≡ (
        err (
            http_exception (
              if key_first route
              then 401
              else elim (truthy request.user_id) [ none ↦ 400 | some _ ↦ 401 ])),
        s,
      )
  unfolding dependencies extract_user_id
  denied_by v = elim (Option-cases (truthy request.user_id)) [
    | inl e ↦ rw (v, extract_user_id, e) (neither (key_first route) s)
    | inr (u, e) ↦ elim (Bool-cases (key_first route)) [
      | inl first ↦ rw (v, extract_user_id, e, first) (no_key true u s)
      | inr last ↦ rw (v, extract_user_id, e, last) (no_key false u s)
    ]
  ]

-- The dependencies change nothing.
module _ {W : Type 0} {Inv : App W → Type 0} (key : String) (route : Route)
    (request : WebRequest) where
  pub Preserves-dependencies : Preserves Inv (dependencies key route request)
  Preserves-dependencies = record {
    at = λ s h. elim (dependencies-cases key route request s) [
      | inl (k, u, allowed, named, e) ↦ rw e h
      | inr (n, e) ↦ rw e h
    ];
  }
