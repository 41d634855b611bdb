-- ===== src/Base/Exec.antt =====
-- Methods that change objects and may raise. What was written before a raise stays written, so the
-- state comes back beside the exception too.
use Prim.Native.Nat.{ℕ}
use mathlib.Core.Path.{◌≡◌, refl, subst}
use mathlib.Core.Logic.{◌⊎◌, inl, inr}
use mathlib.Core.Bool.{Bool, true, false}
use open_terminal_k8s_proxy.Base.Tests.{if◌then◌else◌}

-- The exceptions that the code raises, catches or tells apart. `api_exception` has the status of
-- kubernetes' `ApiException`; the three `httpx` ones are `ConnectError`, `TimeoutException` and
-- any other `HTTPError`; `other_error` is any other `Exception`.
pub data Exn : Type 0 where
  api_exception : ℕ → Exn
  http_exception : ℕ → Exn
  connection_error timeout_error config_exception : Exn
  runtime_error value_error type_error k8s_unavailable other_error : Exn
  httpx_connect httpx_timeout httpx_other : Exn

pub data Result {ℓ} (A : Type ℓ) : Type ℓ where
  ok : A → Result A
  err : Exn → Result A

abbrev pub Exec {ℓ} : Type ℓ → Type ℓ → Type ℓ
Exec S A = S → Result A × S

module _ {ℓ} {S A : Type ℓ} where
  unfoldable pub pure : A → Exec S A
  pure a s = (ok a, s)

  unfoldable pub raise : Exn → Exec S A
  raise e s = (err e, s)

  unfoldable pub gets : (S → A) → Exec S A
  gets f s = (ok (f s), s)

module _ {ℓ} {S : Type ℓ} where
  unfoldable pub modify : (S → S) → Exec S (Unit {ℓ})
  modify f s = (ok tt, f s)

module _ {ℓ} {S A B : Type ℓ} where
  abbrev pub continue : Result A → (A → Exec S B) → Exec S B
  continue (ok a) f s = f a s
  continue (err e) f s = (err e, s)

  infixl 10 ◌>>=◌ ◌>>◌
  -- Opening this opens `pure`, `raise`, `gets` and `modify` too.
  unfoldable pub ◌>>=◌ : Exec S A → (A → Exec S B) → Exec S B
  unfolding pure raise gets modify
  ◌>>=◌ m f s = let (r, s') = m s in continue r f s'

  abbrev pub ◌>>◌ : Exec S A → Exec S B → Exec S B
  m >> n = m >>= λ _. n

module _ {ℓ} {S A : Type ℓ} where
  abbrev pub recover : Result A → (Exn → Exec S A) → Exec S A
  recover (ok a) h s = (ok a, s)
  recover (err e) h s = h e s

  -- `try: m except Exception as e: h(e)`
  unfoldable pub attempt : Exec S A → (Exn → Exec S A) → Exec S A
  attempt m h s = let (r, s') = m s in recover r h s'

module _ {ℓ} {S T A : Type ℓ} where
  -- A method of an object that is a part of the state.
  unfoldable pub on : (S → T) → (T → S → S) → Exec T A → Exec S A
  on get set m s = let (r, t) = m (get s) in (r, set t s)

module _ {ℓ} {S A : Type ℓ} where
  -- `try: m except Exception: log`
  unfoldable pub swallow : Exec S A → Exec S (Unit {ℓ})
  unfolding attempt ◌>>=◌
  swallow m = attempt (m >>= λ _. pure tt) (λ _. pure tt)

pub ok-injective {ℓ} : {A : Type ℓ} {a b : A} → ok a ≡ ok b → a ≡ b
ok-injective e = cc

module _ {ℓ} {S A : Type ℓ} where
  outcome : (x : Result A × S) → ((a : A) × (x ≡ (ok a, x.1))) ⊎ ((e : Exn) × (x ≡ (err e, x.1)))
  outcome (ok a, s) = inl (a, refl)
  outcome (err e, s) = inr (e, refl)

  -- To split on how an action ends and keep the equation.
  pub Exec-cases :
      (m : Exec S A) (s : S)
      → ((a : A) × (m s ≡ (ok a, (m s).1))) ⊎ ((e : Exn) × (m s ≡ (err e, (m s).1)))
  Exec-cases m s = outcome (m s)

-- A run of `action` from a state in which `Inv` holds ends in one, however it ends.
pub record Preserves {ℓ} {S A : Type ℓ} (Inv : S → Type ℓ) (action : Exec S A) : Type ℓ where
  pub at : (before : S) → Inv before → Inv (action before).1

module _ {ℓ} {S A : Type ℓ} {Inv : S → Type ℓ} where
  -- An action that leaves the state alone.
  still : (answer : S → Result A) → Preserves Inv (λ before. (answer before, before))
  still answer = record { at = λ before holds. holds }

  pub Preserves-gets : (view : S → A) → Preserves Inv (gets view)
  unfolding gets
  Preserves-gets view = still (λ before. ok (view before))

  pub Preserves-raise : (e : Exn) → Preserves Inv (raise {A = A} e)
  unfolding raise
  Preserves-raise e = still (λ _. err e)

  pub Preserves-pure : (a : A) → Preserves Inv (pure a)
  unfolding pure
  Preserves-pure a = still (λ _. ok a)

  handled :
      (r : Result A) (handler : Exn → Exec S A)
      → ((e : Exn) → Preserves Inv (handler e))
      → Preserves Inv (recover r handler)
  handled (err e) handler kept = record { at = (kept e).at }
  handled (ok a) handler kept = still (λ _. ok a)

  pub Preserves-attempt :
      (body : Exec S A) (handler : Exn → Exec S A)
      → Preserves Inv body
      → ((e : Exn) → Preserves Inv (handler e))
      → Preserves Inv (attempt body handler)
  unfolding attempt
  Preserves-attempt body handler first then_kept = record {
    at = λ before holds.
        (handled (body before).0 handler then_kept).at (body before).1 (first.at before holds);
  }

  pub Preserves-if :
      (test : Bool) (left right : Exec S A)
      → (test ≡ true → Preserves Inv left)
      → (test ≡ false → Preserves Inv right)
      → Preserves Inv (if test then left else right)
  Preserves-if false left right on_true on_false = on_false refl
  Preserves-if true left right on_true on_false = on_true refl

module _ {ℓ} {S A B : Type ℓ} {Inv : S → Type ℓ} where
  resumed :
      (r : Result A) (rest : A → Exec S B)
      → ((a : A) → Preserves Inv (rest a))
      → Preserves Inv (continue r rest)
  resumed (err e) rest kept = still (λ _. err e)
  resumed (ok a) rest kept = record { at = (kept a).at }

  pub Preserves-bind :
      (first : Exec S A) (rest : A → Exec S B)
      → Preserves Inv first
      → ((a : A) → Preserves Inv (rest a))
      → Preserves Inv (first >>= rest)
  unfolding ◌>>=◌
  Preserves-bind first rest begins goes_on = record {
    at = λ before holds.
        (resumed (first before).0 rest goes_on).at (first before).1 (begins.at before holds);
  }

module _ {ℓ} {S A : Type ℓ} {Inv : S → Type ℓ} where
  pub Preserves-swallow : (body : Exec S A) → Preserves Inv body → Preserves Inv (swallow body)
  unfolding swallow
  Preserves-swallow body kept =
      Preserves-attempt _ _ (Preserves-bind body _ kept (λ _. Preserves-pure _))
        (λ _. Preserves-pure _)

pub ruleset preserving = (
  Preserves-gets, Preserves-attempt, Preserves-swallow, Preserves-bind, Preserves-if,
  Preserves-raise, Preserves-pure,
)

-- What `m` returns, if it returns, has the property `Q`.
pub record Yields {ℓ} {S A : Type ℓ} (Q : A → Type ℓ) (m : Exec S A) : Type ℓ where
  pub at : (s : S) (a : A) → (m s).0 ≡ ok a → Q a

module _ {ℓ} {S A : Type ℓ} {Q : A → Type ℓ} where
  pub Yields-pure : (a : A) → Q a → Yields {S = S} Q (pure a)
  unfolding pure
  Yields-pure a q = record { at = λ s b e. subst Q (ok-injective e) q }

  pub Yields-raise : (e : Exn) → Yields {S = S} Q (raise e)
  unfolding raise
  Yields-raise e = record { at = λ s b h. cc }

module _ {ℓ} {S A B : Type ℓ} {Q : B → Type ℓ} where
  continued :
      (r : Result A) (f : A → Exec S B) (s : S) (b : B)
      → ((a : A) → r ≡ ok a → Yields Q (f a))
      → (continue r f s).0 ≡ ok b
      → Q b
  continued (ok a) f s b y h = (y a refl).at s b h
  continued (err e) f s b y h = cc

  -- Only the last action of a block decides what the block returns.
  pub Yields-bind :
      (m : Exec S A) (f : A → Exec S B) → ((a : A) → Yields Q (f a)) → Yields Q (m >>= f)
  unfolding ◌>>=◌
  Yields-bind m f y = record { at = λ s b h. continued (m s).0 f (m s).1 b (λ a _. y a) h }

module _ {ℓ} {S A B : Type ℓ} {P : A → Type ℓ} {Q : B → Type ℓ} where
  -- What the first action returns is known to the rest.
  pub Yields-then :
      (m : Exec S A) (f : A → Exec S B)
      → Yields P m
      → ((a : A) → P a → Yields Q (f a))
      → Yields Q (m >>= f)
  unfolding ◌>>=◌
  Yields-then m f first rest = record {
    at = λ s b h. continued (m s).0 f (m s).1 b (λ a e. rest a (first.at s a e)) h;
  }

module _ {ℓ} {S A : Type ℓ} where
  pub bind_pure : (m : Exec S A) (s : S) → (m >>= λ a. pure a) s ≡ m s
  unfolding ◌>>=◌
  bind_pure m s = elim (Exec-cases m s) [ inl (a, e) ↦ rw e refl | inr (x, e) ↦ rw e refl ]

module _ {ℓ} {S A B : Type ℓ} where
  pub bind_cong :
      (m : Exec S A) (f g : A → Exec S B) (s : S)
      → ((a : A) (t : S) → f a t ≡ g a t)
      → (m >>= f) s ≡ (m >>= g) s
  unfolding ◌>>=◌
  bind_cong m f g s same = elim (Exec-cases m s) [
    | inl (a, e) ↦ rw e (same a _)
    | inr (x, e) ↦ rw e refl
  ]

  pub bind_assoc :
      {C : Type ℓ} (m : Exec S A) (f : A → Exec S B) (g : B → Exec S C) (s : S)
      → ((m >>= f) >>= g) s ≡ (m >>= λ a. f a >>= g) s
  unfolding ◌>>=◌
  bind_assoc m f g s = elim (Exec-cases m s) [ inl (a, e) ↦ rw e refl | inr (x, e) ↦ rw e refl ]

module _ {ℓ} {S A : Type ℓ} {Q R : A → Type ℓ} where
  pub Yields-mono : (m : Exec S A) → ((a : A) → Q a → R a) → Yields Q m → Yields R m
  Yields-mono m f y = record { at = λ s a e. f a (y.at s a e) }

pub ruleset yields_rules = (Yields-pure, Yields-raise, Yields-bind)
