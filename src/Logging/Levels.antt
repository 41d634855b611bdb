-- ===== src/Logging/Levels.antt =====
-- The levels that `setup_logging` leaves.
use open_terminal_k8s_proxy.Base.{
  ℕ, zero, suc, ◌≡◌, refl, false, String, ◌==◌, Option, none, some, List, [], ◌∷◌, All, inl, inr,
  Bool-cases,
}
use open_terminal_k8s_proxy.Base.Dict
use open_terminal_k8s_proxy.Base.Dict.{Dict, get-put}
use open_terminal_k8s_proxy.Logging.{
  LogLibrary, Logs, setup_logging, set_levels, chosen_level, server_loggers, is_debug_enabled,
}

abbrev or_above : Option ℕ → ℕ → ℕ
or_above none above = above
or_above (some zero) above = above
or_above (some (suc n)) above = suc n

-- The level by which a logger goes, given its name and those of the loggers above it but the root: the
-- nearest level that is set and not 0.
unfoldable effective : Logs → List String → ℕ
effective s [] = s.root_level
effective s (name ∷ names) = or_above (Dict.get name s.levels) (effective s names)

-- The loggers that write the program's log: one of its modules, and the server's.
abbrev loggers : String → List (List String)
loggers name =
    (name ∷ "terminal_proxy" ∷ [])
    ∷ ("uvicorn" ∷ [])
    ∷ ("uvicorn.access" ∷ "uvicorn" ∷ [])
    ∷ ("uvicorn.error" ∷ "uvicorn" ∷ [])
    ∷ []

or_above-same : (n : ℕ) → or_above (some n) n ≡ n
or_above-same zero = refl
or_above-same (suc n) = refl

-- After `setup_logging`, a logger of the program and those of the server go by the chosen level,
-- DEBUG if it is asked for and else that of the settings, whatever the server's levels were; if
-- before it neither the logger nor the one of the package had a level.
setup_logging-effective :
    (lib : LogLibrary) (log_level name : String) (s : Logs)
    → Dict.get "terminal_proxy" s.levels ≡ none
    → Dict.get name s.levels ≡ none
    → All (λ other. (other == name) ≡ false) ("terminal_proxy" ∷ server_loggers)
    → All
        (λ chain.
          effective (setup_logging lib log_level s) chain
          ≡ chosen_level lib log_level (is_debug_enabled lib))
        (loggers name)
unfolding setup_logging effective set_levels chosen_level
setup_logging-effective lib log_level name s unset own others =
    elim (Bool-cases (is_debug_enabled lib)) [
      | inl debug ↦ rw debug (
          simp (get-put, own, or_above-same, others.0, others.1.0, others.1.1.0, others.1.1.1.0)
            (refl, (refl, (refl, (refl, tt)))))
      | inr quiet ↦ rw quiet (
          simp (get-put, own, unset, or_above-same, others.1.0, others.1.1.0, others.1.1.1.0)
            (refl, (refl, (refl, (refl, tt)))))
    ]
