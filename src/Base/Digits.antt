-- ===== src/Base/Digits.antt =====
-- Python's decimal text of a number that is not negative, and that of a number of microseconds as
-- seconds with six places.
use Prim.Native.String.{slice}
use Prim.Native.Nat.{ℕ, zero, suc, ◌+◌, ◌/◌, ◌%◌}
use Prim.Native.String.{String, ◌++◌ as ◌<>◌}
use mathlib.Core.Bool.{true, false}
use open_terminal_k8s_proxy.Base.Tests.{ltb}

abbrev digit : ℕ → String
digit d = slice "0123456789" d (d + 1)

-- The number has no more digits than the fuel.
unfoldable pub digits : ℕ → ℕ → String
digits zero n = ""
digits (suc fuel) n = elim (ltb n 10) [
  | true ↦ digit n
  | false ↦ digits fuel (n / 10) <> digit (n % 10)
]

unfoldable pub decimal : ℕ → String
decimal n = digits (n + 1) n

-- `f"{x:.6f}"`
unfoldable pub six_places : ℕ → String
six_places n = decimal (n / 1000000) <> "." <> slice (decimal (n % 1000000 + 1000000)) 1 7
