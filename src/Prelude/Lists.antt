-- ===== src/Prelude/Lists.antt =====
-- Membership and absence of duplicates, as tests on lists of account ids.
use starlay_protocol_wasm.Prelude.Tests.{◌==◌}
use Prim.Native.Nat.{ℕ}
use mathlib.Core.Bool.{Bool, true, false, not, ◌&&◌, ◌||◌}
use mathlib.Core.List.{List, [], ◌∷◌}

unfoldable pub mem : ℕ → List ℕ → Bool
mem u [] = false
mem u (v ∷ vs) = u == v || mem u vs

unfoldable pub distinct : List ℕ → Bool
distinct [] = true
distinct (u ∷ us) = not (mem u us) && distinct us
