-- ===== src/Prelude/Maps.antt =====
-- `Mapping<K, V>` of the contract storage, keyed by account: a key that was never written is absent.
use Prim.Native.Nat.{ℕ}
use mathlib.Core.Option.{Option, none, some}
use starlay_protocol_wasm.Prelude.Tests.{◌==◌, if◌then◌else◌}

abbrev pub Mapping : Type 0 → Type 0
Mapping V = ℕ → Option V

module _ {V : Type 0} where
  abbrev pub insert : Mapping V → ℕ → V → Mapping V
  insert m k v j = if j == k then some v else m j

  abbrev pub unwrap_or : Option V → V → V
  unwrap_or none d = d
  unwrap_or (some v) d = v
