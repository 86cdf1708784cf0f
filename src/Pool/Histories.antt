-- ===== src/Pool/Histories.antt =====
-- What holds of every message holds of every history of a pool, logics/impls/pool/mod.rs.
use starlay_protocol_wasm.Prelude.Steps.{IsPreorder}
use starlay_protocol_wasm.Pool.Environment.{TokenLibrary, Contracts, Context}
use starlay_protocol_wasm.Pool.State.{Data, State}
use starlay_protocol_wasm.Pool.Calls.{History}
use starlay_protocol_wasm.Pool.Steps.{OnPool}
use starlay_protocol_wasm.Pool.Steps.Messages.{run-Holds}
use starlay_protocol_wasm.Pool.Steps.Writes.{Writes}

module _ (lib : TokenLibrary) (contracts : Contracts lib.Psp22Error) (R : Data → Data → Type 0)
    (w : (ctx : Context) → Writes lib contracts ctx R)
    (pre : IsPreorder (OnPool lib contracts R)) where
  pub History-Holds : {s u : State lib contracts} → History lib contracts s u → R s.pool u.pool
  History-Holds {s} History.here = pre.stay s
  History-Holds {s} {u} (History.called {t} ctx call h e) =
      pre.join {s = s} {t = t} {u = u} (History-Holds h)
        ((run-Holds lib contracts ctx R (w ctx) call).at t tt u e)
  History-Holds (History.elsewhere token world h) = History-Holds h
