-- ===== src/Verbose/Steps.antt =====
-- All processes of one service start over the shared target: starts, reads, late observations and
-- updates, in any order.
use Prim.Native.String.{String}
use lcl_fastapi.Prelude.{ℕ, Bool, some, List, [], ◌∷◌, ◌≡◌, ◌==◌, if◌then◌else◌, ◌⊎◌}
use lcl_fastapi.Runtime.State.Value.{bool, Record}
use lcl_fastapi.Verbose.Storage.{FileVerboseState, read_target, write_target}
use lcl_fastapi.Verbose.Control.{Disk, observe, update}

-- The file, each process's cache by its PID, and the targets that were read and not yet observed.
pub record World : Type 0 where
  pub file : Record
  pub caches : ℕ → FileVerboseState
  pub pending : List FileVerboseState

abbrev pub cache_of : ℕ → FileVerboseState → (ℕ → FileVerboseState) → ℕ → FileVerboseState
cache_of pid state caches n = if pid == n then state else caches n

-- A read may be observed at any later time, more than once and in any order, and by any process.
abbrev pub Pending : List FileVerboseState → FileVerboseState → Type 0
Pending [] s = ⊥
Pending (t ∷ ts) s = (t ≡ s) ⊎ Pending ts s

module _ (service_id : String) where
  pub data Step (w : World) : World → Type 0 where
    start_process :
        (pid : ℕ) (s : FileVerboseState)
        → read_target service_id w.file ≡ some s
        → Step w (record w { caches = cache_of pid s w.caches })
    read_step :
        (s : FileVerboseState)
        → read_target service_id w.file ≡ some s
        → Step w (record w { pending = s ∷ w.pending })
    observe_step :
        (pid : ℕ) (s : FileVerboseState)
        → Pending w.pending s
        → Step w (record w { caches = cache_of pid (observe (w.caches pid) s) w.caches })
    update_step :
        (disk : Disk) (pid : ℕ) (enabled : Bool)
        → Step w (record w {
          file = (update disk service_id (bool enabled) (w.caches pid) w.file).2;
          caches =
              cache_of pid (update disk service_id (bool enabled) (w.caches pid) w.file).1 w.caches;
        })

  -- From `service_runtime`: the target has revision 0, and every process starts from it.
  pub data Reach (initial : Bool) : World → Type 0 where
    begin : Reach initial (record {
      file = write_target service_id (record { enabled = initial; revision = 0 });
      caches = λ pid. record { enabled = initial; revision = 0 };
      pending = [];
    })
    next : {w v : World} → Reach initial w → Step w v → Reach initial v
