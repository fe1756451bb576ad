-- ===== src/Verbose/Agreement.antt =====
-- What the processes of one service start agree on, after any interleaving of starts, reads, late
-- observations and updates.
use Prim.Native.String.{String}
use lcl_fastapi.Prelude.{ℕ, Bool, true, some, ◌≡◌, refl, sym, ap, ◌∙◌}
use lcl_fastapi.Runtime.State.Value.{bool}
use lcl_fastapi.Verbose.Storage.{FileVerboseState, read_target}
use lcl_fastapi.Verbose.Control.{accepted, Disk, published, requested, update, update-requested}
use lcl_fastapi.Verbose.Steps.{World, Reach}
use lcl_fastapi.Verbose.Consistent.{flag_at, Reach-IsConsistent}

-- After any interleaving, failed updates included, two processes that have observed the same revision
-- have the same flag.
pub Reach-agree :
    (service_id : String) (initial : Bool) {w : World} (p q : ℕ)
    → Reach service_id initial w
    → (w.caches p).revision ≡ (w.caches q).revision
    → (w.caches p).enabled ≡ (w.caches q).enabled
Reach-agree service_id initial {w} p q r e =
    let c = Reach-IsConsistent initial service_id r in
    (c.cached p).flag ∙ ap (flag_at initial) e ∙ sym (c.cached q).flag

-- After any interleaving, failed updates included, whichever process asks for whichever flag: if the
-- file can be read and written, `update` is accepted and a reader of the file then finds the flag
-- that was asked for. The check against a revision that moved backwards never refuses a request.
pub Reach-update :
    (service_id : String) (initial : Bool) {w : World} (disk : Disk) (pid : ℕ) (enabled : Bool)
    → Reach service_id initial w
    → disk.readable ≡ true
    → disk.publication ≡ published
    → (t : FileVerboseState) × (t.enabled ≡ enabled)
      × ((update disk service_id (bool enabled) (w.caches pid) w.file).0 ≡ accepted t)
      × (read_target service_id (update disk service_id (bool enabled) (w.caches pid) w.file).2
          ≡ some t)
Reach-update service_id initial {w} disk pid enabled r rd pb =
    let c = Reach-IsConsistent initial service_id r in
    let (result, cache', file') =
      update-requested disk service_id enabled (w.caches pid) c.target w.file rd pb c.readable
        (c.cached pid).not_ahead in
    (requested enabled c.target, refl, result, file')
