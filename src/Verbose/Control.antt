-- ===== src/Verbose/Control.antt =====
-- `FileVerboseControl` of src/lcl_fastapi/verbose/control.py: the cache of one process, and the
-- target file logging-control.json that it shares. The lock logging-control.lock makes an update
-- one step; a refresh reads in one step and observes what it read in a later one.
use Prim.Native.String.{String}
use lcl_fastapi.Prelude.{
  ◌+◌, ◌≤◌, Bool, true, false, not, Option, none, some, ◌≡◌, arith, ltb, leb, if◌then◌else◌, refl,
  Bool-cases, inl, inr, ◌⊎◌,
}
use lcl_fastapi.Runtime.State.Value.{Value, bool, Record}
use lcl_fastapi.Verbose.Storage.{
  FileVerboseState, read_target, write_target, read_target-write_target,
}

-- What `update` returns or raises.
pub data Updated : Type 0 where
  accepted : FileVerboseState → Updated
  type_error os_error : Updated

-- The part of `observe` under the lock: an older state does not replace a newer one.
unfoldable pub observe : FileVerboseState → FileVerboseState → FileVerboseState
observe cache state = if leb cache.revision state.revision then state else cache

abbrev pub same_flag : Bool → Bool → Bool
same_flag true b = b
same_flag false b = not b

-- What `write_target` does: it returns; it raises and the file is as it was; or it raises after the
-- replacement, when the temporary file could not be removed.
pub data Publication : Type 0 where
  published not_published published_and_raised : Publication

-- What the file system does to one `update`.
pub record Disk : Type 0 where
  pub readable : Bool
  pub publication : Publication

-- The result, the new cache and the new file.
abbrev pub Run : Type 0
Run = Updated × FileVerboseState × Record

publish : String → Publication → FileVerboseState → FileVerboseState → Record → Run
publish service_id published cache state file =
    (accepted state, state, write_target service_id state)
publish service_id not_published cache state file = (os_error, cache, file)
publish service_id published_and_raised cache state file =
    (os_error, cache, write_target service_id state)

-- With the target that was read.
commit : Publication → String → Bool → FileVerboseState → FileVerboseState → Record → Run
commit publication service_id enabled cache state file =
    if ltb state.revision cache.revision
    then (os_error, cache, file)
    else if same_flag enabled state.enabled
    then (accepted state, state, file)
    else publish service_id publication cache
        (record { enabled = enabled; revision = state.revision + 1 }) file

update_target :
    Publication → String → Bool → FileVerboseState → Option FileVerboseState → Record → Run
update_target publication service_id enabled cache none file = (os_error, cache, file)
update_target publication service_id enabled cache (some state) file =
    commit publication service_id enabled cache state file

unfoldable pub update : Disk → String → Value → FileVerboseState → Record → Run
unfolding update_target commit publish
update disk service_id (bool enabled) cache file =
    if disk.readable
    then update_target disk.publication service_id enabled cache (read_target service_id file) file
    else (os_error, cache, file)
update disk service_id _ cache file = (type_error, cache, file)

-- The target after an accepted request: as it was, or changed and numbered one higher.
abbrev pub requested : Bool → FileVerboseState → FileVerboseState
requested enabled state = record {
  enabled = enabled;
  revision = if same_flag enabled state.enabled then state.revision else state.revision + 1;
}

-- From a readable target that the cache is not ahead of, and when the file can be written, `update`
-- accepts the request: the target, the cache and what a reader finds afterwards are all the
-- requested value, under the old revision if the value was set already and the next one if not.
pub update-requested :
    (disk : Disk) (service_id : String) (enabled : Bool) (cache state : FileVerboseState)
    (file : Record)
    → disk.readable ≡ true
    → disk.publication ≡ published
    → read_target service_id file ≡ some state
    → cache.revision ≤ state.revision
    → ((update disk service_id (bool enabled) cache file).0 ≡ accepted (requested enabled state))
      × ((update disk service_id (bool enabled) cache file).1 ≡ requested enabled state)
      × (read_target service_id (update disk service_id (bool enabled) cache file).2
          ≡ some (requested enabled state))
unfolding update
update-requested disk service_id enabled cache state file rd pb e h =
    rw (rd, pb)
      (ground (arith, e, h, read_target-write_target service_id (requested enabled state)))

-- What a run leaves: all as it was, or the target in the file, and in the cache the target or what
-- it had.
abbrev pub Leaves : String → FileVerboseState → FileVerboseState → Record → Run → Type 0
Leaves service_id target cache file (result, cache', file') =
    ((cache' ≡ cache) × (file' ≡ file))
    ⊎ (((cache' ≡ target) ⊎ (cache' ≡ cache)) × (read_target service_id file' ≡ some target))

publish-Leaves :
    (service_id : String) (publication : Publication) (cache target : FileVerboseState)
    (file : Record)
    → Leaves service_id target cache file (publish service_id publication cache target file)
unfolding publish
publish-Leaves service_id published cache target file =
    inr (inl refl, read_target-write_target service_id target)
publish-Leaves service_id not_published cache target file = inl (refl, refl)
publish-Leaves service_id published_and_raised cache target file =
    inr (inr refl, read_target-write_target service_id target)

-- From a readable target, any `update`, failing or not, leaves the cache and the file as they were,
-- or the requested target in the file, and in the cache the requested target or what it had.
pub update-Leaves :
    (disk : Disk) (service_id : String) (enabled : Bool) (cache state : FileVerboseState)
    (file : Record)
    → read_target service_id file ≡ some state
    → Leaves service_id
        (requested enabled state)
        cache
        file
        (update disk service_id (bool enabled) cache file)
unfolding update
update-Leaves disk service_id enabled cache state file e = elim (Bool-cases disk.readable) [
  | inr r ↦ rw r (inl (refl, refl))
  | inl r ↦
      rw (r, e)
        (elim (Bool-cases (ltb state.revision cache.revision)) [
          | inl b ↦ rw b (inl (refl, refl))
          | inr b ↦ elim (Bool-cases (same_flag enabled state.enabled)) [
            | inl d ↦ rw (b, d) (inr (inl (ground (arith, d)), ground (arith, e, d)))
            | inr d ↦ rw (b, d) (publish-Leaves service_id disk.publication cache _ file)
          ]
        ])
]
