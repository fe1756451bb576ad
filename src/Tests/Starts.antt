-- ===== src/Tests/Starts.antt =====
-- A start at a concrete directory.
use lcl_fastapi.Prelude.{
  Bool, true, false, none, some, [], ◌∷◌, ◌≡◌, ◌⊎◌, refl, ◌==◌, if◌then◌else◌,
}
use lcl_fastapi.Runtime.State.Value.{str, int, get, value_eq}
use lcl_fastapi.Runtime.State.Identity.{ProcessTable}
use lcl_fastapi.Runtime.Service.{Directory, Start, is_of, enter, service_runtime}
use lcl_fastapi.Runtime.Service.Forgotten.{
  IsForeign, IsForgotten, IsWithdrawn, IsAsBefore, service_runtime-IsForgotten,
}

abbrev this_start : Start
this_start = record {
  identity = record { pid = 7; created = 100 };
  service_id = "s2";
  details = [];
  file_verbose = true;
  verbose = false;
  secret = "t";
}

-- Left by the start s1, with a request to shut it down.
abbrev used : Directory
used = record {
  runtime = ("pid", int 5) ∷ ("service_id", str "s1") ∷ [];
  shutdown = ("service_id", str "s1") ∷ [];
  reload = ("service_id", str "s1") ∷ [];
  control = ("service_id", str "s1") ∷ [];
  token = some "old";
  pid_file = some 5;
  observations = (("service_id", str "s1") ∷ []) ∷ [];
  workers = λ n. [];
  leases = λ n. if n == 0 then ("pid", int 5) ∷ [] else [];
}

abbrev table : ProcessTable
table pid = none

used-IsForeign : IsForeign "s2" used
unfolding is_of get value_eq
used-IsForeign = record {
  runtime = refl;
  shutdown = refl;
  control = refl;
  observations = (refl, tt);
}

-- The body observes the control, and then raises.
abbrev body : Directory → Directory × Bool
body d = (record d { observations = (("service_id", str "s2") ∷ []) ∷ d.observations }, false)

service_runtime-IsForgotten_example :
    IsForgotten this_start (service_runtime this_start table none body true none used).0
    × ((enter this_start none used).1 ≡ true
        → IsWithdrawn this_start table
            (service_runtime this_start table none body true none used).0)
    × (IsWithdrawn this_start table (service_runtime this_start table none body true none used).0
        ⊎ IsAsBefore used (service_runtime this_start table none body true none used).0)
service_runtime-IsForgotten_example =
    service_runtime-IsForgotten this_start table none body used used-IsForeign (λ d. refl)
