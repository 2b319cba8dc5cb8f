-- ===== src/Kernel/Scheduler/Restore.antt =====
-- kernel/scheduler/scheduler.go: `Restore` from durable records, and the read view `Status`.
pub mod Recovery
use aa.Base.{
  ℕ, ◌+◌, String, Bool, true, false, not, Option, none, some, List, [], ◌∷◌, str_eq, ltb, get_or,
  map, if◌then◌else◌, Result, ok, err,
}
use aa.Base.Assoc.{lookup, insert, keys}
use aa.Base.Sort.{sort_strings}
use aa.Kernel.Planner
use aa.Kernel.Assignment
use aa.Kernel.Assignment.{Assignment}
use aa.Kernel.Scheduler.{Scheduler, store}

-- The state is the constant that its text names.
pub record RestoreAssignment : Type 0 where
  pub id : String
  pub project_id : String
  pub work_package_id : String
  pub worker_id : String
  pub state : Assignment.State
  pub attempt : ℕ
  pub lease_owner : String
  pub lease_expires_at : String

pub data RestoreError : Type 0 where
  bad_lease : String → RestoreError
  bad_expiry : Assignment.Error → RestoreError

-- `time.Parse` with RFC3339Nano, a parameter: none where it is an error.
abbrev pub ParseTime : Type 0
ParseTime = String → Option ℕ

abbrev pub without_lease : RestoreAssignment → Assignment
without_lease r = record {
  id = r.id;
  project_id = r.project_id;
  work_package_id = r.work_package_id;
  worker_id = r.worker_id;
  state = r.state;
  lease = Assignment.no_lease;
  attempt = r.attempt;
}

abbrev pub with_lease : RestoreAssignment → Option ℕ → Result RestoreError Assignment
with_lease r none = err (bad_lease r.id)
with_lease r (some expires) =
    ok (record (without_lease r) { lease = record { owner = r.lease_owner; expires_at = expires } })

unfoldable pub read_lease : ParseTime → RestoreAssignment → Result RestoreError Assignment
read_lease parse r =
    if not (str_eq r.lease_expires_at "")
    then with_lease r (parse r.lease_expires_at)
    else ok (without_lease r)

abbrev pub expire_at : ℕ → Result RestoreError Assignment → Result RestoreError Assignment
expire_at now (err e) = err e
expire_at now (ok a) = elim (Assignment.expire a now) [ err e ↦ err (bad_expiry e) | ok b ↦ ok b ]

-- The assignment is stored, and the counter is raised to its attempt.
unfoldable pub seed : Scheduler → Assignment → Scheduler
seed o a =
    let known = get_or (lookup a.work_package_id o.attempts) 0 in
    record (store o a.work_package_id a) {
      attempts =
          if ltb known a.attempt then insert a.work_package_id a.attempt o.attempts else o.attempts;
    }

-- The record is returned where its state changed.
abbrev pub add_updated :
    RestoreAssignment → Assignment → List RestoreAssignment → List RestoreAssignment
add_updated r a updated =
    if not (Assignment.same_state a.state r.state)
    then record r { state = a.state } ∷ updated
    else updated

abbrev pub with_updated :
    RestoreAssignment
    → Assignment
    → Scheduler × Result RestoreError (List RestoreAssignment)
    → Scheduler × Result RestoreError (List RestoreAssignment)
with_updated r a (o, ok updated) = (o, ok (add_updated r a updated))
with_updated r a (o, err e) = (o, err e)

-- An error ends the loop; what was stored before stays.
unfoldable pub restore :
    ParseTime
    → ℕ
    → Scheduler
    → List RestoreAssignment
    → Scheduler × Result RestoreError (List RestoreAssignment)
unfolding read_lease seed
restore parse now o [] = (o, ok [])
restore parse now o (r ∷ rs) = elim (expire_at now (read_lease parse r)) [
  | err e ↦ (o, err e)
  | ok a ↦ with_updated r a (restore parse now (seed o a) rs)
]

pub record AssignmentStatus : Type 0 where
  pub id : String
  pub work_package_id : String
  pub worker_id : String
  pub state : Assignment.State
  pub attempt : ℕ

pub record ProjectStatus : Type 0 where
  pub project_id : String
  pub graph_id : String
  pub work_packages : List Planner.WorkPackage
  pub assignments : List AssignmentStatus

unfoldable pub sorted_keys : List (String × Assignment) → List String
sorted_keys m = sort_strings (keys m)

abbrev pub status_of : Assignment → AssignmentStatus
status_of a = record {
  id = a.id;
  work_package_id = a.work_package_id;
  worker_id = a.worker_id;
  state = a.state;
  attempt = a.attempt;
}

-- The loop of `Status`; every id is a key of the map.
unfoldable pub statuses : List (String × Assignment) → List String → List AssignmentStatus
statuses m [] = []
statuses m (id ∷ ids) =
    let rest = statuses m ids in elim (lookup id m) [ none ↦ rest | some a ↦ status_of a ∷ rest ]

unfoldable pub status : Scheduler → ProjectStatus
unfolding statuses sorted_keys
status o = record {
  project_id = o.graph.project_id;
  graph_id = o.graph.id;
  work_packages = Planner.list o.graph;
  assignments = statuses o.assignments (sorted_keys o.assignments);
}
