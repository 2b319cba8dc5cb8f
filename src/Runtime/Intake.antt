-- ===== src/Runtime/Intake.antt =====
-- runtime/intake/intake.go: result envelopes are validated and recorded once.
pub mod Dedup
use aa.Base.{
  ℕ, ◌≤◌, String, ◌≡◌, refl, ◌≢◌, ◌⊎◌, inl, inr, Bool, true, false, not, ◌&&◌, ◌||◌, Option, none,
  some, List, [], ◌∷◌, length, is_some, str_eq, eq_iff, eq_refl, if◌then◌else◌, Result, ok, err,
  arith, Bool-cases,
}
use aa.Base.Assoc.{lookup, insert, lookup-insert, length-insert}
use aa.Runtime.Worker.{
  TestResult, Artifact, Failure, Status, succeeded, failed, partial, blocked, cancelled, other,
}

-- The stored field `Hash` is written and never read again: it is left out.
pub record Envelope : Type 0 where
  pub id : String
  pub attempt_id : String
  pub assignment_id : String
  pub work_package_id : String
  pub status : Status
  pub summary : String
  pub tests : List TestResult
  pub artifacts : List Artifact
  pub failure : Option Failure

pub data Error : Type 0 where
  ids_required conflict : Error
  invalid_status failure_required : Status → Error

-- The map from result ids to hashes.
abbrev pub Seen : Type 0
Seen = List (String × String)

-- The hash (encoding/json and crypto/sha256) of the four fields that it covers is a parameter.
abbrev pub Hash : Type 0
Hash = Status → String → List TestResult → List Artifact → String

abbrev pub is_listed : Status → Bool
is_listed (other s) = false
is_listed _ = true

abbrev pub wants_failure : Status → Bool
wants_failure failed = true
wants_failure blocked = true
wants_failure _ = false

abbrev pub hash_result : Hash → Envelope → String
hash_result hash r = hash r.status r.summary r.tests r.artifacts

unfoldable pub validate : Envelope → Result Error (Unit {0})
validate r =
    if str_eq r.id ""
      || str_eq r.attempt_id ""
      || str_eq r.assignment_id ""
      || str_eq r.work_package_id ""
    then err ids_required
    else if not (is_listed r.status)
    then err (invalid_status r.status)
    else if wants_failure r.status && not (is_some r.failure)
    then err (failure_required r.status)
    else ok tt

-- The part of `Submit` under the lock.
unfoldable pub register : String → String → Option String → Seen → Seen × Result Error Bool
register id hash none seen = (insert id hash seen, ok true)
register id hash (some existing) seen =
    if not (str_eq existing hash) then (seen, err conflict) else (seen, ok false)

unfoldable pub submit : Hash → Seen → Envelope → Seen × Result Error Bool
unfolding validate register
submit hash seen r = elim (validate r) [
  | err e ↦ (seen, err e)
  | ok _ ↦ register r.id (hash_result hash r) (lookup r.id seen) seen
]
