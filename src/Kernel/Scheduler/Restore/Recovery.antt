-- ===== src/Kernel/Scheduler/Restore/Recovery.antt =====
-- kernel/scheduler/scheduler.go: what holds of a scheduler that was restored.
use aa.Base.{
  ℕ, ◌≤◌, ◌<◌, Bool, true, false, ◌||◌, leb, Option, none, if◌then◌else◌, String, ◌≡◌, refl, some,
  List, [], ◌∷◌, All, elem, map, ◌∙◌, str_eq, eq_iff, eq_refl, get_or, Result, ok, err, arith,
  Result-cases, subst, inl, inr, ap, sym,
}
use aa.Base.Assoc.{lookup, lookup-insert}
use aa.Kernel.Assignment
use aa.Kernel.Assignment.{Assignment}
use aa.Kernel.Scheduler.{Scheduler}
use aa.Kernel.Scheduler.Dispatch.{next_attempt}
use aa.Kernel.Scheduler.Restore.{
  RestoreAssignment, RestoreError, ParseTime, read_lease, expire_at, seed, with_updated, restore,
}

abbrev attempts_of : Scheduler → String → ℕ
attempts_of o id = get_or (lookup id o.attempts) 0

seed-attempts :
    (o : Scheduler) (a : Assignment) (id : String)
    → (attempts_of o id ≤ attempts_of (seed o a) id)
      × (a.attempt ≤ attempts_of (seed o a) a.work_package_id)
unfolding seed
seed-attempts o a id = ground (
  arith,
  lookup-insert a.work_package_id id a.attempt o.attempts,
  lookup-insert a.work_package_id a.work_package_id a.attempt o.attempts,
  eq_iff a.work_package_id id,
  eq_refl a.work_package_id,
)

expire_at-kept :
    (parse : ParseTime) (now : ℕ) (r : RestoreAssignment) {a : Assignment}
    → expire_at now (read_lease parse r) ≡ ok a
    → (a.work_package_id ≡ r.work_package_id)
      × (a.attempt ≡ r.attempt)
      × (Assignment.expire a now ≡ ok a)
unfolding read_lease Assignment.expire Assignment.transition
expire_at-kept parse now r {a} e = ground (arith, e)

with_updated-scheduler :
    (r : RestoreAssignment) (a : Assignment)
    (x : Scheduler × Result RestoreError (List RestoreAssignment))
    → (with_updated r a x).0 ≡ x.0
with_updated-scheduler r a (o, ok u) = refl
with_updated-scheduler r a (o, err e) = refl

with_updated-ok :
    (r : RestoreAssignment) (a : Assignment)
    (x : Scheduler × Result RestoreError (List RestoreAssignment))
    {updated : List RestoreAssignment}
    → (with_updated r a x).1 ≡ ok updated
    → (rest : List RestoreAssignment) × (x.1 ≡ ok rest)
with_updated-ok r a (o, ok u) e = (u, refl)
with_updated-ok r a (o, err x) e = absurd (ground arith)

-- Restoring never lowers a counter.
restore-attempts-le :
    (parse : ParseTime) (now : ℕ) (o : Scheduler) (rs : List RestoreAssignment) (id : String)
    → attempts_of o id ≤ attempts_of (restore parse now o rs).0 id
unfolding restore
restore-attempts-le parse now o [] id = omega arith
restore-attempts-le parse now o (r ∷ rs) id =
    elim (Result-cases (expire_at now (read_lease parse r))) [
      | inl (a, e) ↦
          rw (e, restore, with_updated-scheduler r a (restore parse now (seed o a) rs))
            (omega
              (arith, (seed-attempts o a id).0, restore-attempts-le parse now (seed o a) rs id))
      | inr (x, e) ↦ rw (e, restore) (omega arith)
    ]

-- After a Restore without an error, the next attempt of a package has a higher number than the attempt
-- of every record of that package.
pub restore-next_attempt :
    (parse : ParseTime) (now : ℕ) (o : Scheduler) (rs : List RestoreAssignment)
    {updated : List RestoreAssignment}
    → (restore parse now o rs).1 ≡ ok updated
    → All (λ r. r.attempt < next_attempt (restore parse now o rs).0 r.work_package_id) rs
unfolding restore
restore-next_attempt parse now o [] h = tt
restore-next_attempt parse now o (r ∷ rs) h =
    elim (Result-cases (expire_at now (read_lease parse r))) [
      | inl (a, e) ↦
          (let x = restore parse now (seed o a) rs in
            let (kept_id, kept_attempt, live) = expire_at-kept parse now r e in
            let (rest, done) = with_updated-ok r a x (rw (e, restore) at h) in
            let q : (restore parse now o (r ∷ rs)).0 ≡ x.0 =
              rw (e, restore) (with_updated-scheduler r a x) in
            subst (λ s. All (λ t. t.attempt < next_attempt s t.work_package_id) (r ∷ rs)) (sym q)
              (
                omega (
                  arith,
                  (seed-attempts o a r.work_package_id).1,
                  restore-attempts-le parse now (seed o a) rs r.work_package_id,
                  kept_attempt,
                  ap (attempts_of (seed o a)) kept_id,
                ),
                restore-next_attempt parse now (seed o a) rs done,
              ))
      | inr (x, e) ↦ absurd (ground (arith, h, e))
    ]

-- Whether a lease has ended at or before now; one without a time has ended at the zero time.
abbrev is_over : String → Option ℕ → ℕ → Bool
is_over text none now = true
is_over text (some n) now = str_eq text "" || leb n now

-- The state that a record is stored in, told by its own fields.
abbrev pub restored_state : ParseTime → ℕ → RestoreAssignment → Assignment.State
restored_state parse now r =
    let over = is_over r.lease_expires_at (parse r.lease_expires_at) now in
    elim r.state [
      | Assignment.leased ↦ (if over then Assignment.expired else Assignment.leased)
      | Assignment.preparing ↦ (if over then Assignment.expired else Assignment.preparing)
      | s ↦ s
    ]

expire_at-state :
    (parse : ParseTime) (now : ℕ) (r : RestoreAssignment) {a : Assignment}
    → expire_at now (read_lease parse r) ≡ ok a
    → (a.id ≡ r.id) × (a.state ≡ restored_state parse now r)
unfolding read_lease Assignment.expire Assignment.transition Assignment.is_expired
expire_at-state parse now r {a} e = ground (arith, e)

seed-lookup :
    (o : Scheduler) (a : Assignment) (id : String)
    → lookup id (seed o a).assignments
      ≡ (if str_eq a.work_package_id id then some a else lookup id o.assignments)
unfolding seed
seed-lookup o a id = lookup-insert a.work_package_id id a o.assignments

package_of : RestoreAssignment → String
package_of r = r.work_package_id

-- What no record names is left as it was.
restore-elsewhere :
    (parse : ParseTime) (now : ℕ) (o : Scheduler) (rs : List RestoreAssignment) (id : String)
    → elem id (map package_of rs) ≡ false
    → lookup id (restore parse now o rs).0.assignments ≡ lookup id o.assignments
unfolding restore package_of
restore-elsewhere parse now o [] id h = refl
restore-elsewhere parse now o (r ∷ rs) id h =
    elim (Result-cases (expire_at now (read_lease parse r))) [
      | inl (a, e) ↦
          rw (e, restore, with_updated-scheduler r a (restore parse now (seed o a) rs))
            (restore-elsewhere parse now (seed o a) rs id (ground (arith, h))
              ∙ seed-lookup o a id
              ∙ ground (arith, h, (expire_at-kept parse now r e).0))
      | inr (x, e) ↦ rw (e, restore) refl
    ]

-- Each record that is the last one of its package is stored, in the state that is due.
abbrev pub Stored : ParseTime → ℕ → Scheduler → List RestoreAssignment → Type 0
Stored parse now o [] = Unit
Stored parse now o (r ∷ rs) =
    (elem r.work_package_id (map (λ (t : RestoreAssignment). t.work_package_id) rs) ≡ false
      → (a : Assignment) × (lookup r.work_package_id o.assignments ≡ some a)
        × (a.id ≡ r.id)
        × (a.attempt ≡ r.attempt)
        × (a.state ≡ restored_state parse now r))
    × Stored parse now o rs

-- After a Restore without an error, each record that is the last one of its package is stored under
-- the package, with its id and its attempt: a record that was LEASED or PREPARING and whose lease has
-- ended (at the time it names, or at the zero time where it names none) is stored as EXPIRED, any
-- other in the state it had.
pub restore-expires :
    (parse : ParseTime) (now : ℕ) (o : Scheduler) (rs : List RestoreAssignment)
    {updated : List RestoreAssignment}
    → (restore parse now o rs).1 ≡ ok updated
    → Stored parse now (restore parse now o rs).0 rs
unfolding restore package_of
restore-expires parse now o [] h = tt
restore-expires parse now o (r ∷ rs) h = elim (Result-cases (expire_at now (read_lease parse r))) [
  | inl (a, e) ↦
      (let x = restore parse now (seed o a) rs in
        let (kept_id, kept_attempt, live) = expire_at-kept parse now r e in
        let (same_id, due) = expire_at-state parse now r e in
        let (rest, done) = with_updated-ok r a x (rw (e, restore) at h) in
        let q : (restore parse now o (r ∷ rs)).0 ≡ x.0 =
          rw (e, restore) (with_updated-scheduler r a x) in
        subst (λ s. Stored parse now s (r ∷ rs)) (sym q)
          (
            λ last. (
              a,
              restore-elsewhere parse now (seed o a) rs r.work_package_id last
                  ∙ seed-lookup o a r.work_package_id
                  ∙ ground (arith, kept_id, eq_refl r.work_package_id),
              same_id,
              kept_attempt,
              due,
            ),
            restore-expires parse now (seed o a) rs done,
          ))
  | inr (x, e) ↦ absurd (ground (arith, h, e))
]
