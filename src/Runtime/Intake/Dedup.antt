-- ===== src/Runtime/Intake/Dedup.antt =====
-- runtime/intake/intake.go: what `Submit` records and what it leaves alone.
use aa.Base.{
  suc, String, ◌≡◌, refl, ◌≢◌, ◌⊎◌, inl, inr, Bool, true, false, Option, none, some, List, [], ◌∷◌,
  length, is_some, str_eq, eq_iff, eq_refl, Result, ok, err, arith, Result-cases, Bool-cases, ◌∙◌,
}
use aa.Base.Assoc.{lookup, lookup-insert, length-insert}
use aa.Runtime.Intake.{
  Envelope, Error, conflict, Seen, Hash, hash_result, validate, register, submit,
}

-- What `Submit` promises of its answer.
abbrev pub SubmitOutcome : Hash → Seen → Envelope → Seen × Result Error Bool → Type 0
SubmitOutcome hash seen r (seen', err e) =
    (seen' ≡ seen)
    × ((validate r ≡ err e)
        ⊎ ((validate r ≡ ok tt)
            × (e ≡ conflict)
            × (lookup r.id seen ≢ some (hash_result hash r))
            × (is_some (lookup r.id seen) ≡ true)))
SubmitOutcome hash seen r (seen', ok true) =
    (validate r ≡ ok tt)
    × (lookup r.id seen ≡ none)
    × (lookup r.id seen' ≡ some (hash_result hash r))
    × (length seen' ≡ suc (length seen))
SubmitOutcome hash seen r (seen', ok false) =
    (validate r ≡ ok tt) × (lookup r.id seen ≡ some (hash_result hash r)) × (seen' ≡ seen)

register-outcome :
    (hash : Hash) (seen : Seen) (r : Envelope) (existing : Option String)
    → validate r ≡ ok tt
    → lookup r.id seen ≡ existing
    → SubmitOutcome hash seen r (register r.id (hash_result hash r) existing seen)
unfolding register
register-outcome hash seen r none good e = (
  good,
  e,
  lookup-insert r.id r.id (hash_result hash r) seen ∙ rw (eq_refl r.id),
  length-insert r.id (hash_result hash r) seen ∙ rw e,
)
register-outcome hash seen r (some x) good e = elim (Bool-cases (str_eq x (hash_result hash r))) [
  | inl h ↦ rw h (good, ground (arith, eq_iff x (hash_result hash r)), refl)
  | inr h ↦
      rw h (refl, inr (good, refl, (λ k. ground (arith, eq_iff x (hash_result hash r))), rw e))
]

-- `Submit` reports a new result exactly where its id was not seen, and then records one more hash; it
-- reports a known one where the id was seen with the same hash; every refusal, of an invalid envelope
-- or of an id seen with another hash, leaves the record alone.
pub submit-outcome :
    (hash : Hash) (seen : Seen) (r : Envelope) → SubmitOutcome hash seen r (submit hash seen r)
unfolding submit
submit-outcome hash seen r = elim (Result-cases (validate r)) [
  | inl (_, good) ↦ rw (good, submit) (register-outcome hash seen r (lookup r.id seen) good refl)
  | inr (e, bad) ↦ rw (bad, submit) (refl, inl bad)
]

-- Submitting an accepted result again changes nothing and reports that it is not new.
pub submit_again :
    (hash : Hash) (seen : Seen) (r : Envelope) {seen' : Seen} {fresh : Bool}
    → submit hash seen r ≡ (seen', ok fresh)
    → submit hash seen' r ≡ (seen', ok false)
unfolding submit
submit_again hash seen r e = ground (
  arith,
  lookup-insert r.id r.id (hash_result hash r) seen,
  eq_iff r.id r.id,
  eq_iff (hash_result hash r) (hash_result hash r),
  eq_refl r.id,
  eq_refl (hash_result hash r),
)

unfoldable pub submit_all : Hash → Seen → List Envelope → Seen
submit_all hash seen [] = seen
submit_all hash seen (r ∷ rs) = submit_all hash (submit hash seen r).0 rs

submit-keeps :
    (hash : Hash) (seen : Seen) (r : Envelope) (id h : String)
    → lookup id seen ≡ some h
    → lookup id (submit hash seen r).0 ≡ some h
unfolding submit
submit-keeps hash seen r id h e =
    ground (arith, lookup-insert r.id id (hash_result hash r) seen, eq_iff r.id id)

-- A recorded result is never replaced: whatever is submitted later, its id keeps its first hash.
pub submit_all-keeps :
    (hash : Hash) (seen : Seen) (rs : List Envelope) (id h : String)
    → lookup id seen ≡ some h
    → lookup id (submit_all hash seen rs) ≡ some h
unfolding submit_all
submit_all-keeps hash seen [] id h e = e
submit_all-keeps hash seen (r ∷ rs) id h e =
    submit_all-keeps hash (submit hash seen r).0 rs id h (submit-keeps hash seen r id h e)
