-- ===== src/Kernel/RoleAllocator.antt =====
-- kernel/allocator/role_allocator/role_allocator.go and runtime/worker/instance.go: which worker takes
-- a work package.
pub mod Selection
use aa.Base.{
  ℕ, String, Bool, true, false, not, ◌&&◌, ◌||◌, Option, none, some, List, [], ◌∷◌, ◌++◌, any, keep,
  elem, is_empty, str_eq, str_lt, if◌then◌else◌, Result, ok, err, ◌>>=◌, ◌>>◌, fail_if, is_some,
}
use aa.Base.Assoc.{lookup, insert, values}
use aa.Base.Int.{ℤ, ltℤ}
use aa.Base.Sort.{sort_by, sort_strings}

-- registry/roles: a role is compared by its text alone.
pub record Worker : Type 0 where
  pub id : String
  pub roles : List String
  pub capabilities : List String
  pub available : Bool
  pub node : String
  pub provider : String
  pub cost_weight : ℤ

-- The map from ids to workers.
abbrev pub Registry : Type 0
Registry = List (String × Worker)

pub data Error : Type 0 where
  id_required : Error
  duplicate : String → Error

unfoldable pub add : Registry → Worker → Result Error Registry
add r w = do
  fail_if (str_eq w.id "") id_required
  fail_if (is_some (lookup w.id r)) (duplicate w.id)
  ok (insert w.id w r)

abbrev pub id_less : Worker → Worker → Bool
id_less a b = str_lt a.id b.id

unfoldable pub list : Registry → List Worker
list r = sort_by id_less (values r)

pub record Requirement : Type 0 where
  pub roles : List String
  pub capabilities : List String

-- A candidate's reasons are always the one text "eligible".
pub data Reason : Type 0 where
  unavailable role_mismatch : Reason
  missing : List String → Reason

pub record Rejection : Type 0 where
  pub worker : Worker
  pub reason : Reason

unfoldable pub has_any_role : List String → List String → Bool
has_any_role have want = any (λ w. elem w have) want

unfoldable pub missing_capabilities : List String → List String → List String
missing_capabilities have want = sort_strings (keep (λ c. not (elem c have)) want)

-- The body of the loop of `Select`: `none` where the worker is accepted.
unfoldable pub refuse : Requirement → Worker → Option Reason
unfolding has_any_role missing_capabilities
refuse req w =
    if not w.available
    then some unavailable
    else if not (is_empty req.roles) && not (has_any_role w.roles req.roles)
    then some role_mismatch
    else (let lacking = missing_capabilities w.capabilities req.capabilities in
        if not (is_empty lacking) then some (missing lacking) else none)

unfoldable pub collect : Requirement → List Worker → List Worker × List Rejection
collect req [] = ([], [])
collect req (w ∷ ws) =
    let (accepted, rejected) = collect req ws in
    elim (refuse req w) [
      | none ↦ (w ∷ accepted, rejected)
      | some reason ↦ (accepted, record { worker = w; reason = reason } ∷ rejected)
    ]

-- By cost weight, then by id.
abbrev pub prefers : Worker → Worker → Bool
prefers a b =
    if ltℤ a.cost_weight b.cost_weight
    then true
    else if ltℤ b.cost_weight a.cost_weight
    then false
    else str_lt a.id b.id

unfoldable pub select : Registry → Requirement → List Worker × List Rejection
unfolding collect list
select r req =
    let (accepted, rejected) = collect req (list r) in
    (sort_by prefers accepted, sort_by (λ a b. id_less a.worker b.worker) rejected)

abbrev pub first : List Worker → Option Worker
first [] = none
first (w ∷ ws) = some w

unfoldable pub select_one : Registry → Requirement → Option Worker
unfolding select
select_one r req = first (select r req).0
