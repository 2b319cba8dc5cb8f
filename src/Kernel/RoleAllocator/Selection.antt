-- ===== src/Kernel/RoleAllocator/Selection.antt =====
-- kernel/allocator/role_allocator/role_allocator.go: who is selected and who is not.
use aa.Base.{
  String, ◌≡◌, refl, ◌∙◌, Bool, true, false, not, ◌&&◌, ◌||◌, Option, none, some, List, [], ◌∷◌,
  any, all, keep, elem, is_empty, str_eq, str_lt, str_lt_asymm, eq_refl, sym, arith, length, ◌+◌,
}
use aa.Base.Assoc.{values}
use aa.Base.Int.{ltℤ_asymm, ltℤ_cotrans, ltℤ_trans}
use aa.Base.Sort.{
  sort_by, any-sort_by, all-sort_by, length-sort_by, sort_by-IsSorted, IsSorted, IsOrder, str_order,
}
use aa.Kernel.RoleAllocator.{
  Worker, Registry, Requirement, Rejection, refuse, collect, first, prefers, select, select_one,
  list, id_less,
}

-- Independent of the order of the tests in the loop: what an eligible worker has.
abbrev pub is_eligible : Requirement → Worker → Bool
is_eligible req w =
    w.available
    && (is_empty req.roles || any (λ r. elem r w.roles) req.roles)
    && all (λ c. elem c w.capabilities) req.capabilities

is_empty-sort_by : (xs : List String) → is_empty (sort_by str_lt xs) ≡ is_empty xs
is_empty-sort_by xs = ground (arith, length-sort_by str_lt xs)

is_empty-keep :
    (p : String → Bool) (xs : List String) → is_empty (keep (λ c. not (p c)) xs) ≡ all p xs
is_empty-keep p [] = refl
is_empty-keep p (x ∷ xs) = ground (arith, is_empty-keep p xs)

accepted_iff :
    (req : Requirement) (w : Worker)
    → is_eligible req w ≡ (elim (refuse req w) [ none ↦ true | some r ↦ false ])
unfolding refuse
accepted_iff req w = ground (
  arith,
  is_empty-sort_by (keep (λ (c : String). not (elem c w.capabilities)) req.capabilities),
  is_empty-keep (λ (c : String). elem c w.capabilities) req.capabilities,
)

prefers_asymm : (x y : Worker) → prefers x y ≡ true → prefers y x ≡ false
prefers_asymm x y h = ground (arith, ltℤ_asymm x.cost_weight y.cost_weight, str_lt_asymm x.id y.id)

prefers_cotrans : (x y z : Worker) → prefers x z ≡ true → prefers y z ≡ false → prefers x y ≡ true
prefers_cotrans x y z h k = ground (
  arith,
  ltℤ_asymm x.cost_weight y.cost_weight,
  ltℤ_asymm y.cost_weight x.cost_weight,
  ltℤ_asymm x.cost_weight z.cost_weight,
  ltℤ_asymm y.cost_weight z.cost_weight,
  ltℤ_cotrans x.cost_weight y.cost_weight z.cost_weight,
  ltℤ_cotrans z.cost_weight y.cost_weight x.cost_weight,
  ltℤ_cotrans z.cost_weight x.cost_weight y.cost_weight,
  ltℤ_trans y.cost_weight x.cost_weight z.cost_weight,
  str_order.cotrans x.id y.id z.id,
)

prefers_order : IsOrder prefers
prefers_order = record { asymm = prefers_asymm; cotrans = prefers_cotrans }

any-collect :
    (req : Requirement) (p : Worker → Bool) (ws : List Worker)
    → any p (collect req ws).0 ≡ any (λ w. p w && is_eligible req w) ws
unfolding collect
any-collect req p [] = refl
any-collect req p (w ∷ ws) = ground (arith, any-collect req p ws, accepted_iff req w)

all-collect :
    (req : Requirement) (p : Worker → Bool) (ws : List Worker)
    → all p (collect req ws).0 ≡ all (λ w. p w || not (is_eligible req w)) ws
unfolding collect
all-collect req p [] = refl
all-collect req p (w ∷ ws) = ground (arith, all-collect req p ws, accepted_iff req w)

eligible_or_not : (p : Worker → Bool) (ws : List Worker) → all (λ w. p w || not (p w)) ws ≡ true
eligible_or_not p [] = refl
eligible_or_not p (w ∷ ws) = ground (arith, eligible_or_not p ws)

any-accepted :
    (r : Registry) (req : Requirement) (p : Worker → Bool)
    → any p (select r req).0 ≡ any (λ w. p w && is_eligible req w) (values r)
unfolding select list
any-accepted r req p =
    any-sort_by prefers p (collect req (list r)).0
    ∙ any-collect req p (list r)
    ∙ any-sort_by id_less (λ w. p w && is_eligible req w) (values r)

all-accepted : (r : Registry) (req : Requirement) → all (is_eligible req) (select r req).0 ≡ true
unfolding select
all-accepted r req =
    all-sort_by prefers (is_eligible req) (collect req (list r)).0
    ∙ all-collect req (is_eligible req) (list r)
    ∙ eligible_or_not (is_eligible req) (list r)

accepted-IsSorted : (r : Registry) (req : Requirement) → IsSorted prefers (select r req).0
unfolding select
accepted-IsSorted r req = sort_by-IsSorted prefers prefers_order _

-- What `SelectOne` promises of its answer.
abbrev pub SelectOutcome : Registry → Requirement → Option Worker → Type 0
SelectOutcome r req none = any (is_eligible req) (values r) ≡ false
SelectOutcome r req (some w) =
    (any (λ x. str_eq x.id w.id && is_eligible req x) (values r) ≡ true)
    × (is_eligible req w ≡ true)
    × (any (λ x. prefers x w && is_eligible req x) (values r) ≡ false)

first-outcome :
    (r : Registry) (req : Requirement) (ws : List Worker)
    → ((p : Worker → Bool) → any p ws ≡ any (λ w. p w && is_eligible req w) (values r))
    → all (is_eligible req) ws ≡ true
    → IsSorted prefers ws
    → SelectOutcome r req (first ws)
first-outcome r req [] h a s = sym (h (λ w. true))
first-outcome r req (w ∷ ws) h a s = (
  sym (h (λ x. str_eq x.id w.id)) ∙ rw (eq_refl w.id),
  ground arith,
  sym (h (λ x. prefers x w)) ∙ (ground (arith, s, prefers_asymm w w)),
)

-- The worker that `SelectOne` finds is registered and eligible (available, of one of the roles asked
-- for, if any, and with every capability), and no eligible worker is preferred to it; where it finds
-- none, no registered worker is eligible.
pub select_one-outcome : (r : Registry) (req : Requirement) → SelectOutcome r req (select_one r req)
unfolding select_one
select_one-outcome r req =
    first-outcome r req (select r req).0 (any-accepted r req) (all-accepted r req)
      (accepted-IsSorted r req)

length-collect :
    (req : Requirement) (ws : List Worker)
    → length (collect req ws).0 + length (collect req ws).1 ≡ length ws
unfolding collect
length-collect req [] = omega arith
length-collect req (w ∷ ws) = ground (arith, length-collect req ws)

-- `Select` loses no worker: the accepted and the rejected together are as many as the registry holds.
pub length-select :
    (r : Registry) (req : Requirement)
    → length (select r req).0 + length (select r req).1 ≡ length (values r)
unfolding select list
length-select r req = omega (
  arith,
  length-collect req (list r),
  length-sort_by prefers (collect req (list r)).0,
  length-sort_by (λ (a b : Rejection). id_less a.worker b.worker) (collect req (list r)).1,
  length-sort_by id_less (values r),
)
