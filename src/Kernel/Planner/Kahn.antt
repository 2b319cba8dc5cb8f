-- ===== src/Kernel/Planner/Kahn.antt =====
-- kernel/allocator/planner/planner.go, `topologicalLocked`: what holds in every round of the loop, and
-- what it makes of the order in the end.
use aa.Base.{
  ℕ, zero, suc, ◌+◌, String, ◌≡◌, refl, Bool, true, false, ◌&&◌, ◌||◌, some, List, [], ◌∷◌, ◌++◌,
  length, ◌==◌, is_some, some_inj, if◌then◌else◌, arith, eq_iff, eq_refl, any-append, elem, all,
  str_eq, str_lt, ltb, ◌∙◌, ap, sym, subst, append-nil,
}
use aa.Base.Assoc.{lookup, HasUniqueKeys}
use aa.Base.Counts.{count, snoc-Distinct, sort_by-Distinct}
use aa.Base.Ids.{Distinct}
use aa.Base.Sort.{sort_by, any-sort_by}
use aa.Kernel.Planner.Topology.{
  Dependencies, initial_indegree, collect_children, sort_children, release, drain,
}
use aa.Kernel.Planner.Release.{
  deps_of, children_of, degree, count-children, degree-release, elem-release, release-Distinct,
}

-- How many of the dependencies are not in the order yet.
unfoldable pub missing : List String → List String → ℕ
missing order [] = 0
missing order (d ∷ deps) = (if elem d order then 0 else 1) + missing order deps

missing-snoc :
    (order : List String) (id : String) (deps : List String)
    → elem id order ≡ false
    → missing (order ++ id ∷ []) deps + count id deps ≡ missing order deps
unfolding missing count
missing-snoc order id [] h = omega arith
missing-snoc order id (d ∷ deps) h = ground (
  arith,
  missing-snoc order id deps h,
  any-append (λ x. str_eq x d) order (id ∷ []),
  eq_iff id d,
  eq_iff d id,
  h,
)

missing-none :
    (order deps : List String) → missing order deps ≡ 0 → all (λ d. elem d order) deps ≡ true
unfolding missing
missing-none order [] h = refl
missing-none order (d ∷ deps) h = ground (arith, missing-none order deps)

pub missing-all :
    (order deps : List String) → all (λ d. elem d order) deps ≡ true → missing order deps ≡ 0
unfolding missing
missing-all order [] h = refl
missing-all order (d ∷ deps) h = ground (arith, missing-all order deps)

-- Every id of the list comes after all its dependencies; those of `seen` came before.
unfoldable pub is_ordered : Dependencies → List String → List String → Bool
is_ordered ns seen [] = true
is_ordered ns seen (x ∷ xs) =
    all (λ d. elem d seen) (deps_of ns x) && is_ordered ns (seen ++ x ∷ []) xs

append_snoc :
    (xs : List String) (y : String) (ys : List String) → (xs ++ y ∷ []) ++ ys ≡ xs ++ y ∷ ys
append_snoc [] y ys = refl
append_snoc (x ∷ xs) y ys = ap (λ l. x ∷ l) (append_snoc xs y ys)

is_ordered-snoc :
    (ns : Dependencies) (seen xs : List String) (x : String)
    → is_ordered ns seen xs ≡ true
    → all (λ d. elem d (seen ++ xs)) (deps_of ns x) ≡ true
    → is_ordered ns seen (xs ++ x ∷ []) ≡ true
unfolding is_ordered
is_ordered-snoc ns seen [] x h k =
    rw (subst (λ l. all (λ d. elem d l) (deps_of ns x) ≡ true) (append-nil seen) k) refl
is_ordered-snoc ns seen (y ∷ xs) x h k =
    let rest =
      is_ordered-snoc ns (seen ++ y ∷ []) xs x (ground arith)
        (subst (λ l. all (λ d. elem d l) (deps_of ns x) ≡ true) (sym (append_snoc seen y xs)) k) in
    ground (arith, rest)

pub record Round (ns : Dependencies) (m : List (String × ℕ)) (queue order : List String)
    : Type 0 where
  pub degrees : (j : String) → degree m j ≡ missing order (deps_of ns j)
  pub free :
      (j : String) → (is_some (lookup j ns) && degree m j == 0) ≡ (elem j order || elem j queue)
  pub one_each : Distinct order
  pub one_queued : Distinct queue
  pub apart : (j : String) → elem j queue ≡ true → elem j order ≡ false
  pub ordered : is_ordered ns [] order ≡ true

module _ (ns : Dependencies) (u : HasUniqueKeys ns) (m : List (String × ℕ)) (id : String)
    (queue order : List String) (v : Round ns m (id ∷ queue) order) where
  abbrev children : List String
  children = children_of (sort_children (collect_children ns [])) id

  abbrev released : List (String × ℕ) × List String
  released = release children m queue

  fresh : elem id order ≡ false
  fresh = v.apart id (ground (arith, eq_refl id))

  front : degree m id ≡ 0
  front = ground (arith, v.free id, eq_refl id)

  queued_free : (j : String) → elem j queue ≡ true → degree m j ≡ 0
  queued_free j h = ground (arith, v.free j)

  named : (j : String) → ltb 0 (count id (deps_of ns j)) ≡ true → is_some (lookup j ns) ≡ true
  unfolding count
  named j h = ground arith

  next-degrees : (j : String) → degree released.0 j ≡ missing (order ++ id ∷ []) (deps_of ns j)
  next-degrees j = omega (
    arith,
    degree-release children m queue j,
    count-children ns id j u,
    v.degrees j,
    missing-snoc order id (deps_of ns j) fresh,
  )

  next-free :
      (j : String)
      → (is_some (lookup j ns) && degree released.0 j == 0)
        ≡ (elem j (order ++ id ∷ []) || elem j (sort_by str_lt released.1))
  next-free j = ground (
    arith,
    any-sort_by str_lt (λ (x : String). str_eq x j) released.1,
    elem-release children m queue j,
    degree-release children m queue j,
    count-children ns id j u,
    v.free j,
    named j,
    any-append (λ x. str_eq x j) order (id ∷ []),
  )

  next-apart :
      (j : String) → elem j (sort_by str_lt released.1) ≡ true → elem j (order ++ id ∷ []) ≡ false
  next-apart j h = ground (
    arith,
    h,
    any-sort_by str_lt (λ (x : String). str_eq x j) released.1,
    elem-release children m queue j,
    v.free j,
    v.apart j,
    v.one_queued.0,
    front,
    eq_iff id j,
    any-append (λ x. str_eq x j) order (id ∷ []),
  )

  pub next-Round : Round ns released.0 (sort_by str_lt released.1) (order ++ id ∷ [])
  next-Round = record {
    degrees = next-degrees;
    free = next-free;
    one_each = snoc-Distinct order id fresh v.one_each;
    one_queued =
        sort_by-Distinct released.1 (release-Distinct children m queue queued_free v.one_queued.1);
    apart = next-apart;
    ordered =
        is_ordered-snoc ns [] order id v.ordered
          (missing-none order (deps_of ns id) (sym (v.degrees id) ∙ front));
  }

-- The loop ends in a round with an empty queue.
pub drain-Round :
    (ns : Dependencies) (fuel : ℕ) (m : List (String × ℕ)) (queue order : List String)
    {final : List String}
    → HasUniqueKeys ns
    → Round ns m queue order
    → drain fuel (sort_children (collect_children ns [])) m queue order ≡ some final
    → (m' : List (String × ℕ)) × Round ns m' [] final
unfolding drain
drain-Round ns zero m queue order u v e = absurd (ground arith)
drain-Round ns (suc fuel) m [] order {final} u v e =
    (m, subst (λ l. Round ns m [] l) (some_inj e) v)
drain-Round ns (suc fuel) m (id ∷ queue) order u v e =
    drain-Round ns fuel _ _ _ u (next-Round ns u m id queue order v) e

pub degree-initial :
    (ns : Dependencies) (j : String) → degree (initial_indegree ns) j ≡ length (deps_of ns j)
unfolding initial_indegree lookup
degree-initial [] j = refl
degree-initial ((id, deps) ∷ ns) j = ground (arith, degree-initial ns j)

pub missing-start : (deps : List String) → missing [] deps ≡ length deps
unfolding missing
missing-start [] = refl
missing-start (d ∷ deps) = omega (arith, missing-start deps)
