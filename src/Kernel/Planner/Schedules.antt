-- ===== src/Kernel/Planner/Schedules.antt =====
-- kernel/allocator/planner/planner.go: `Topological` finds an order exactly where there is one.
use aa.Base.{
  ℕ, String, ◌≡◌, refl, true, ◌&&◌, Option, none, some, List, [], ◌∷◌, ◌++◌, length, ◌==◌, is_some,
  all_mono, if_rule, if◌then◌else◌, arith, eq_iff, eq_refl, any-append, elem, all, str_eq, str_lt,
  Option-cases, Bool-cases, inl, inr, ◌∙◌, sym,
}
use aa.Base.Assoc.{lookup, keys, HasUniqueKeys, elem-keys}
use aa.Base.Counts.{sort_by-Distinct, length-Distinct-le, Distinct-covers, keys-Distinct}
use aa.Base.Ids.{Distinct}
use aa.Base.Sort.{sort_by, any-sort_by}
use aa.Kernel.Planner.Topology.{
  Dependencies, initial_indegree, roots, drain_all, drain_fuel, topological_order,
}
use aa.Kernel.Planner.Release.{deps_of}
use aa.Kernel.Planner.Drain.{drain_all-ends}
use aa.Kernel.Planner.Kahn.{
  Round, drain-Round, degree-initial, missing-start, missing-all, is_ordered,
}

elem-roots :
    (ns : Dependencies) (j : String)
    → HasUniqueKeys ns
    → elem j (roots (initial_indegree ns)) ≡ (is_some (lookup j ns) && length (deps_of ns j) == 0)
unfolding roots initial_indegree lookup
elem-roots [] j u = refl
elem-roots ((id, deps) ∷ ns) j u = ground (arith, elem-roots ns j u.1, u.0, eq_iff id j)

roots-Distinct : (ns : Dependencies) → HasUniqueKeys ns → Distinct (roots (initial_indegree ns))
unfolding roots initial_indegree
roots-Distinct [] u = tt
roots-Distinct ((id, deps) ∷ ns) u =
    if_rule Distinct (length deps == 0)
      (λ e. (ground (arith, elem-roots ns id u.1, u.0), roots-Distinct ns u.1))
      (λ e. roots-Distinct ns u.1)

first-Round :
    (ns : Dependencies)
    → HasUniqueKeys ns
    → Round ns (initial_indegree ns) (sort_by str_lt (roots (initial_indegree ns))) []
unfolding is_ordered
first-Round ns u = record {
  degrees = λ j. degree-initial ns j ∙ sym (missing-start (deps_of ns j));
  free = λ j. ground (
    arith,
    degree-initial ns j,
    any-sort_by str_lt (λ (x : String). str_eq x j) (roots (initial_indegree ns)),
    elem-roots ns j u,
  );
  one_each = tt;
  one_queued = sort_by-Distinct (roots (initial_indegree ns)) (roots-Distinct ns u);
  apart = λ j h. refl;
  ordered = refl;
}

-- An order of all the packages, each once and after its dependencies.
pub record IsSchedule (ns : Dependencies) (order : List String) : Type 0 where
  pub members : (j : String) → elem j order ≡ is_some (lookup j ns)
  pub once : Distinct order
  pub ordered : is_ordered ns [] order ≡ true

module _ (ns : Dependencies) (u : HasUniqueKeys ns) where
  final-Round :
      {order : List String}
      → drain_all ns ≡ some order
      → (m : List (String × ℕ)) × Round ns m [] order
  unfolding drain_all
  final-Round e = drain-Round ns (drain_fuel ns) (initial_indegree ns) _ [] u (first-Round ns u) e

  length-keys : {V : Type 0} (m : List (String × V)) → length (keys m) ≡ length m
  length-keys [] = refl
  length-keys (x ∷ m) = omega (arith, length-keys m)

  drained_known :
      (order : List String) (m : List (String × ℕ)) (j : String)
      → Round ns m [] order
      → elem j order ≡ true
      → elem j (keys ns) ≡ true
  drained_known order m j v h = ground (arith, v.free j, elem-keys j ns, h)

  drained-IsSchedule :
      (order : List String) (m : List (String × ℕ))
      → Round ns m [] order
      → length order ≡ length ns
      → IsSchedule ns order
  drained-IsSchedule order m v l = record {
    members = λ j. elim (Bool-cases (elem j (keys ns))) [
      | inl e ↦
          (let there =
              Distinct-covers order (keys ns) j v.one_each (λ k h. drained_known order m k v h)
                (omega (arith, length-keys ns, l)) e in
            ground (arith, there, e, elem-keys j ns))
      | inr e ↦ ground (arith, e, elem-keys j ns, drained_known order m j v)
    ];
    once = v.one_each;
    ordered = v.ordered;
  }

  -- A schedule `w` leaves nothing out of the order that the loop reached.
  drained_all :
      (order : List String) (m : List (String × ℕ)) (seen w : List String)
      → Round ns m [] order
      → is_ordered ns seen w ≡ true
      → ((j : String) → elem j w ≡ true → is_some (lookup j ns) ≡ true)
      → ((j : String) → elem j seen ≡ true → elem j order ≡ true)
      → (j : String) → elem j w ≡ true
      → elem j order ≡ true
  unfolding is_ordered
  drained_all order m seen [] v o k s j h = absurd (ground arith)
  drained_all order m seen (x ∷ w) v o k s j h =
      let deps_there : all (λ d. elem d order) (deps_of ns x) ≡ true =
        all_mono (λ d. elem d seen) (λ d. elem d order) (deps_of ns x) s (ground arith) in
      let x_there : elem x order ≡ true = ground (
        arith,
        v.free x,
        v.degrees x,
        missing-all order (deps_of ns x) deps_there,
        k x,
        eq_refl x,
      ) in
      elim (Bool-cases (elem j w)) [
        | inl e ↦
            drained_all order m (seen ++ x ∷ []) w v (ground arith) (λ i g. k i (ground arith))
              (λ i g.
                ground
                  (arith, s i, x_there, eq_iff x i, any-append (λ y. str_eq y i) seen (x ∷ [])))
              j e
        | inr e ↦ ground (arith, x_there, eq_iff x j)
      ]

counted-order :
    (ns : Dependencies) (drained : Option (List String)) {order : List String}
    → (elim drained [
      | none ↦ none
      | some found ↦ if length found == length ns then some found else none
    ])
      ≡ some order
    → (drained ≡ some order) × (length order ≡ length ns)
counted-order ns none e = absurd (ground arith)
counted-order ns (some found) e = ground arith

-- An order that is found holds every package once, and each after all its dependencies.
pub topological_order-IsSchedule :
    (ns : Dependencies) {order : List String}
    → HasUniqueKeys ns
    → topological_order ns ≡ some order
    → IsSchedule ns order
unfolding topological_order
topological_order-IsSchedule ns {order} u e =
    let (d, l) = counted-order ns (drain_all ns) e in
    let (m, v) = final-Round ns u d in drained-IsSchedule ns u order m v l

-- Where the packages have such an order at all, one is found.
pub topological_order_complete :
    (ns : Dependencies) (w : List String)
    → HasUniqueKeys ns
    → IsSchedule ns w
    → is_some (topological_order ns) ≡ true
unfolding topological_order
topological_order_complete ns w u s = elim (Option-cases (drain_all ns)) [
  | inl n ↦ absurd (ground (arith, drain_all-ends ns))
  | inr (order, d) ↦
      (let (m, v) = final-Round ns u d in
        let all_there = λ (j : String) (h : elem j (keys ns) ≡ true).
          drained_all ns u order m [] w v s.ordered (λ i g. sym (s.members i) ∙ g)
            (λ i g. absurd (ground arith)) j (s.members j ∙ sym (elem-keys j ns) ∙ h) in
        let longer = length-Distinct-le (keys ns) order (keys-Distinct ns u) all_there in
        let shorter =
          length-Distinct-le order (keys ns) v.one_each (λ j h. drained_known ns u order m j v h) in
        ground (arith, d, longer, shorter, length-keys ns u ns))
]
