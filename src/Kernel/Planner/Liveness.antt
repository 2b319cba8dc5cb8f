-- ===== src/Kernel/Planner/Liveness.antt =====
-- kernel/allocator/planner/planner.go: a valid graph always has a package to go on with.
use aa.Base.{
  String, ◌≡◌, refl, true, false, ◌||◌, some, List, [], ◌∷◌, ◌++◌, is_empty, get_or, is_some,
  all_mono, arith, eq_iff, eq_refl, any-append, elem, all, str_eq, Option-cases, Bool-cases, inl,
  inr, ◌∙◌, ap, subst, ok,
}
use aa.Base.Assoc.{lookup}
use aa.Kernel.Planner.{WorkPackage, Graph, dependencies, validate, get, ready_ids}
use aa.Kernel.Planner.Kahn.{is_ordered}
use aa.Kernel.Planner.Readiness.{IsWellFormed, elem-ready_ids, has_completed, is_startable}
use aa.Kernel.Planner.Validation.{lookup-dependencies, validate-Schedules}

nonempty : (xs : List String) (x : String) → elem x xs ≡ true → is_empty xs ≡ false
nonempty [] x h = absurd (ground arith)
nonempty (y ∷ xs) x h = refl

module _ (g : Graph) (v : IsWellFormed g)
    (idle : (id : String) (wp : WorkPackage)
      → lookup id g.nodes ≡ some wp
      → (is_startable wp.state || has_completed g.nodes id) ≡ true) where
  ready_now :
      (id : String) (wp : WorkPackage)
      → lookup id g.nodes ≡ some wp
      → has_completed g.nodes id ≡ false
      → all (has_completed g.nodes) wp.depends_on ≡ true
      → is_empty (ready_ids g) ≡ false
  unfolding get
  ready_now id wp e n d =
      nonempty (ready_ids g) id (ground (arith, elem-ready_ids g id v, idle id wp e, e, n, d))

  -- The first package of a schedule that is not completed is ready.
  first_ready :
      (seen w : List String) (x : String)
      → is_ordered (dependencies g.nodes) seen w ≡ true
      → ((j : String) → elem j w ≡ true → is_some (lookup j g.nodes) ≡ true)
      → ((j : String) → elem j seen ≡ true → has_completed g.nodes j ≡ true)
      → elem x w ≡ true
      → has_completed g.nodes x ≡ false
      → is_empty (ready_ids g) ≡ false
  unfolding is_ordered
  first_ready seen [] x o k s h n = absurd (ground arith)
  first_ready seen (y ∷ w) x o k s h n = elim (Bool-cases (has_completed g.nodes y)) [
    | inl e ↦
        first_ready (seen ++ y ∷ []) w x (ground arith) (λ j f. k j (ground (arith, f)))
          (λ j f. ground (arith, any-append (λ z. str_eq z j) seen (y ∷ []), s j, eq_iff y j, e, f))
          (ground (arith, eq_iff y x, e)) n
    | inr e ↦ elim (Option-cases (lookup y g.nodes)) [
      | inl f ↦ absurd (ground (arith, k y, eq_refl y, f))
      | inr (wp, f) ↦ ready_now y wp f e (
          all_mono (λ d. elem d seen) (has_completed g.nodes) wp.depends_on s
            (subst (λ l. all (λ d. elem d seen) l ≡ true)
              (ap (λ p. get_or p []) (lookup-dependencies g.nodes y) ∙ rw f refl) (ground arith)))
    ]
  ]

-- In a graph that `Validate` lets through and whose packages are all PROPOSED, READY or COMPLETED,
-- `Ready` lists a package as long as one is not COMPLETED: the plan cannot stall.
pub ready_ids-nonempty :
    (g : Graph) (id : String)
    → IsWellFormed g
    → validate g ≡ ok tt
    → ((j : String) (wp : WorkPackage)
        → lookup j g.nodes ≡ some wp
        → (is_startable wp.state || has_completed g.nodes j) ≡ true)
    → is_some (get g id) ≡ true
    → has_completed g.nodes id ≡ false
    → is_empty (ready_ids g) ≡ false
unfolding get
ready_ids-nonempty g id v e idle known n =
    let (order, s) = validate-Schedules g v e in
    let there : (j : String) → elem j order ≡ true → is_some (lookup j g.nodes) ≡ true =
      λ j h. ground (arith, s.members j, lookup-dependencies g.nodes j, h) in
    first_ready g v idle [] order id s.ordered there (λ j h. absurd (ground arith))
      (ground (arith, s.members id, lookup-dependencies g.nodes id, known)) n
