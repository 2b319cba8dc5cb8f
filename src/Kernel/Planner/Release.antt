-- ===== src/Kernel/Planner/Release.antt =====
-- kernel/allocator/planner/planner.go, `topologicalLocked`: the children, and what one round does.
use aa.Base.{
  ℕ, ◌+◌, ◌-◌, String, ◌≡◌, refl, true, ◌&&◌, ◌||◌, List, [], ◌∷◌, ◌++◌, ◌==◌, get_or,
  if◌then◌else◌, arith, eq_iff, any-append, elem, str_eq, ltb, leb, if_rule,
}
use aa.Base.Assoc.{lookup, insert, lookup-insert, HasUniqueKeys}
use aa.Base.Counts.{count, count-append, count-sort_by, snoc-Distinct}
use aa.Base.Ids.{Distinct}
use aa.Kernel.Planner.Topology.{
  Dependencies, add_children, collect_children, sort_children, release,
}

abbrev pub deps_of : Dependencies → String → List String
deps_of ns id = get_or (lookup id ns) []

abbrev pub children_of : List (String × List String) → String → List String
children_of m id = get_or (lookup id m) []

count-add_children :
    (id : String) (deps : List String) (m : List (String × List String)) (d j : String)
    → count j (children_of (add_children id deps m) d)
      ≡ count j (children_of m d) + (if str_eq id j then count d deps else 0)
unfolding add_children count
count-add_children id [] m d j = ground arith
count-add_children id (dep ∷ deps) m d j =
    let m' = insert dep (children_of m dep ++ id ∷ []) m in
    ground (
      arith,
      count-add_children id deps m' d j,
      lookup-insert dep d (children_of m dep ++ id ∷ []) m,
      count-append j (children_of m dep) (id ∷ []),
      eq_iff dep d,
    )

count-collect_children :
    (ns : Dependencies) (m : List (String × List String)) (d j : String)
    → HasUniqueKeys ns
    → count j (children_of (collect_children ns m) d)
      ≡ count j (children_of m d) + count d (deps_of ns j)
unfolding collect_children count lookup
count-collect_children [] m d j u = omega arith
count-collect_children ((id, deps) ∷ ns) m d j u = ground (
  arith,
  count-collect_children ns (add_children id deps m) d j,
  count-add_children id deps m d j,
  u.0,
  u.1,
  eq_iff id j,
)

lookup-sort_children :
    (m : List (String × List String)) (d j : String)
    → count j (children_of (sort_children m) d) ≡ count j (children_of m d)
unfolding sort_children lookup
lookup-sort_children [] d j = refl
lookup-sort_children ((k, ids) ∷ m) d j =
    ground (arith, lookup-sort_children m d j, count-sort_by j ids)

-- A package is a child of an id as often as it names the id among its dependencies.
pub count-children :
    (ns : Dependencies) (d j : String)
    → HasUniqueKeys ns
    → count j (children_of (sort_children (collect_children ns [])) d) ≡ count d (deps_of ns j)
unfolding count lookup
count-children ns d j u =
    omega
      (arith, lookup-sort_children (collect_children ns []) d j, count-collect_children ns [] d j u)

abbrev pub degree : List (String × ℕ) → String → ℕ
degree m id = get_or (lookup id m) 0

pub degree-release :
    (cs : List String) (m : List (String × ℕ)) (q : List String) (j : String)
    → degree (release cs m q).0 j ≡ degree m j - count j cs
unfolding release count
degree-release [] m q j = omega arith
degree-release (c ∷ cs) m q j =
    let d = degree m c in
    ground (
      arith,
      degree-release cs (insert c (d - 1) m) (if d == 1 then q ++ c ∷ [] else q) j,
      lookup-insert c j (d - 1) m,
      eq_iff c j,
    )

pub elem-release :
    (cs : List String) (m : List (String × ℕ)) (q : List String) (j : String)
    → elem j (release cs m q).1
      ≡ (elem j q || (ltb 0 (degree m j) && leb (degree m j) (count j cs)))
unfolding release count
elem-release [] m q j = ground arith
elem-release (c ∷ cs) m q j =
    let d = degree m c in
    ground (
      arith,
      elem-release cs (insert c (d - 1) m) (if d == 1 then q ++ c ∷ [] else q) j,
      lookup-insert c j (d - 1) m,
      eq_iff c j,
      any-append (λ x. str_eq x j) q (c ∷ []),
    )

pub release-Distinct :
    (cs : List String) (m : List (String × ℕ)) (q : List String)
    → ((j : String) → elem j q ≡ true → degree m j ≡ 0)
    → Distinct q
    → Distinct (release cs m q).1
unfolding release
release-Distinct [] m q z d = d
release-Distinct (c ∷ cs) m q z d =
    let n = degree m c in
    release-Distinct cs (insert c (n - 1) m) (if n == 1 then q ++ c ∷ [] else q)
      (λ j h. ground (
        arith,
        lookup-insert c j (n - 1) m,
        any-append (λ x. str_eq x j) q (c ∷ []),
        z j,
        eq_iff c j,
        h,
      ))
      (if_rule Distinct (n == 1) (λ e. snoc-Distinct q c (ground (arith, z c, e)) d) (λ e. d))
