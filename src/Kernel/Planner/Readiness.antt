-- ===== src/Kernel/Planner/Readiness.antt =====
-- kernel/allocator/planner/planner.go: what `Add`, `SetState` and `Ready` do to a graph.
use aa.Base.{
  String, ◌≡◌, refl, ◌≢◌, ◌⊎◌, Bool, true, false, ◌&&◌, Option, none, some, List, [], ◌∷◌, ◌++◌,
  all, elem, str_eq, eq_iff, is_some, if◌then◌else◌, Result, ok, err, arith, ◌∙◌, Bool-cases, inl,
  inr,
}
use aa.Base.Assoc.{lookup, keys, HasUniqueKeys}
use aa.Base.Sort.{any-sort_by, sort_by-IsSorted, IsSorted, str_order}
use aa.Base.{str_lt}
use aa.Kernel.Planner.{
  completed, proposed, ready, State, WorkPackage, Graph, Error, add, get, default_state, set_state,
  update_state, collect_ready, ready_ids, duplicate, id_required, new_graph,
}

-- The nodes that a graph can hold: each under its own id, and no id twice.
abbrev pub IsNamed : List (String × WorkPackage) → Type 0
IsNamed [] = Unit
IsNamed ((k, wp) ∷ ns) = (k ≡ wp.id) × (wp.id ≢ "") × IsNamed ns

pub record IsWellFormed (g : Graph) : Type 0 where
  pub unique : HasUniqueKeys g.nodes
  pub named : IsNamed g.nodes

pub new_graph-IsWellFormed : (p i : String) → IsWellFormed (new_graph p i)
unfolding new_graph
new_graph-IsWellFormed p i = record { unique = tt; named = tt }

module _ {ℓ} {V : Type ℓ} where
  pub lookup-snoc :
      (k j : String) (v : V) (m : List (String × V))
      → lookup k m ≡ none
      → lookup j (m ++ (k, v) ∷ []) ≡ (if str_eq k j then some v else lookup j m)
  unfolding lookup
  lookup-snoc k j v [] h = refl
  lookup-snoc k j v ((i, w) ∷ m) h =
      ground (arith, lookup-snoc k j v m, eq_iff i k, eq_iff k j, eq_iff i j)

  snoc-HasUniqueKeys :
      (k : String) (v : V) (m : List (String × V))
      → lookup k m ≡ none
      → HasUniqueKeys m
      → HasUniqueKeys (m ++ (k, v) ∷ [])
  unfolding lookup
  snoc-HasUniqueKeys k v [] h u = (refl, tt)
  snoc-HasUniqueKeys k v ((i, w) ∷ m) h u =
      ground (arith, snoc-HasUniqueKeys k v m, lookup-snoc k i v m, eq_iff i k, eq_iff k i)

snoc-IsNamed :
    (wp : WorkPackage) (m : List (String × WorkPackage))
    → wp.id ≢ ""
    → IsNamed m
    → IsNamed (m ++ (wp.id, wp) ∷ [])
snoc-IsNamed wp [] h n = (refl, h, tt)
snoc-IsNamed wp ((i, w) ∷ m) h n = (n.0, n.1, snoc-IsNamed wp m h n.2)

pub add-IsWellFormed :
    (g : Graph) (wp : WorkPackage) {g' : Graph}
    → IsWellFormed g
    → add g wp ≡ ok g'
    → IsWellFormed g'
unfolding add
add-IsWellFormed g wp v e =
    let wp' : WorkPackage = record wp { state = default_state wp.state } in
    ground (
      arith,
      eq_iff wp.id "",
      v.unique,
      v.named,
      snoc-HasUniqueKeys wp.id wp' g.nodes,
      snoc-IsNamed wp' g.nodes,
    )

-- What `Add` promises of its result, seen at one id.
abbrev pub AddOutcome : Graph → WorkPackage → String → Result Error Graph → Type 0
AddOutcome g wp j (ok g') =
    (wp.id ≢ "")
    × (get g wp.id ≡ none)
    × (get g' j
        ≡ (if str_eq wp.id j then some (record wp { state = default_state wp.state }) else get g j))
AddOutcome g wp j (err e) =
    ((wp.id ≡ "") × (e ≡ id_required))
    ⊎ ((wp.id ≢ "") × (is_some (get g wp.id) ≡ true) × (e ≡ duplicate wp.id))

-- `Add` refuses an empty or a taken id, and no other; after it the package is found under its id, in
-- the state PROPOSED if it had none, and every other id is found as before.
pub add-outcome : (g : Graph) (wp : WorkPackage) (j : String) → AddOutcome g wp j (add g wp)
unfolding add get
add-outcome g wp j = elim (Bool-cases (str_eq wp.id "")) [
  | inl e ↦ ground (arith, eq_iff wp.id "")
  | inr e ↦ ground (
    arith,
    eq_iff wp.id "",
    lookup-snoc wp.id j (record wp { state = default_state wp.state }) g.nodes,
  )
]

pub update_state-lookup :
    (id j : String) (s : State) (ns : List (String × WorkPackage))
    → lookup j (update_state id s ns) ≡ (elim (lookup j ns) [
      | none ↦ none
      | some wp ↦ some (if str_eq id j then record wp { state = s } else wp)
    ])
unfolding update_state lookup
update_state-lookup id j s [] = refl
update_state-lookup id j s ((k, wp) ∷ ns) =
    ground (arith, update_state-lookup id j s ns, eq_iff k id, eq_iff k j, eq_iff id j)

pub set_state-get :
    (g : Graph) (id j : String) (s : State) {g' : Graph}
    → set_state g id s ≡ ok g'
    → get g' j ≡ (elim (get g j) [
      | none ↦ none
      | some wp ↦ some (if str_eq id j then record wp { state = s } else wp)
    ])
unfolding set_state get
set_state-get g id j s e = ground (arith, update_state-lookup id j s g.nodes)

keys-update_state :
    (id : String) (s : State) (ns : List (String × WorkPackage))
    → keys (update_state id s ns) ≡ keys ns
unfolding update_state
keys-update_state id s [] = refl
keys-update_state id s ((k, wp) ∷ ns) = ground (arith, keys-update_state id s ns)

update_state-HasUniqueKeys :
    (id : String) (s : State) (ns : List (String × WorkPackage))
    → HasUniqueKeys ns
    → HasUniqueKeys (update_state id s ns)
unfolding update_state
update_state-HasUniqueKeys id s [] u = tt
update_state-HasUniqueKeys id s ((k, wp) ∷ ns) u =
    ground (arith, update_state-HasUniqueKeys id s ns u.1, update_state-lookup id k s ns)

update_state-IsNamed :
    (id : String) (s : State) (ns : List (String × WorkPackage))
    → IsNamed ns
    → IsNamed (update_state id s ns)
unfolding update_state
update_state-IsNamed id s [] n = tt
update_state-IsNamed id s ((k, wp) ∷ ns) n = ground (arith, update_state-IsNamed id s ns n.2)

pub set_state-IsWellFormed :
    (g : Graph) (id : String) (s : State) {g' : Graph}
    → IsWellFormed g
    → set_state g id s ≡ ok g'
    → IsWellFormed g'
unfolding set_state
set_state-IsWellFormed g id s v e = ground (
  arith,
  v.unique,
  v.named,
  update_state-HasUniqueKeys id s g.nodes,
  update_state-IsNamed id s g.nodes,
)

abbrev pub has_completed : List (String × WorkPackage) → String → Bool
has_completed nodes id = elim (lookup id nodes) [
  | none ↦ false
  | some wp ↦ elim wp.state [ completed ↦ true | _ ↦ false ]
]

abbrev pub is_startable : State → Bool
is_startable state = elim state [ proposed ↦ true | ready ↦ true | _ ↦ false ]

-- What makes a package ready, told without the code's own tests.
abbrev pub is_ready : List (String × WorkPackage) → Option WorkPackage → Bool
is_ready nodes none = false
is_ready nodes (some wp) = is_startable wp.state && all (has_completed nodes) wp.depends_on

pub elem-collect_ready :
    (nodes ns : List (String × WorkPackage)) (id : String)
    → HasUniqueKeys ns
    → elem id (collect_ready nodes ns) ≡ is_ready nodes (lookup id ns)
unfolding collect_ready lookup
elem-collect_ready nodes [] id u = refl
elem-collect_ready nodes ((k, wp) ∷ ns) id u =
    ground (arith, elem-collect_ready nodes ns id, eq_iff k id)

pub elem-ready_ids :
    (g : Graph) (id : String) → IsWellFormed g → elem id (ready_ids g) ≡ is_ready g.nodes (get g id)
unfolding ready_ids get
elem-ready_ids g id v =
    any-sort_by str_lt (λ x. str_eq x id) _ ∙ elem-collect_ready g.nodes g.nodes id v.unique

-- `Ready` lists exactly the packages that are PROPOSED or READY and whose dependencies are all in
-- the graph and COMPLETED, and it lists them in ascending order.
pub ready_ids_iff :
    (g : Graph) (id : String)
    → IsWellFormed g
    → (elem id (ready_ids g) ≡ is_ready g.nodes (get g id)) × IsSorted str_lt (ready_ids g)
unfolding ready_ids
ready_ids_iff g id v = (elem-ready_ids g id v, sort_by-IsSorted str_lt str_order _)
