-- ===== src/Sync/Parallel.antt =====
-- sync/parallel/parallel.go: the placement of work packages on nodes.
pub mod Balance
pub mod Placement
use aa.Base.{
  ℕ, zero, suc, ◌+◌, ◌%◌, String, Bool, Option, none, some, List, [], ◌∷◌, ◌++◌, map, length,
  str_eq, true, elem, ltb, is_empty, if◌then◌else◌, Result, ok, err, ◌>>=◌,
}
use aa.Base.Sort.{sort_strings}

pub data Error : Type 0 where
  node_required at_least_one_node package_required : Error

pub record Assignment : Type 0 where
  pub node : String
  pub packages : List String

pub record Coordinator : Type 0 where
  pub nodes : List String

-- The loop of `NewCoordinator`; `seen` is the set of the nodes in `clean`.
unfoldable pub clean_nodes : List String → List String → Result Error (List String)
clean_nodes clean [] = ok clean
clean_nodes clean (n ∷ ns) =
    let rest = clean_nodes (if elem n clean then clean else clean ++ n ∷ []) ns in
    if str_eq n "" then err node_required else rest

abbrev pub sorted_coordinator : List String → Result Error Coordinator
sorted_coordinator clean =
    if is_empty clean then err at_least_one_node else ok (record { nodes = sort_strings clean })

unfoldable pub new_coordinator : List String → Result Error Coordinator
unfolding clean_nodes
new_coordinator nodes = do clean ← clean_nodes [] nodes; sorted_coordinator clean

-- `assignments[idx].Packages = append(assignments[idx].Packages, id)`
unfoldable pub append_at : ℕ → String → List Assignment → List Assignment
append_at i id [] = []
append_at zero id (a ∷ rest) = record a { packages = a.packages ++ id ∷ [] } ∷ rest
append_at (suc i) id (a ∷ rest) = a ∷ append_at i id rest

-- The round-robin loop from its `i`-th round, over `k` nodes.
unfoldable pub place : ℕ → ℕ → List String → List Assignment → List Assignment
unfolding append_at
place k i [] assignments = assignments
place k i (id ∷ ids) assignments = place k (i + 1) ids (append_at (i % k) id assignments)

abbrev pub idle : String → Assignment
idle n = record { node = n; packages = [] }

unfoldable pub assign : Coordinator → List String → Result Error (List Assignment)
unfolding place
assign c package_ids =
    let ids = sort_strings package_ids in
    if elem "" ids
    then err package_required
    else ok (place (length c.nodes) 0 ids (map idle c.nodes))

-- The loop of `MostLoaded`.
unfoldable pub most_from : ℕ → List Assignment → ℕ
most_from most [] = most
most_from most (a ∷ rest) =
    most_from (if ltb most (length a.packages) then length a.packages else most) rest

unfoldable pub most_loaded : List Assignment → ℕ
unfolding most_from
most_loaded assignments = most_from 0 assignments

-- `least < 0 || len(a.Packages) < least`; `none` is -1.
abbrev pub is_less : ℕ → Option ℕ → Bool
is_less n none = true
is_less n (some least) = ltb n least

-- The loop of `LeastLoaded`.
unfoldable pub least_from : Option ℕ → List Assignment → Option ℕ
least_from least [] = least
least_from least (a ∷ rest) =
    least_from (if is_less (length a.packages) least then some (length a.packages) else least) rest

abbrev pub or_zero : Option ℕ → ℕ
or_zero none = 0
or_zero (some n) = n

unfoldable pub least_loaded : List Assignment → ℕ
unfolding least_from
least_loaded assignments = or_zero (least_from none assignments)
