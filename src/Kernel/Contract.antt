-- ===== src/Kernel/Contract.antt =====
-- kernel/contract/contract.go and registry/capabilities/capabilities.go: the least-privilege
-- execution contract. The digest (encoding/json and crypto/sha256) is a parameter of `build`.
pub mod Privilege
use aa.Base.{
  ℕ, String, Bool, true, false, not, ◌&&◌, ◌||◌, Option, none, some, List, [], ◌∷◌, ◌++◌, any, keep,
  elem, str_eq, if◌then◌else◌, Result, ok, err, ◌>>=◌, ◌>>◌, fail_if,
}
use aa.Base.Sort.{sort_strings}

-- The pointers of the source are options; a float64 is carried as its 64-bit pattern.
pub record Budget : Type 0 where
  pub max_calls : Option ℕ
  pub max_tokens : Option ℕ
  pub max_cost_usd : Option ℕ
  pub max_duration_seconds : Option ℕ

pub record RuntimeSpec : Type 0 where
  pub kind : String
  pub provider : String
  pub model : String
  pub node_id : String

pub record Contract : Type 0 where
  pub id : String
  pub project_id : String
  pub work_package_id : String
  pub assignment_id : String
  pub capabilities : List String
  pub denied : List String
  pub runtime : Option RuntimeSpec
  pub budget : Budget
  pub gates : List String
  pub digest : String

pub record Request : Type 0 where
  pub id : String
  pub project_id : String
  pub work_package_id : String
  pub assignment_id : String
  pub requested : List String
  pub permitted : List String
  pub budget : Budget
  pub runtime : Option RuntimeSpec
  pub gates : List String

pub data Error : Type 0 where
  ids_required : Error
  unknown_capability : String → Error

-- capabilities.Known
abbrev pub known : List String
known =
    "read_project" ∷ "write_workspace" ∷ "execute_command" ∷ "run_tests" ∷ "network_access"
    ∷ "install_dependencies" ∷ "call_model" ∷ "read_secrets" ∷ "create_artifact"
    ∷ "open_pull_request" ∷ "merge" ∷ "deploy" ∷ []

unfoldable pub is_known : String → Bool
is_known c = elem c known

-- The loop of `sortedUnique`: the empty text and what was seen before are passed over.
unfoldable pub collect_unique : List String → List String → List String
collect_unique seen [] = []
collect_unique seen (v ∷ vs) =
    let skip = collect_unique seen vs in
    let take = v ∷ collect_unique (v ∷ seen) vs in if str_eq v "" || elem v seen then skip else take

unfoldable pub sorted_unique : List String → List String
unfolding collect_unique
sorted_unique values = sort_strings (collect_unique [] values)

-- The loop that refuses the first capability outside the vocabulary.
unfoldable pub check_known : List String → Result Error (Unit {0})
check_known [] = ok tt
check_known (c ∷ cs) = do fail_if (not (is_known c)) (unknown_capability c); check_known cs

-- The contract that `Build` assembles before its digest is computed.
unfoldable pub assemble : Request → Contract
assemble req =
    let requested = sorted_unique req.requested in
    record {
      id = req.id;
      project_id = req.project_id;
      work_package_id = req.work_package_id;
      assignment_id = req.assignment_id;
      capabilities = keep (λ c. elem c req.permitted) requested;
      denied = keep (λ c. not (elem c req.permitted)) requested;
      runtime = req.runtime;
      budget = req.budget;
      gates = sorted_unique req.gates;
      digest = "";
    }

unfoldable pub build : (Contract → String) → Request → Result Error Contract
build digest req = do
  fail_if (str_eq req.work_package_id "" || str_eq req.assignment_id "") ids_required
  check_known (req.requested ++ req.permitted)
  let contract = assemble req
  ok (record contract { digest = digest contract })

unfoldable pub has : Contract → String → Bool
has c capability = elem capability c.capabilities
