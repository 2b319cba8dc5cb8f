-- ===== src/Runtime/Worker.antt =====
-- runtime/worker/worker.go: the request, the result and the scripted adapters of an attempt.
use aa.Base.{String, Bool, true, false, Option, none, some, List, [], ◌∷◌, ◌++◌}
use aa.Base.Assoc.{lookup, insert}

pub record Request : Type 0 where
  pub assignment_id : String
  pub work_package_id : String
  pub contract_id : String
  pub contract_digest : String
  pub context_digest : String
  pub instructions : String
  pub capabilities : List String

pub record TestResult : Type 0 where
  pub name : String
  pub outcome : String

pub record Artifact : Type 0 where
  pub id : String
  pub kind : String
  pub uri : String

pub record Failure : Type 0 where
  pub class : String
  pub message : String
  pub retryable : Bool

-- The texts that the comment on `Status` lists, and any other.
pub data Status : Type 0 where
  succeeded failed partial blocked cancelled : Status
  other : String → Status

pub record Result : Type 0 where
  pub status : Status
  pub summary : String
  pub tests : List TestResult
  pub artifacts : List Artifact
  pub failure : Option Failure

-- What `Adapter.Run` returns: a result, a context error (canceled or past its deadline), or another
-- error with its text.
pub data Outcome : Type 0 where
  returned : Result → Outcome
  interrupted : Outcome
  broken : String → Outcome

-- `Disabled.Run`
unfoldable pub disabled_run : Request → Outcome
disabled_run req = returned (record {
  status = blocked;
  summary = "";
  tests = [];
  artifacts = [];
  failure = some (record {
    class = "execution_disabled";
    message = "execution is disabled";
    retryable = false;
  });
})

pub record Fake : Type 0 where
  pub scripted : List (String × Result)
  pub calls : List Request

unfoldable pub new_fake : Fake
new_fake = record { scripted = []; calls = [] }

unfoldable pub script : Fake → String → Result → Fake
script f id result = record f { scripted = insert id result f.scripted }

abbrev no_script : Result
no_script = record {
  status = failed;
  summary = "";
  tests = [];
  artifacts = [];
  failure =
      some (record { class = "no_script"; message = "no scripted result"; retryable = false });
}

-- `Fake.Run`; `done` says whether `ctx.Err()` is set.
unfoldable pub fake_run : Fake → Bool → Request → Fake × Outcome
fake_run f done req =
    let f' : Fake = record f { calls = f.calls ++ req ∷ [] } in
    elim done [
      | true ↦ (f', interrupted)
      | false ↦ elim (lookup req.work_package_id f.scripted) [
        | none ↦ (f', returned no_script)
        | some result ↦ (f', returned result)
      ]
    ]
