-- ===== src/Sync/Revision.antt =====
-- sync/revision/revision.go: one-way synchronisation of a replica with a source.
pub mod Convergence
use aa.Base.{
  ℕ, ◌+◌, String, Bool, true, false, not, ◌&&◌, ◌||◌, Option, none, some, List, [], ◌∷◌, ◌++◌,
  str_eq, is_some, same_bool, ltb, leb, ◌==◌, if◌then◌else◌, Result, ok, err,
}
use aa.Base.Assoc.{lookup, insert, keys}
use aa.Base.Sort.{sort_strings}
use aa.Sync.{RevisionRecord, Op, OpKind, put, delete}

-- `Set`: the latest record of each path.
abbrev pub Replica : Type 0
Replica = List (String × RevisionRecord)

pub data Error : Type 0 where
  path_required : Error
  conflict : String → ℕ → ℕ → Error

unfoldable pub new_set : Replica
new_set = []

-- `if existing, ok := s.records[rec.Path]; ok && existing.Revision > rec.Revision`
abbrev pub is_newer : Option RevisionRecord → ℕ → Bool
is_newer none n = false
is_newer (some existing) n = ltb n existing.revision

abbrev pub revision_of : Option RevisionRecord → ℕ
revision_of none = 0
revision_of (some existing) = existing.revision

unfoldable pub put_record : Replica → RevisionRecord → Result Error Replica
put_record s r =
    if str_eq r.path ""
    then err path_required
    else if is_newer (lookup r.path s) r.revision
    then err (conflict r.path (revision_of (lookup r.path s)) r.revision)
    else ok (insert r.path r s)

abbrev pub get : Replica → String → Option RevisionRecord
get s path = lookup path s

-- The two tests of `Diff` that leave a path out.
abbrev pub is_up_to_date : RevisionRecord → Option RevisionRecord → Bool
is_up_to_date source none = false
is_up_to_date source (some here) =
    (leb source.revision here.revision && same_bool here.deleted source.deleted)
    || ltb source.revision here.revision

abbrev pub op_of : RevisionRecord → Op
op_of source = record { kind = if source.deleted then delete else put; target = source }

-- The loop of `Diff` over the sorted paths.
unfoldable pub diff_paths : Replica → Replica → List String → List Op
diff_paths source replica [] = []
diff_paths source replica (path ∷ paths) =
    let rest = diff_paths source replica paths in
    elim (lookup path source) [
      | none ↦ rest
      | some r ↦ (if is_up_to_date r (lookup path replica) then rest else op_of r ∷ rest)
    ]

unfoldable pub diff : Replica → Replica → List Op
unfolding diff_paths
diff source replica = diff_paths source replica (sort_strings (keys source))

-- `Refusal`, with the reason of the guard or the error of `Put`.
pub data Refusal : Type 0 where
  replica_is_newer : String → Refusal
  refused_put : String → Error → Refusal

-- `Result`, with the replica that `Apply` works on and the error that ends it.
pub record Progress : Type 0 where
  pub replica : Replica
  pub applied : ℕ
  pub refused : List Refusal
  pub failure : Option Error

abbrev pub is_delete : OpKind → Bool
is_delete delete = true
is_delete put = false

-- Revision, hash and deletion flag of the replica's record are the operation's.
abbrev pub is_converged : Option RevisionRecord → RevisionRecord → Bool
is_converged none r = false
is_converged (some here) r =
    here.revision == r.revision && (str_eq here.hash r.hash && same_bool here.deleted r.deleted)

abbrev pub is_deleted : Option RevisionRecord → Bool
is_deleted none = false
is_deleted (some here) = here.deleted

-- What `Apply` makes of the answer of `Put`.
abbrev pub settle_put : Progress → RevisionRecord → Result Error Replica → Progress
settle_put p r (ok s) = record p { replica = s; applied = p.applied + 1 }
settle_put p r (err (conflict path mine theirs)) = record p {
  refused = p.refused ++ refused_put r.path (conflict path mine theirs) ∷ [];
}
settle_put p r (err path_required) = record p { failure = some path_required }

-- The body of the loop of `Apply`.
unfoldable pub apply_op : Progress → Op → Progress
unfolding put_record
apply_op p op =
    let here = lookup op.target.path p.replica in
    if is_converged here op.target
    then p
    else if is_delete op.kind && is_newer here op.target.revision
    then record p { refused = p.refused ++ replica_is_newer op.target.path ∷ [] }
    else if is_delete op.kind && is_deleted here
    then p
    else settle_put p op.target (put_record p.replica op.target)

-- The loop of `Apply`; an error of `Put` that is no conflict ends it.
unfoldable pub apply_all : Progress → List Op → Progress
unfolding apply_op
apply_all p [] = p
apply_all p (op ∷ ops) =
    let q = apply_op p op in
    let rest = apply_all q ops in elim q.failure [ none ↦ rest | some e ↦ q ]

unfoldable pub apply : Replica → List Op → Progress
unfolding apply_all
apply replica ops =
    apply_all (record { replica = replica; applied = 0; refused = []; failure = none }) ops
