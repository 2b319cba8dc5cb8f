-- ===== src/Sync/Revision/Convergence.antt =====
-- sync/revision/revision.go: where applying a diff takes a replica.
use aa.Base.{
  String, ◌≡◌, ◌≢◌, refl, true, false, ◌&&◌, Option, none, some, List, [], ◌∷◌, str_eq, ltb,
  if◌then◌else◌, arith, eq_iff, eq_refl, elem, Option-cases, Bool-cases, inl, inr, ◌∙◌, str_lt,
  same_bool,
}
use aa.Base.Assoc.{lookup, keys, lookup-insert, elem-keys, HasUniqueKeys}
use aa.Base.Counts.{keys-Distinct, sort_by-Distinct}
use aa.Base.Ids.{Distinct}
use aa.Base.Sort.{sort_by, any-sort_by}
use aa.Sync.{RevisionRecord}
use aa.Sync.Revision.{
  Replica, diff, diff_paths, apply, apply_all, apply_op, put_record, Progress, is_up_to_date, op_of,
}

-- Every record of a replica stands under its own path, which is not empty.
abbrev pub IsNamed : Replica → Type 0
IsNamed s =
    (path : String) (r : RevisionRecord) → lookup path s ≡ some r → (r.path ≡ path) × (path ≢ "")

-- The record of one path after the replica was brought up to the source: the source's where it is
-- newer or was deleted or revived at the same revision, but an old tombstone stays.
abbrev pub merged : Option RevisionRecord → Option RevisionRecord → Option RevisionRecord
merged none here = here
merged (some source) none = some source
merged (some source) (some here) =
    if ltb source.revision here.revision
    then some here
    else if ltb here.revision source.revision
    then (if source.deleted && here.deleted then some here else some source)
    else if same_bool here.deleted source.deleted
    then some here
    else some source

apply_op-merges :
    (p : Progress) (path : String) (r : RevisionRecord) (j : String)
    → r.path ≡ path
    → path ≢ ""
    → p.failure ≡ none
    → is_up_to_date r (lookup path p.replica) ≡ false
    → ((apply_op p (op_of r)).failure ≡ none)
      × ((apply_op p (op_of r)).refused ≡ p.refused)
      × (lookup j (apply_op p (op_of r)).replica
          ≡ (if str_eq path j then merged (some r) (lookup path p.replica) else lookup j p.replica))
unfolding apply_op put_record
apply_op-merges p path r j e n f u =
    ground (arith, eq_iff r.path "", eq_iff path j, lookup-insert r.path j r p.replica, e, n, f, u)

merged-up_to_date :
    (r : RevisionRecord) (here : Option RevisionRecord)
    → is_up_to_date r here ≡ true
    → merged (some r) here ≡ here
merged-up_to_date r none h = absurd (ground arith)
merged-up_to_date r (some here) h = ground arith

-- What the rest of the operations leaves of a replica that agrees with the original on their paths.
abbrev Outcome : Replica → Replica → List String → Progress → Progress → String → Type 0
Outcome source original paths p q j =
    (q.failure ≡ none)
    × (q.refused ≡ p.refused)
    × (lookup j q.replica ≡ (
        if elem j paths then merged (lookup j source) (lookup j original) else lookup j p.replica))

diff_paths-merges :
    (source original : Replica) (paths : List String) (p : Progress)
    → IsNamed source
    → Distinct paths
    → p.failure ≡ none
    → ((j : String) → elem j paths ≡ true → lookup j p.replica ≡ lookup j original)
    → (j : String)
    → Outcome source original paths p (apply_all p (diff_paths source original paths)) j
unfolding diff_paths apply_all
diff_paths-merges source original [] p n d f same j = (f, refl, refl)
diff_paths-merges source original (path ∷ paths) p n d f same j =
    elim (Option-cases (lookup path source)) [
      | inl e ↦
          (let v =
              diff_paths-merges source original paths p n d.1 f (λ i h. same i (ground (arith, h)))
                j in
            ground (arith, v.0, v.1, v.2, e, eq_iff path j, same path, eq_refl path))
      | inr (r, e) ↦ elim (Bool-cases (is_up_to_date r (lookup path original))) [
        | inl u ↦
            (let v =
                diff_paths-merges source original paths p n d.1 f
                  (λ i h. same i (ground (arith, h))) j in
              ground (
                arith,
                v.0,
                v.1,
                v.2,
                e,
                u,
                merged-up_to_date r (lookup path original) u,
                eq_iff path j,
                same path,
                eq_refl path,
              ))
        | inr u ↦
            (let q = apply_op p (op_of r) in
              let stale : is_up_to_date r (lookup path p.replica) ≡ false =
                ground (arith, u, same path, eq_refl path) in
              let m =
                λ (i : String). apply_op-merges p path r i (n path r e).0 (n path r e).1 f stale in
              let v =
                diff_paths-merges source original paths q n d.1 (m j).0
                  (λ i h. ground (arith, (m i).2, same i, d.0, eq_iff path i, h)) j in
              ground (
                arith,
                v.0,
                v.1,
                v.2,
                (m j).0,
                (m j).1,
                (m j).2,
                e,
                u,
                eq_iff path j,
                same path,
                eq_refl path,
                d.0,
              ))
      ]
    ]

-- Bringing a replica up to a source by applying their diff never fails and refuses nothing; at each
-- path the replica then holds the source's record where that is newer, or was deleted or revived at
-- the same revision, and its own record otherwise; a tombstone is not replaced by a newer one.
pub apply-diff :
    (source replica : Replica) (j : String)
    → HasUniqueKeys source
    → IsNamed source
    → ((apply replica (diff source replica)).failure ≡ none)
      × ((apply replica (diff source replica)).refused ≡ [])
      × (lookup j (apply replica (diff source replica)).replica
          ≡ merged (lookup j source) (lookup j replica))
unfolding apply diff
apply-diff source replica j u n =
    let start : Progress = record {
      replica = replica;
      applied = 0;
      refused = [];
      failure = none;
    } in
    let v =
      diff_paths-merges source replica (sort_by str_lt (keys source)) start n
        (sort_by-Distinct (keys source) (keys-Distinct source u)) refl (λ i h. refl) j in
    (
      v.0,
      v.1,
      v.2
          ∙ ground (
            arith,
            any-sort_by str_lt (λ (x : String). str_eq x j) (keys source),
            elem-keys j source,
          ),
    )

-- Bringing it up to the source a second time changes nothing.
pub apply-diff-again :
    (source replica : Replica) (j : String)
    → HasUniqueKeys source
    → IsNamed source
    → let once = (apply replica (diff source replica)).replica in
      lookup j (apply once (diff source once)).replica ≡ lookup j once
apply-diff-again source replica j u n =
    let once = (apply replica (diff source replica)).replica in
    (apply-diff source once j u n).2 ∙ (ground (arith, (apply-diff source replica j u n).2))
