-- ===== src/Examples/Replicas.antt =====
-- sync/revision/revision.go and sync/queue/queue.go: two small replicas.
use aa.Base.{◌≡◌, refl, true, false, ◌&&◌, none, [], ◌∷◌, All, str_eq, ok, arith, eq_iff, ltb, ◌∙◌}
use aa.Base.Assoc.{lookup, insert, HasUniqueKeys}
use aa.Sync.{RevisionRecord, Change}
use aa.Sync.Revision.{Replica, diff, apply}
use aa.Sync.Revision.Convergence.{IsNamed, merged, apply-diff}
use aa.Sync.Queue.{best_by_path, reconcile}
use aa.Sync.Queue.Latest.{IsBelow, all_of, best_by_path-newest}
use aa.Sync.Queue.Agreement.{mirror_result, reconcile-mirror}

abbrev old_file : RevisionRecord
old_file = record { id = "r1"; path = "f"; revision = 1; hash = "h1"; size = 3; deleted = false }

abbrev new_file : RevisionRecord
new_file = record old_file { id = "r2"; revision = 2; hash = "h2" }

abbrev origin : Replica
origin = ("f", new_file) ∷ []

abbrev copy : Replica
copy = ("f", old_file) ∷ []

origin-HasUniqueKeys : HasUniqueKeys origin
unfolding lookup
origin-HasUniqueKeys = (refl, tt)

origin-IsNamed : IsNamed origin
unfolding lookup
origin-IsNamed path r e =
    let same : "f" ≡ path = ground (arith, eq_iff "f" path, e) in
    (ground (arith, eq_iff "f" path, e), λ z. cc (same ∙ z))

apply-diff_example :
    ((apply copy (diff origin copy)).failure ≡ none)
    × ((apply copy (diff origin copy)).refused ≡ [])
    × (lookup "f" (apply copy (diff origin copy)).replica
        ≡ merged (lookup "f" origin) (lookup "f" copy))
apply-diff_example = apply-diff origin copy "f" origin-HasUniqueKeys origin-IsNamed

abbrev here : Change
here = record { revision = old_file; node = "n1" }

abbrev there : Change
there = record { revision = new_file; node = "n2" }

best_lem : best_by_path (there ∷ here ∷ []) ≡ ok (("f", there) ∷ [])
unfolding best_by_path lookup insert
best_lem = refl

best_by_path-newest_example :
    All
      (λ c. c.revision.path ≡ "f" → IsBelow c (lookup "f" (("f", there) ∷ [])))
      (there ∷ here ∷ [])
    × (all_of
          (lookup "f" (("f", there) ∷ []))
          (λ kept. ltb 0 kept.revision.revision && str_eq kept.revision.path "f")
        ≡ true)
best_by_path-newest_example =
    best_by_path-newest (there ∷ here ∷ []) "f" (λ c. ltb 0 c.revision.revision) best_lem refl

reconcile-mirror_example :
    reconcile (there ∷ []) (here ∷ []) ≡ mirror_result (reconcile (here ∷ []) (there ∷ []))
reconcile-mirror_example = reconcile-mirror (here ∷ []) (there ∷ [])
