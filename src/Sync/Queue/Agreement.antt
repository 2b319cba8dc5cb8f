-- ===== src/Sync/Queue/Agreement.antt =====
-- sync/queue/queue.go: the two sides of a reconciliation agree.
use aa.Base.{
  String, ◌≡◌, refl, Bool, true, false, not, ◌||◌, Option, none, some, List, [], ◌∷◌, ◌++◌, map,
  elem, keep, str_eq, str_lt, Result, ok, err, arith, eq_iff, eq_refl, Result-cases, inl, inr, ◌∙◌,
  ap, any-append, if_rule, elem-keep,
}
use aa.Base.Assoc.{lookup, keys, HasUniqueKeys, insert-HasUniqueKeys}
use aa.Base.Sort.{any-sort_by, IsSorted, sort_by-IsSorted, str_order}
use aa.Base.Counts.{sorted-eq, sort_by-Distinct, keys-Distinct}
use aa.Base.Ids.{Distinct}
use aa.Sync.{Change}
use aa.Sync.Queue.{
  Queue, Error, Conflict, Decision, same, decide_both, decide_path, decide_paths, all_paths,
  best_by_path, best_from, enqueue, path_required, reconcile,
}

abbrev flipped : Conflict → Conflict
flipped c = record { path = c.path; local = c.remote; remote = c.local }

-- A decision as the other replica sees it.
abbrev pub mirror : Decision → Decision
mirror d = record {
  send = d.apply;
  apply = d.send;
  converged = d.converged;
  conflicts = map flipped d.conflicts;
}

abbrev pub mirror_result : Result Error Decision → Result Error Decision
mirror_result (ok d) = ok (mirror d)
mirror_result (err e) = err e

decide_both-mirror :
    (path : String) (l r : Change) (d : Decision)
    → decide_both path r l (mirror d) ≡ mirror (decide_both path l r d)
unfolding decide_both same
decide_both-mirror path l r d =
    ground (arith, eq_iff l.revision.hash r.revision.hash, eq_iff r.revision.hash l.revision.hash)

decide_path-mirror :
    (path : String) (l r : Option Change) (d : Decision)
    → decide_path path r l (mirror d) ≡ mirror (decide_path path l r d)
unfolding decide_path
decide_path-mirror path none none d = refl
decide_path-mirror path (some l) none d = refl
decide_path-mirror path none (some r) d = refl
decide_path-mirror path (some l) (some r) d = decide_both-mirror path l r d

decide_paths-mirror :
    (l r : Queue) (paths : List String) → decide_paths r l paths ≡ mirror (decide_paths l r paths)
unfolding decide_paths
decide_paths-mirror l r [] = refl
decide_paths-mirror l r (path ∷ paths) =
    ap (decide_path path (lookup path r) (lookup path l)) (decide_paths-mirror l r paths)
    ∙ decide_path-mirror path (lookup path l) (lookup path r) (decide_paths l r paths)

elem-all_paths :
    (l r : Queue) (j : String) → elem j (all_paths l r) ≡ (elem j (keys l) || elem j (keys r))
unfolding all_paths
elem-all_paths l r j =
    any-sort_by str_lt (λ (x : String). str_eq x j)
      (keys l ++ keep (λ p. not (elem p (keys l))) (keys r))
    ∙ any-append (λ x. str_eq x j) (keys l) (keep (λ p. not (elem p (keys l))) (keys r))
    ∙ ground (arith, elem-keep (λ p. not (elem p (keys l))) j (keys r))

keep-Distinct : (p : String → Bool) (xs : List String) → Distinct xs → Distinct (keep p xs)
keep-Distinct p [] d = tt
keep-Distinct p (x ∷ xs) d =
    if_rule Distinct (p x) (λ e. (ground (arith, elem-keep p x xs, d.0), keep-Distinct p xs d.1))
      (λ e. keep-Distinct p xs d.1)

append-Distinct :
    (xs ys : List String)
    → Distinct xs
    → Distinct ys
    → ((j : String) → elem j ys ≡ true → elem j xs ≡ false)
    → Distinct (xs ++ ys)
append-Distinct [] ys d f a = f
append-Distinct (x ∷ xs) ys d f a = (
  ground (arith, any-append (λ y. str_eq y x) xs ys, d.0, a x, eq_refl x),
  append-Distinct xs ys d.1 f (λ j h. ground (arith, a j, h)),
)

all_paths-Distinct : (l r : Queue) → HasUniqueKeys l → HasUniqueKeys r → Distinct (all_paths l r)
unfolding all_paths
all_paths-Distinct l r u v =
    sort_by-Distinct (keys l ++ keep (λ p. not (elem p (keys l))) (keys r)) (
      append-Distinct (keys l) (keep (λ p. not (elem p (keys l))) (keys r)) (keys-Distinct l u)
        (keep-Distinct (λ p. not (elem p (keys l))) (keys r) (keys-Distinct r v))
        (λ j h. ground (arith, elem-keep (λ p. not (elem p (keys l))) j (keys r), h)))

all_paths-IsSorted : (l r : Queue) → IsSorted str_lt (all_paths l r)
unfolding all_paths
all_paths-IsSorted l r = sort_by-IsSorted str_lt str_order _

all_paths-swap : (l r : Queue) → HasUniqueKeys l → HasUniqueKeys r → all_paths r l ≡ all_paths l r
all_paths-swap l r u v =
    sorted-eq (all_paths r l) (all_paths l r) (all_paths-Distinct r l v u)
      (all_paths-Distinct l r u v) (all_paths-IsSorted r l) (all_paths-IsSorted l r)
      (λ j. ground (arith, elem-all_paths l r j, elem-all_paths r l j))

enqueue-HasUniqueKeys :
    (q : Queue) (c : Change) {q' : Queue} → enqueue q c ≡ ok q' → HasUniqueKeys q → HasUniqueKeys q'
unfolding enqueue
enqueue-HasUniqueKeys q c e u = ground (arith, e, u, insert-HasUniqueKeys c.revision.path c q u)

best_from-HasUniqueKeys :
    (q : Queue) (cs : List Change) {q' : Queue}
    → best_from q cs ≡ ok q'
    → HasUniqueKeys q
    → HasUniqueKeys q'
unfolding best_from
best_from-HasUniqueKeys q [] e u = ground (arith, e, u)
best_from-HasUniqueKeys q (c ∷ cs) e u = elim (Result-cases (enqueue q c)) [
  | inl (b, k) ↦ best_from-HasUniqueKeys b cs (ground (arith, e, k)) (enqueue-HasUniqueKeys q c k u)
  | inr (x, k) ↦ absurd (ground (arith, e, k))
]

error_eq : (a b : Error) → a ≡ b
error_eq path_required path_required = refl

-- The two replicas of a reconciliation reach the same decision from their two sides: what one sends
-- the other applies, in the same order, the same paths converge, and the same conflicts are seen.
pub reconcile-mirror :
    (local remote : List Change) → reconcile remote local ≡ mirror_result (reconcile local remote)
unfolding reconcile best_by_path
reconcile-mirror local remote = elim (Result-cases (best_by_path local)) [
  | inr (x, k) ↦ elim (Result-cases (best_by_path remote)) [
    | inr (y, m) ↦ rw (k, m, reconcile) (ap err (error_eq y x))
    | inl (r, m) ↦ rw (k, m, reconcile) refl
  ]
  | inl (l, k) ↦ elim (Result-cases (best_by_path remote)) [
    | inr (y, m) ↦ rw (k, m, reconcile) refl
    | inl (r, m) ↦
        rw (k, m, reconcile)
          (ap ok (
            ap (decide_paths r l) (
              all_paths-swap l r (best_from-HasUniqueKeys [] local k tt)
                (best_from-HasUniqueKeys [] remote m tt))
            ∙ decide_paths-mirror l r (all_paths l r)))
  ]
]
