-- ===== src/Sync/Queue.antt =====
-- sync/queue/queue.go: the offline queue of changes and the reconciliation of two replicas.
pub mod Latest
pub mod Agreement
use aa.Base.{
  ℕ, ◌+◌, String, Bool, true, false, not, ◌&&◌, ◌||◌, Option, none, some, List, [], ◌∷◌, ◌++◌,
  str_eq, str_lt, is_some, elem, keep, same_bool, ltb, ◌==◌, length, if◌then◌else◌, Result, ok, err,
  ◌>>=◌,
}
use aa.Base.Assoc.{lookup, insert, keys, values}
use aa.Base.Sort.{sort_by, sort_strings}
use aa.Sync.{RevisionRecord, Change}

-- `Queue`: the newest change of each path.
abbrev pub Queue : Type 0
Queue = List (String × Change)

pub data Error : Type 0 where
  path_required : Error

unfoldable pub new_queue : Queue
new_queue = []

unfoldable pub newer : Change → Change → Bool
newer a b =
    if not (a.revision.revision == b.revision.revision)
    then ltb b.revision.revision a.revision.revision
    else str_lt b.node a.node

-- `existing, ok := m[path]; ok && !newer(c, existing)`: the change is not taken.
abbrev pub is_outdated : Change → Option Change → Bool
is_outdated c none = false
is_outdated c (some existing) = not (newer c existing)

-- A change takes its path's place where none or an older one stands; `Enqueue` and the loop of
-- `bestByPath` do the same.
unfoldable pub enqueue : Queue → Change → Result Error Queue
unfolding newer
enqueue q c =
    if str_eq c.revision.path ""
    then err path_required
    else if is_outdated c (lookup c.revision.path q)
    then ok q
    else ok (insert c.revision.path c q)

unfoldable pub pending : Queue → List Change
pending q = sort_by (λ (a b : Change). str_lt a.revision.path b.revision.path) (values q)

unfoldable pub drain : Queue → Queue × List Change
unfolding pending
drain q = ([], pending q)

unfoldable pub best_from : Queue → List Change → Result Error Queue
unfolding enqueue
best_from best [] = ok best
best_from best (c ∷ cs) = do b ← enqueue best c; best_from b cs

unfoldable pub best_by_path : List Change → Result Error Queue
unfolding best_from
best_by_path cs = best_from [] cs

unfoldable pub same : Change → Change → Bool
same a b = same_bool a.revision.deleted b.revision.deleted && str_eq a.revision.hash b.revision.hash

pub record Conflict : Type 0 where
  pub path : String
  pub local : Change
  pub remote : Change

pub record Decision : Type 0 where
  pub send : List Change
  pub apply : List Change
  pub converged : List String
  pub conflicts : List Conflict

abbrev pub no_decision : Decision
no_decision = record { send = []; apply = []; converged = []; conflicts = [] }

abbrev pub sends : Change → Decision → Decision
sends c d = record d { send = c ∷ d.send }

abbrev pub applies : Change → Decision → Decision
applies c d = record d { apply = c ∷ d.apply }

-- The case of the switch where both replicas have the path.
unfoldable pub decide_both : String → Change → Change → Decision → Decision
unfolding same
decide_both path l r d =
    if ltb r.revision.revision l.revision.revision
    then sends l d
    else if ltb l.revision.revision r.revision.revision
    then applies r d
    else if same l r
    then record d { converged = path ∷ d.converged }
    else record d { conflicts = record { path = path; local = l; remote = r } ∷ d.conflicts }

-- The switch of `Reconcile`; the rest of the loop is decided already.
unfoldable pub decide_path : String → Option Change → Option Change → Decision → Decision
unfolding decide_both
decide_path path none none d = d
decide_path path (some l) none d = sends l d
decide_path path none (some r) d = applies r d
decide_path path (some l) (some r) d = decide_both path l r d

unfoldable pub decide_paths : Queue → Queue → List String → Decision
unfolding decide_path
decide_paths local remote [] = no_decision
decide_paths local remote (path ∷ paths) =
    decide_path path (lookup path local) (lookup path remote) (decide_paths local remote paths)

-- The keys of both maps, each once, in ascending order.
unfoldable pub all_paths : Queue → Queue → List String
all_paths local remote =
    sort_strings (keys local ++ keep (λ p. not (elem p (keys local))) (keys remote))

unfoldable pub reconcile : List Change → List Change → Result Error Decision
unfolding best_by_path decide_paths all_paths
reconcile local remote = do
  l ← best_by_path local
  r ← best_by_path remote
  ok (decide_paths l r (all_paths l r))
