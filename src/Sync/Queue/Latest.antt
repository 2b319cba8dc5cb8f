-- ===== src/Sync/Queue/Latest.antt =====
-- sync/queue/queue.go: what the queue keeps of the changes that were put into it.
use aa.Base.{
  String, ◌≡◌, refl, Bool, true, false, ◌&&◌, Option, none, some, List, [], ◌∷◌, any, all, All,
  str_eq, str_lt, ◌<◌, ◌⊎◌, str_lt_asymm, str_lt_trans, str_lt_trichotomy, str_lt_irrefl, ok, arith,
  eq_iff, Option-cases, Result-cases, inl, inr,
}
use aa.Base.Assoc.{lookup, lookup-insert}
use aa.Sync.{Change}
use aa.Sync.Queue.{Queue, newer, enqueue, best_from, best_by_path}

newer_irrefl : (a : Change) → newer a a ≡ false
unfolding newer
newer_irrefl a = ground (arith, str_lt_irrefl a.node)

newer_trans : (a b c : Change) → newer a b ≡ true → newer b c ≡ true → newer a c ≡ true
unfolding newer
newer_trans a b c h k = ground (arith, str_lt_trans c.node b.node a.node)

newer_cotrans : (a b c : Change) → newer a b ≡ true → newer c b ≡ false → newer a c ≡ true
unfolding newer
newer_cotrans a b c h k = ground (
  arith,
  str_lt_trans c.node b.node a.node,
  str_lt_trichotomy b.node c.node,
  str_lt_asymm b.node c.node,
  str_lt_asymm b.node a.node,
  h,
  k,
)

-- The changes of one path that are newer than what is kept.
abbrev pub beats : String → Option Change → Change → Bool
beats path none c = str_eq c.revision.path path
beats path (some kept) c = str_eq c.revision.path path && newer c kept

-- A test of the kept change, if there is one.
abbrev pub all_of : Option Change → (Change → Bool) → Bool
all_of none p = true
all_of (some kept) p = p kept

enqueue-beats :
    (q : Queue) (c x : Change) (path : String) {q' : Queue}
    → enqueue q c ≡ ok q'
    → (beats path (lookup path q') c ≡ false)
      × ((beats path (lookup path q) x ≡ false) → beats path (lookup path q') x ≡ false)
unfolding enqueue
enqueue-beats q c x path {q'} e = elim (Option-cases (lookup c.revision.path q)) [
  | inl n ↦ ground (
    arith,
    e,
    n,
    lookup-insert c.revision.path path c q,
    eq_iff c.revision.path path,
    eq_iff x.revision.path path,
    newer_irrefl c,
  )
  | inr (kept, k) ↦ ground (
    arith,
    e,
    k,
    lookup-insert c.revision.path path c q,
    eq_iff c.revision.path path,
    eq_iff x.revision.path path,
    newer_irrefl c,
    newer_trans x c kept,
  )
]

best_from-beats :
    (q : Queue) (cs : List Change) (path : String) {q' : Queue}
    → best_from q cs ≡ ok q'
    → (any (beats path (lookup path q')) cs ≡ false)
      × ((x : Change)
          → beats path (lookup path q) x ≡ false
          → beats path (lookup path q') x ≡ false)
unfolding best_from
best_from-beats q [] path {q'} e = (refl, λ x h. ground (arith, e, h))
best_from-beats q (c ∷ cs) path {q'} e = elim (Result-cases (enqueue q c)) [
  | inl (b, k) ↦
      (let v = best_from-beats b cs path (ground (arith, e, k)) in
        let w = λ (x : Change). enqueue-beats q c x path k in
        (ground (arith, v.0, v.1 c (w c).0), λ x h. v.1 x ((w x).1 h)))
  | inr (x, k) ↦ absurd (ground (arith, e, k))
]

best_from-origin :
    (q : Queue) (cs : List Change) (path : String) (p : Change → Bool) {q' : Queue} {kept : Change}
    → best_from q cs ≡ ok q'
    → ((c : Change) → lookup path q ≡ some c → (p c && str_eq c.revision.path path) ≡ true)
    → all p cs ≡ true
    → lookup path q' ≡ some kept
    → (p kept && str_eq kept.revision.path path) ≡ true
unfolding best_from enqueue
best_from-origin q [] path p {q'} {kept} e o a l = o kept (ground (arith, e, l))
best_from-origin q (c ∷ cs) path p {q'} {kept} e o a l = elim (Result-cases (enqueue q c)) [
  | inl (b, k) ↦
      best_from-origin b cs path p (ground (arith, e, k))
        (λ x h. ground (
          arith,
          k,
          o x,
          a,
          h,
          lookup-insert c.revision.path path c q,
          eq_iff c.revision.path path,
        ))
        (ground (arith, a)) l
  | inr (x, k) ↦ absurd (ground (arith, e, k))
]

-- The change is not above the kept one: its revision is lower, or the same and its node does not come
-- after.
abbrev pub IsBelow : Change → Option Change → Type 0
IsBelow c none = ⊥
IsBelow c (some kept) =
    (c.revision.revision < kept.revision.revision)
    ⊎ ((c.revision.revision ≡ kept.revision.revision) × (str_lt kept.node c.node ≡ false))

beats-IsBelow :
    (path : String) (o : Option Change) (cs : List Change)
    → any (beats path o) cs ≡ false
    → All (λ c. c.revision.path ≡ path → IsBelow c o) cs
unfolding newer
beats-IsBelow path o [] h = tt
beats-IsBelow path none (c ∷ cs) h = (
  λ e. absurd (ground (arith, h, eq_iff c.revision.path path, e)),
  beats-IsBelow path none cs (ground (arith, h)),
)
beats-IsBelow path (some kept) (c ∷ cs) h = (
  λ e. ground (arith, h, eq_iff c.revision.path path, e),
  beats-IsBelow path (some kept) cs (ground (arith, h)),
)

-- Of the changes of a path, the one that is kept is the newest: every other one has a lower revision,
-- or the same and a node that is not greater. It is one of those that were given, and none is
-- kept only where the path has no change.
pub best_by_path-newest :
    (cs : List Change) (path : String) (p : Change → Bool) {q : Queue}
    → best_by_path cs ≡ ok q
    → all p cs ≡ true
    → All (λ c. c.revision.path ≡ path → IsBelow c (lookup path q)) cs
      × (all_of (lookup path q) (λ kept. p kept && str_eq kept.revision.path path) ≡ true)
unfolding best_by_path lookup
best_by_path-newest cs path p {q} e a = (
  beats-IsBelow path (lookup path q) cs (best_from-beats [] cs path e).0,
  elim (Option-cases (lookup path q)) [
    | inl n ↦ rw n refl
    | inr (kept, k) ↦ rw k (best_from-origin [] cs path p e (λ c h. absurd (ground arith)) a k)
  ],
)
