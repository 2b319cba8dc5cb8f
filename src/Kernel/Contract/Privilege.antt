-- ===== src/Kernel/Contract/Privilege.antt =====
-- kernel/contract/contract.go: what a built contract grants and denies.
use aa.Base.{
  String, ◌≡◌, refl, Bool, true, false, not, ◌&&◌, ◌||◌, List, [], ◌∷◌, ◌++◌, all, elem, elem-all,
  elem-keep, str_eq, eq_iff, str_lt, Result, ok, err, arith,
}
use aa.Base.Sort.{any-sort_by, sort_by-IsSorted, IsSorted, str_order, keep-IsSorted}
use aa.Kernel.Contract.{
  Contract, Request, is_known, collect_unique, sorted_unique, check_known, assemble, build, has,
}

elem-collect_unique :
    (seen vs : List String) (c : String)
    → elem c (collect_unique seen vs) ≡ (elem c vs && (not (str_eq c "") && not (elem c seen)))
unfolding collect_unique
elem-collect_unique seen [] c = refl
elem-collect_unique seen (v ∷ vs) c =
    ground (arith, elem-collect_unique seen vs c, elem-collect_unique (v ∷ seen) vs c, eq_iff v c)

-- `sortedUnique` keeps the texts that are not empty.
pub elem-sorted_unique :
    (vs : List String) (c : String) → elem c (sorted_unique vs) ≡ (elem c vs && not (str_eq c ""))
unfolding sorted_unique
elem-sorted_unique vs c = ground (
  arith,
  any-sort_by str_lt (λ (x : String). str_eq x c) (collect_unique [] vs),
  elem-collect_unique [] vs c,
)

check_known-all : (cs : List String) → check_known cs ≡ ok tt → all is_known cs ≡ true
unfolding check_known
check_known-all [] h = refl
check_known-all (c ∷ cs) h = ground (arith, check_known-all cs)

build_inv :
    (digest : Contract → String) (req : Request) {c : Contract}
    → build digest req ≡ ok c
    → (check_known (req.requested ++ req.permitted) ≡ ok tt)
      × (c.capabilities ≡ (assemble req).capabilities)
      × (c.denied ≡ (assemble req).denied)
unfolding build
build_inv digest req h = ground arith

all-append-left :
    (p : String → Bool) (xs ys : List String) → all p (xs ++ ys) ≡ true → all p xs ≡ true
all-append-left p [] ys h = refl
all-append-left p (x ∷ xs) ys h = ground (arith, all-append-left p xs ys)

is_known-empty : is_known "" ≡ false
unfolding is_known
is_known-empty = refl

requested_nonempty :
    (req : Request) (capability : String)
    → check_known (req.requested ++ req.permitted) ≡ ok tt
    → elem capability req.requested ≡ true
    → str_eq capability "" ≡ false
requested_nonempty req capability h k = ground (
  arith,
  elem-all capability req.requested is_known
      (all-append-left is_known req.requested req.permitted (check_known-all _ h)) k,
  eq_iff capability "",
  is_known-empty,
)

elem-assemble :
    (req : Request) (capability : String)
    → (elem capability (assemble req).capabilities ≡ (
        elem capability req.permitted
        && (elem capability req.requested && not (str_eq capability ""))))
      × (elem capability (assemble req).denied ≡ (
          not (elem capability req.permitted)
          && (elem capability req.requested && not (str_eq capability ""))))
unfolding assemble
elem-assemble req capability = ground (
  arith,
  elem-keep (λ (c : String). elem c req.permitted) capability (sorted_unique req.requested),
  elem-keep (λ (c : String). not (elem c req.permitted)) capability (sorted_unique req.requested),
  elem-sorted_unique req.requested capability,
)

-- A contract that was built grants exactly the capabilities that were requested and are permitted,
-- and records as denied exactly those that were requested and are not permitted.
pub build-grants :
    (digest : Contract → String) (req : Request) (capability : String) {c : Contract}
    → build digest req ≡ ok c
    → (has c capability ≡ (elem capability req.requested && elem capability req.permitted))
      × (elem capability c.denied
          ≡ (elem capability req.requested && not (elem capability req.permitted)))
unfolding build has
build-grants digest req capability {c} h =
    let (known, granted, denied) = build_inv digest req h in
    rw (granted, denied)
      (ground (arith, elem-assemble req capability, requested_nonempty req capability known))

abbrev pub is_ok {ℓ κ} : {E : Type κ} {A : Type ℓ} → Result E A → Bool
is_ok (ok a) = true
is_ok (err e) = false

is_ok-check_known : (cs : List String) → is_ok (check_known cs) ≡ all is_known cs
unfolding check_known
is_ok-check_known [] = refl
is_ok-check_known (c ∷ cs) = ground (arith, is_ok-check_known cs)

-- `Build` succeeds exactly when both ids are given and every capability requested or permitted is in
-- the vocabulary: a request that names any other authority is refused whole.
pub is_ok-build :
    (digest : Contract → String) (req : Request)
    → is_ok (build digest req) ≡ (
        not (str_eq req.work_package_id "" || str_eq req.assignment_id "")
        && all is_known (req.requested ++ req.permitted))
unfolding build
is_ok-build digest req = ground (arith, is_ok-check_known (req.requested ++ req.permitted))

-- Granted and denied capabilities come in ascending order.
pub build-IsSorted :
    (digest : Contract → String) (req : Request) {c : Contract}
    → build digest req ≡ ok c
    → IsSorted str_lt c.capabilities × IsSorted str_lt c.denied
unfolding assemble sorted_unique
build-IsSorted digest req h =
    let (known, granted, denied) = build_inv digest req h in
    rw (granted, denied)
      (
        keep-IsSorted str_lt _ _ (sort_by-IsSorted str_lt str_order _),
        keep-IsSorted str_lt _ _ (sort_by-IsSorted str_lt str_order _),
      )
