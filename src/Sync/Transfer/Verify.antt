-- ===== src/Sync/Transfer/Verify.antt =====
-- sync/transfer/transfer.go: what a receiver returns, whoever sent the frames.
use aa.Base.{
  ℕ, suc, ◌+◌, String, Bool, true, not, none, some, List, [], ◌∷◌, ◌++◌, ◌≡◌, refl, ap, ◌∙◌, sym,
  subst, inl, inr, length, get_elem?, str_eq, eq_iff, ◌==◌, Bool-cases, Option-cases, Result,
  Result-cases, ok, arith, some_inj, ok_inj, is_empty,
}
use aa.Base.Int.{ℤ, pos, negsuc}
use aa.Sync.{Bytes, Chunk, Manifest}
use aa.Sync.Transport.{Frame, hello, chunk, ack, revision, receipt, close}
use aa.Sync.Transfer.{
  Receiver, Error, set_at, chunk_at, place_of, indexes_from, missing, assemble, accept, complete,
  collect, new_receiver,
}

chunk_at_place :
    (m : Manifest) (i : ℤ) {c : Chunk}
    → chunk_at m i ≡ some c
    → get_elem? m.chunks (place_of i) ≡ some c
chunk_at_place m (pos i) e = e
chunk_at_place m (negsuc i) e = absurd (ground arith)

is_empty_nil {ℓ} : {A : Type ℓ} (xs : List A) → is_empty xs ≡ true → xs ≡ []
is_empty_nil [] h = refl
is_empty_nil (x ∷ xs) h = absurd (ground arith)

module _ (digest : Bytes → String) where
  -- The part is one that the manifest asks for.
  abbrev pub Fits : Chunk → Bytes → Type 0
  Fits c part = (length part ≡ c.length) × (digest part ≡ c.hash)

  abbrev Verified : Receiver → Type 0
  Verified r =
      (i : ℕ) (c : Chunk)
      → r.have i ≡ true
      → get_elem? r.manifest.chunks i ≡ some c
      → Fits c (r.parts i)

  -- The bytes are one part after another, each asked for by its chunk.
  abbrev pub Parts : List Chunk → Bytes → Type 0
  Parts [] bytes = bytes ≡ []
  Parts (c ∷ cs) bytes =
      (part : Bytes) × (rest : Bytes) × (bytes ≡ part ++ rest) × Fits c part × Parts cs rest

  abbrev Kept : Receiver → Receiver → Type 0
  Kept r r' = (r'.manifest ≡ r.manifest) × Verified r'

  store-Kept :
      (r : Receiver) (i : ℕ) (want : Chunk) (part : Bytes)
      → get_elem? r.manifest.chunks i ≡ some want
      → Fits want part
      → Verified r
      → Kept r (record r { parts = set_at r.parts i part; have = set_at r.have i true })
  store-Kept r i want part e f v = (
    refl,
    λ j c k g. elim (Bool-cases (i == j)) [
      | inl at ↦ rw at (
          subst (λ w. Fits w part)
            (some_inj (sym e ∙ ap (get_elem? r.manifest.chunks) (ground (arith, at)) ∙ g)) f)
      | inr off ↦ rw off (v j c (rw off at k) g)
    ],
  )

  abbrev ok_at : Receiver → ℕ → Bytes → Result Error Receiver
  ok_at r i part = ok (record r { parts = set_at r.parts i part; have = set_at r.have i true })

  accept-Kept :
      (r : Receiver) (ch : Chunk) (part : Bytes) {r' : Receiver}
      → accept digest r ch part ≡ ok r'
      → Verified r
      → Kept r r'
  unfolding accept
  accept-Kept r ch part {r'} e v = elim (Option-cases (chunk_at r.manifest ch.index)) [
    | inl out ↦ absurd (ground arith)
    | inr (want, found) ↦
        (let f : Fits want part =
            (ground (arith, found), ground (arith, found, eq_iff (digest part) want.hash)) in
          let same_length : (length part == want.length) ≡ true = ground (arith, f.0) in
          let same_hash : str_eq (digest part) want.hash ≡ true =
            ground (arith, f.1, eq_iff (digest part) want.hash) in
          let same : ok_at r (place_of ch.index) part ≡ ok r' =
            rw (same_length, same_hash) at (rw (found, accept) at e) in
          subst (Kept r) (ok_inj same) (
            store-Kept r (place_of ch.index) want part (chunk_at_place r.manifest ch.index found) f
              v))
  ]

  missing-Parts :
      (parts : ℕ → Bytes) (have : ℕ → Bool) (i : ℕ) (cs : List Chunk)
      → indexes_from (λ j. not (have j)) i cs ≡ []
      → ((j : ℕ) (c : Chunk)
          → have (i + j) ≡ true
          → get_elem? cs j ≡ some c
          → Fits c (parts (i + j)))
      → Parts cs (assemble parts i cs)
  unfolding assemble indexes_from
  missing-Parts parts have i [] e h = refl
  missing-Parts parts have i (c ∷ cs) e h =
      let here : have i ≡ true = ground (arith, e) in
      let z : i + 0 ≡ i = omega arith in
      let next : indexes_from (λ j. not (have j)) (suc i) cs ≡ [] = ground (arith, e, here) in
      (
        parts i,
        assemble parts (suc i) cs,
        refl,
        rw z at (h 0 c (rw z here) refl),
        missing-Parts parts have (suc i) cs next (λ j d k g.
            subst (λ n. Fits d (parts n)) (omega arith)
              (h (suc j) d (subst (λ n. have n ≡ true) (omega arith) k) g)),
      )

  complete-Parts :
      (r : Receiver) {bytes : Bytes}
      → complete digest r ≡ ok bytes
      → Verified r
      → Parts r.manifest.chunks bytes × (digest bytes ≡ r.manifest.hash)
  unfolding complete missing
  complete-Parts r {bytes} e v =
      let all : indexes_from (λ j. not (r.have j)) 0 r.manifest.chunks ≡ [] =
        elim (Bool-cases (is_empty (indexes_from (λ j. not (r.have j)) 0 r.manifest.chunks))) [
          | inl t ↦ is_empty_nil _ t
          | inr f ↦ absurd (ground (arith, f, e))
        ] in
      let same : assemble r.parts 0 r.manifest.chunks ≡ bytes = ground (arith, e, all) in
      (
        subst (Parts r.manifest.chunks) same (
            missing-Parts r.parts r.have 0 r.manifest.chunks all (λ j c k g.
              subst (λ n. Fits c (r.parts n)) (omega arith)
                (v j c (subst (λ n. r.have n ≡ true) (omega arith) k) g))),
        ground (arith, e, all, same, eq_iff (digest bytes) r.manifest.hash),
      )

  collect-Parts :
      (frames : List Frame) (r : Receiver) {bytes : Bytes}
      → (collect digest r frames).1 ≡ ok bytes
      → Verified r
      → Parts r.manifest.chunks bytes × (digest bytes ≡ r.manifest.hash)
  unfolding collect
  collect-Parts [] r e v = absurd (ground arith)
  collect-Parts (chunk none ∷ frames) r e v = absurd (ground arith)
  collect-Parts (chunk (some body) ∷ frames) r {bytes} e v =
      elim (Result-cases (accept digest r body.chunk body.payload)) [
        | inr (x, refused) ↦ absurd (ground (arith, refused))
        | inl (r', taken) ↦
            (let k = accept-Kept r body.chunk body.payload taken v in
              subst (λ (m : Manifest). Parts m.chunks bytes × (digest bytes ≡ m.hash)) k.0
                (collect-Parts frames r' (rw (taken, collect) at e) k.1))
      ]
  collect-Parts (close ∷ frames) r e v = complete-Parts r e v
  collect-Parts (hello b ∷ frames) r e v = absurd (ground arith)
  collect-Parts (ack b ∷ frames) r e v = absurd (ground arith)
  collect-Parts (revision b ∷ frames) r e v = absurd (ground arith)
  collect-Parts (receipt ∷ frames) r e v = absurd (ground arith)

-- Whatever frames arrive, from whomever: the payload that Run returns has the hash of the manifest,
-- and consists of one part after another, each of the length and the hash that its chunk in the
-- manifest names.
pub collect-verified :
    (digest : Bytes → String) (m : Manifest) (frames : List Frame) {bytes : Bytes}
    → (collect digest (new_receiver m) frames).1 ≡ ok bytes
    → Parts digest m.chunks bytes × (digest bytes ≡ m.hash)
unfolding new_receiver
collect-verified digest m frames e =
    collect-Parts digest frames (new_receiver m) e (λ i c k g. absurd (ground (arith, k)))
