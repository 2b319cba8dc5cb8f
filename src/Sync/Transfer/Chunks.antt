-- ===== src/Sync/Transfer/Chunks.antt =====
-- sync/transfer/transfer.go: the chunks that Build lists cut the payload into consecutive pieces.
use aa.Base.{
  ℕ, zero, suc, ◌+◌, ◌-◌, ◌≤◌, ◌<◌, String, some, List, [], ◌∷◌, ◌≡◌, refl, ap, ◌∙◌, sym, inl, inr,
  length, get_elem?, take, drop, length-drop, take-append-drop, drop-add, drop-all, ltb, Bool-cases,
  leb, some_inj, str_eq, ok_inj, ok, arith, min, subst,
}
use aa.Base.Int.{ℤ, pos, negsuc}
use aa.Sync.{Bytes, Chunk}
use aa.Sync.Transfer.{
  Source, slice, chunk_of, chunks_from, assemble, effective_size, build, new_source,
}

length-take {ℓ} : {A : Type ℓ} (n : ℕ) (xs : List A) → n ≤ length xs → length (take n xs) ≡ n
length-take zero xs h = refl
length-take (suc n) [] h = absurd (omega arith)
length-take (suc n) (x ∷ xs) h = ap suc (length-take n xs (omega arith))

pub length-slice :
    (payload : Bytes) (o n : ℕ) → o + n ≤ length payload → length (slice payload o n) ≡ n
length-slice payload o n h = length-take n (drop o payload) (omega (arith, length-drop o payload))

-- The chunks from the index i on cut what follows the offset o.
abbrev pub Describes : (Bytes → String) → Bytes → ℕ → ℕ → List Chunk → Type 0
Describes digest payload i o [] = length payload ≤ o
Describes digest payload i o (c ∷ cs) =
    (c.index ≡ pos i)
    × (c.offset ≡ o)
    × (o + c.length ≤ length payload)
    × (c.hash ≡ digest (slice payload o c.length))
    × Describes digest payload (suc i) (o + c.length) cs

module _ (digest : Bytes → String) (payload : Bytes) where
  chunks_from_past :
      (fuel i o size : ℕ) → length payload ≤ o → chunks_from digest fuel i o size payload ≡ []
  unfolding chunks_from
  chunks_from_past zero i o size h = refl
  chunks_from_past (suc fuel) i o size h = ground arith

  piece-Describes :
      (i o n : ℕ) (cs : List Chunk)
      → o + n ≤ length payload
      → Describes digest payload (suc i) (o + n) cs
      → Describes digest payload i o (chunk_of digest i o (slice payload o n) ∷ cs)
  unfolding chunk_of
  piece-Describes i o n cs h d =
      let e : length (slice payload o n) ≡ n = length-slice payload o n h in
      (refl, refl, omega (arith, e), rw e refl, rw e d)

  -- What the loop does after the piece that ends at the end of the payload, or before it.
  rest-Describes :
      (fuel i o size : ℕ)
      → (length payload ≤ o + size → chunks_from digest fuel i (o + size) size payload ≡ [])
      → (o + size ≤ length payload
          → Describes digest payload i
              (o + size)
              (chunks_from digest fuel i (o + size) size payload))
      → o < length payload
      → Describes digest payload i
          (o + (min (o + size) (length payload) - o))
          (chunks_from digest fuel i (o + size) size payload)
  rest-Describes fuel i o size past before l = elim (Bool-cases (leb (o + size) (length payload))) [
    | inl e ↦
        (let f : o + (min (o + size) (length payload) - o) ≡ o + size = ground arith in
          rw f (before (ground arith)))
    | inr e ↦ rw (past (ground arith)) (ground arith)
  ]

  -- With fuel for the rest of the payload the loop describes all of it.
  pub chunks_from-Describes :
      (fuel i o size : ℕ)
      → 0 < size
      → length payload ≤ o + fuel
      → Describes digest payload i o (chunks_from digest fuel i o size payload)
  unfolding chunks_from
  chunks_from-Describes zero i o size z h = omega arith
  chunks_from-Describes (suc fuel) i o size z h = elim (Bool-cases (ltb o (length payload))) [
    | inr done ↦ rw done (ground arith)
    | inl more ↦ rw more (
        piece-Describes i o (min (o + size) (length payload) - o)
          (chunks_from digest fuel (suc i) (o + size) size payload) (ground arith)
          (rest-Describes fuel (suc i) o size (chunks_from_past fuel (suc i) (o + size) size)
            (λ _. chunks_from-Describes fuel (suc i) (o + size) size z (omega arith))
            (ground arith)))
  ]

module _ (digest : Bytes → String) (payload : Bytes) where
  -- The pieces one after another are the payload from the offset on.
  pub assemble-Describes :
      (parts : ℕ → Bytes) (i o : ℕ) (cs : List Chunk)
      → Describes digest payload i o cs
      → ((j : ℕ) (c : Chunk)
          → get_elem? cs j ≡ some c
          → parts (i + j) ≡ slice payload c.offset c.length)
      → assemble parts i cs ≡ drop o payload
  unfolding assemble
  assemble-Describes parts i o [] d h = sym (drop-all o payload d)
  assemble-Describes parts i o (c ∷ cs) d h =
      let first : parts i ≡ slice payload o c.length =
        ap parts (omega arith) ∙ h 0 c refl ∙ ap (λ k. slice payload k c.length) d.1 in
      let rest : assemble parts (suc i) cs ≡ drop (o + c.length) payload =
        assemble-Describes parts (suc i) (o + c.length) cs d.4
          (λ j e g. ap parts (omega arith) ∙ h (suc j) e g) in
      rw (first, rest, drop-add o c.length payload) (take-append-drop c.length (drop o payload))

  -- Each chunk stands at its own index, lies within the payload, and has the hash of its piece.
  abbrev pub IsPiece : ℕ → Chunk → Type 0
  IsPiece i c =
      (c.index ≡ pos i)
      × (c.offset + c.length ≤ length payload)
      × (c.hash ≡ digest (slice payload c.offset c.length))

  pub Describes-IsPiece :
      (i o : ℕ) (cs : List Chunk)
      → Describes digest payload i o cs
      → (j : ℕ) (c : Chunk) → get_elem? cs j ≡ some c
      → IsPiece (i + j) c
  Describes-IsPiece i o [] d j c e = absurd (ground arith)
  Describes-IsPiece i o (b ∷ cs) d zero c e = subst (IsPiece (i + 0)) (some_inj e) (
    d.0 ∙ ap pos (omega arith),
    omega (arith, d.1, d.2),
    d.3 ∙ ap (λ k. digest (slice payload k b.length)) (sym d.1),
  )
  Describes-IsPiece i o (b ∷ cs) d (suc j) c e =
      let f : suc i + j ≡ i + suc j = omega arith in
      rw f at (Describes-IsPiece (suc i) (o + b.length) cs d.4 j c e)

effective_size-pos : (n : ℤ) → 0 < effective_size n
effective_size-pos (pos zero) = omega arith
effective_size-pos (pos (suc n)) = omega arith
effective_size-pos (negsuc n) = omega arith

-- A source that NewSource returns: its manifest describes its payload and has its hash.
pub record IsBuilt (digest : Bytes → String) (s : Source) : Type 0 where
  pub described : Describes digest s.payload 0 0 s.manifest.chunks
  pub hashed : s.manifest.hash ≡ digest s.payload
  pub sized : s.manifest.size ≡ pos (length s.payload)

pub new_source-IsBuilt :
    (digest : Bytes → String) (id name : String) (payload : Bytes) (size : ℤ) {s : Source}
    → new_source digest id name payload size ≡ ok s
    → IsBuilt digest s × (s.payload ≡ payload)
unfolding new_source build
new_source-IsBuilt digest id name payload size {s} e = elim (Bool-cases (str_eq id "")) [
  | inl none ↦ absurd (ground arith)
  | inr named ↦
      subst (λ t. IsBuilt digest t × (t.payload ≡ payload))
        (ok_inj (rw (named, new_source, build) at e))
        (
          record {
            described =
                chunks_from-Describes digest payload (length payload) 0 0 (effective_size size)
                  (effective_size-pos size) (omega arith);
            hashed = refl;
            sized = refl;
          },
          refl,
        )
]
