-- ===== src/Sync/Transfer/Held.antt =====
-- sync/transfer/transfer.go: the pieces of a source that a receiver holds.
use aa.Base.{
  ℕ, suc, ◌+◌, ◌≤◌, true, some, List, ◌∷◌, ◌≡◌, refl, ap, ◌∙◌, sym, inl, inr, length, get_elem?,
  ◌==◌, Bool-cases, ok, arith, some_inj,
}
use aa.Base.Int.{pos}
use aa.Sync.{Bytes, Chunk}
use aa.Sync.Transport.{Frame, chunk}
use aa.Sync.Transfer.{Source, Receiver, slice, set_at, chunk_data, new_receiver}

abbrev pub piece : Source → Chunk → Bytes
piece s c = slice s.payload c.offset c.length

-- Every part that the receiver has is the source's piece.
pub record Holds (s : Source) (r : Receiver) : Type 0 where
  pub same : r.manifest ≡ s.manifest
  pub held :
      (i : ℕ) (c : Chunk)
      → r.have i ≡ true
      → get_elem? s.manifest.chunks i ≡ some c
      → r.parts i ≡ piece s c

pub new_receiver-Holds : (s : Source) → Holds s (new_receiver s.manifest)
unfolding new_receiver
new_receiver-Holds s = record { same = refl; held = λ i c h e. absurd (ground (arith, h)) }

abbrev pub stored : Receiver → ℕ → Bytes → Receiver
stored r i d = record r { parts = set_at r.parts i d; have = set_at r.have i true }

pub stored-Holds :
    (s : Source) (r : Receiver) (i : ℕ) (c : Chunk)
    → get_elem? s.manifest.chunks i ≡ some c
    → Holds s r
    → Holds s (stored r i (piece s c))
stored-Holds s r i c e h = record {
  same = h.same;
  held = λ j b k f. elim (Bool-cases (i == j)) [
    | inl at ↦ rw at (
        ap (piece s) (some_inj (sym e ∙ ap (get_elem? s.manifest.chunks) (ground (arith, at)) ∙ f)))
    | inr off ↦ rw off (h.held j b (rw off at k) f)
  ];
}

-- A frame that the source may have sent.
abbrev pub Good : Source → Frame → Type 0
Good s (chunk (some body)) =
    (i : ℕ) × (get_elem? s.manifest.chunks i ≡ some body.chunk)
    × (body.payload ≡ piece s body.chunk)
Good s frame = Unit

-- The chunks of a manifest from the index i on.
abbrev pub Suffix : ℕ → List Chunk → List Chunk → Type 0
Suffix i cs all = (i + length cs ≡ length all) × ((j : ℕ) → get_elem? all (i + j) ≡ get_elem? cs j)

pub Suffix-next :
    (i : ℕ) (c : Chunk) (cs all : List Chunk) → Suffix i (c ∷ cs) all → Suffix (suc i) cs all
Suffix-next i c cs all h = (omega (arith, h.0), λ j. ap (get_elem? all) (omega arith) ∙ h.1 (suc j))

pub Suffix-here :
    (i : ℕ) (c : Chunk) (cs all : List Chunk) → Suffix i (c ∷ cs) all → get_elem? all i ≡ some c
Suffix-here i c cs all h = ap (get_elem? all) (omega arith) ∙ h.1 0

pub chunk_data_lem :
    (s : Source) (i : ℕ) (c : Chunk)
    → get_elem? s.manifest.chunks i ≡ some c
    → c.offset + c.length ≤ length s.payload
    → chunk_data s (pos i) ≡ ok (piece s c)
unfolding chunk_data
chunk_data_lem s i c e h = rw (e, chunk_data) (ground arith)
