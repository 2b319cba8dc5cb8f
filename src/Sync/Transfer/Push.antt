-- ===== src/Sync/Transfer/Push.antt =====
-- sync/transfer/transfer.go: what a receiver makes of the chunks that a source pushes.
use aa.Base.{
  ℕ, zero, suc, ◌<◌, String, Bool, true, false, Option, none, some, List, [], ◌∷◌, ◌≡◌, refl, ap,
  ◌∙◌, subst, inl, inr, length, get_elem?, any, All, eq_iff, ◌==◌, Bool-cases, ok, arith, if_rule,
}
use aa.Base.Int.{ℤ, pos, same_int}
use aa.Sync.{Bytes, Chunk, Manifest}
use aa.Sync.Transport.{Frame, hello, chunk, ack, revision, receipt, close}
use aa.Sync.Transfer.{
  Source, Receiver, Error, chunk_data, missing, assemble, push_chunks, accept, is_capacity,
  complete, collect,
}
use aa.Sync.Transfer.Chunks.{length-slice, IsPiece, Describes-IsPiece, IsBuilt}
use aa.Sync.Transfer.Held.{
  piece, Holds, stored, stored-Holds, Good, Suffix, Suffix-next, Suffix-here, chunk_data_lem,
}

pub in_range : (j : ℕ) (c : Chunk) (cs : List Chunk) → get_elem? cs j ≡ some c → j < length cs
in_range j c [] e = absurd (ground arith)
in_range zero c (b ∷ cs) e = omega arith
in_range (suc j) c (b ∷ cs) e = omega (arith, in_range j c cs e)

module _ (digest : Bytes → String) where
  accept_lem :
      (r : Receiver) (ch want : Chunk) (i : ℕ) (d : Bytes)
      → ch.index ≡ pos i
      → get_elem? r.manifest.chunks i ≡ some want
      → length d ≡ want.length
      → want.hash ≡ digest d
      → accept digest r ch d ≡ ok (stored r i d)
  unfolding accept
  accept_lem r ch want i d x e l h =
      rw (x, accept) (rw (e, accept) (ground (arith, l, eq_iff (digest d) want.hash, h)))

  pub complete_lem :
      (r : Receiver) (buf : Bytes)
      → missing r ≡ []
      → assemble r.parts 0 r.manifest.chunks ≡ buf
      → r.manifest.hash ≡ digest buf
      → is_capacity r.manifest.size ≡ true
      → complete digest r ≡ ok buf
  unfolding complete
  complete_lem r buf m a h c = ground (arith, m, a, h, c, eq_iff (digest buf) r.manifest.hash)

  module _ (s : Source) (built : IsBuilt digest s) where
    is_piece :
        (i : ℕ) (c : Chunk) → get_elem? s.manifest.chunks i ≡ some c → IsPiece digest s.payload i c
    is_piece i c e =
        subst (λ j. IsPiece digest s.payload j c) (omega arith)
          (Describes-IsPiece digest s.payload 0 0 s.manifest.chunks built.described i c e)

    -- The receiver takes what the source sends.
    accept-piece :
        (r : Receiver) (i : ℕ) (c : Chunk)
        → Holds s r
        → get_elem? s.manifest.chunks i ≡ some c
        → accept digest r c (piece s c) ≡ ok (stored r i (piece s c))
    accept-piece r i c h e =
        let p = is_piece i c e in
        accept_lem r c c i (piece s c) p.0 (ap (λ (m : Manifest). get_elem? m.chunks i) h.same ∙ e)
          (length-slice s.payload c.offset c.length p.1) p.2

    collect-piece :
        (r : Receiver) (i : ℕ) (c : Chunk) (frames : List Frame)
        → Holds s r
        → get_elem? s.manifest.chunks i ≡ some c
        → collect digest r (chunk (some (record { chunk = c; payload = piece s c })) ∷ frames)
          ≡ collect digest (stored r i (piece s c)) frames
    unfolding collect
    collect-piece r i c frames h e = rw (accept-piece r i c h e, collect) refl

    collect_at_end : (r : Receiver) → collect digest r (close ∷ []) ≡ (r, complete digest r)
    unfolding collect
    collect_at_end r = refl

    -- Frames of the source keep what is held, wherever they end.
    pub collect-Holds :
        (frames : List Frame) (r : Receiver)
        → All (Good s) frames
        → Holds s r
        → Holds s (collect digest r frames).0
    unfolding collect
    collect-Holds [] r g h = h
    collect-Holds (chunk none ∷ frames) r g h = h
    collect-Holds (chunk (some body) ∷ frames) r ((i, e, d), g) h =
        let a : accept digest r body.chunk body.payload ≡ ok (stored r i (piece s body.chunk)) =
          ap (accept digest r body.chunk) d ∙ accept-piece r i body.chunk h e in
        rw (a, collect)
          (collect-Holds frames (stored r i (piece s body.chunk)) g
            (stored-Holds s r i body.chunk e h))
    collect-Holds (close ∷ frames) r g h = h
    collect-Holds (hello b ∷ frames) r g h = h
    collect-Holds (ack b ∷ frames) r g h = h
    collect-Holds (revision b ∷ frames) r g h = h
    collect-Holds (receipt ∷ frames) r g h = h

    -- Whatever the connection loses, the frames that get through are the source's.
    pub push_chunks-Good :
        (lost : ℕ → Bool) (offered : List ℤ) (n i : ℕ) (cs : List Chunk)
        → Suffix i cs s.manifest.chunks
        → All (Good s) (push_chunks lost n s offered cs).0
    unfolding push_chunks
    push_chunks-Good lost offered n i [] f = elim (Bool-cases (lost n)) [
      | inl e ↦ rw e tt
      | inr e ↦ rw e (tt, tt)
    ]
    push_chunks-Good lost offered n i (c ∷ cs) f =
        let here = Suffix-here i c cs s.manifest.chunks f in
        let next = Suffix-next i c cs s.manifest.chunks f in
        let p = is_piece i c here in
        let d : chunk_data s c.index ≡ ok (piece s c) =
          ap (chunk_data s) p.0 ∙ chunk_data_lem s i c here p.1 in
        elim (Bool-cases (any (λ j. same_int j c.index) offered)) [
          | inl e ↦ rw e (push_chunks-Good lost offered n (suc i) cs next)
          | inr e ↦
              rw (e, push_chunks)
                (rw (d, push_chunks)
                  (if_rule (λ (t : List Frame × Option Error). All (Good s) t.0) (lost n) (λ _. tt)
                    (λ _.
                      ((i, here, refl), push_chunks-Good lost offered (suc n) (suc i) cs next))))
        ]

    -- Nothing lost: all chunks that were not offered, and the close frame.
    pub collect_push :
        (offered : List ℤ) (cs : List Chunk) (n i : ℕ) (r : Receiver)
        → Suffix i cs s.manifest.chunks
        → Holds s r
        → ((j : ℕ) → any (λ k. same_int k (pos j)) offered ≡ true → r.have j ≡ true)
        → ((j : ℕ) → j < i → r.have j ≡ true)
        → (r' : Receiver) × (collect digest r (push_chunks (λ _. false) n s offered cs).0
            ≡ (r', complete digest r'))
          × ((push_chunks (λ _. false) n s offered cs).1 ≡ none)
          × Holds s r'
          × ((j : ℕ) → j < length s.manifest.chunks → r'.have j ≡ true)
    unfolding push_chunks
    collect_push offered [] n i r f h o b =
        (r, collect_at_end r, refl, h, λ j l. b j (omega (arith, f.0, l)))
    collect_push offered (c ∷ cs) n i r f h o b =
        let here = Suffix-here i c cs s.manifest.chunks f in
        let next = Suffix-next i c cs s.manifest.chunks f in
        let p = is_piece i c here in
        let d : chunk_data s c.index ≡ ok (piece s c) =
          ap (chunk_data s) p.0 ∙ chunk_data_lem s i c here p.1 in
        elim (Bool-cases (any (λ j. same_int j c.index) offered)) [
          | inl e ↦ rw e (
              collect_push offered cs n (suc i) r next h o (λ j l. elim (Bool-cases (j == i)) [
                | inl at ↦ o j (
                    subst (λ x. any (λ k. same_int k x) offered ≡ true)
                      (p.0 ∙ ap pos (ground (arith, at))) e)
                | inr off ↦ b j (ground arith)
              ]))
          | inr e ↦
              rw (e, push_chunks)
                (rw (d, push_chunks)
                  (let t =
                      collect_push offered cs (suc n) (suc i) (stored r i (piece s c)) next
                        (stored-Holds s r i c here h)
                        (λ j q. if_rule (λ x. x ≡ true) (i == j) (λ _. refl) (λ _. o j q))
                        (λ j l.
                          if_rule (λ x. x ≡ true) (i == j) (λ _. refl)
                            (λ off. b j (ground arith))) in
                    (
                      t.0,
                      collect-piece r i c (push_chunks (λ _. false) (suc n) s offered cs).0 h here
                          ∙ t.1,
                      t.2,
                      t.3,
                      t.4,
                    )))
        ]
