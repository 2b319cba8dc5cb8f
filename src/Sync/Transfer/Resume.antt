-- ===== src/Sync/Transfer/Resume.antt =====
-- sync/transfer/transfer.go: transfers that the connection cuts short, and the one that gets through.
use aa.Base.{
  ℕ, suc, ◌+◌, ◌<◌, String, Bool, true, false, not, Option, none, some, List, [], ◌∷◌, ◌≡◌, refl,
  ap, ◌∙◌, sym, subst, length, get_elem?, any, All, take, zero, Result, ok, arith,
}
use aa.Base.Int.{ℤ, pos, same_int}
use aa.Sync.{Bytes, Chunk, Manifest}
use aa.Sync.Transport.{Frame, ack}
use aa.Sync.Transfer.{
  is_capacity, Source, Receiver, Error, new_receiver, indexes_from, have_indexes, missing, assemble,
  wait_offer, push, serve, served, new_source, complete, collect, transfer,
}
use aa.Sync.Transfer.Chunks.{assemble-Describes, IsBuilt, new_source-IsBuilt}
use aa.Sync.Transfer.Held.{Good, Holds, new_receiver-Holds, Suffix}
use aa.Sync.Transfer.Push.{in_range, collect-Holds, push_chunks-Good, collect_push, complete_lem}

-- A transfer that goes before: which sends of the source fail, whether the offer is lost, and how many
-- of the frames the receiver has handled when it stops.
pub record Attempt : Type 0 where
  pub lost : ℕ → Bool
  pub no_offer : Bool
  pub handled : ℕ

module _ (digest : Bytes → String) where
  module _ (s : Source) (built : IsBuilt digest s) where
    missing_none :
        (have : ℕ → Bool) (cs : List Chunk) (i : ℕ)
        → ((j : ℕ) → j < i + length cs → have j ≡ true)
        → indexes_from (λ j. not (have j)) i cs ≡ []
    unfolding indexes_from
    missing_none have [] i h = refl
    missing_none have (c ∷ cs) i h =
        rw (h i (omega arith)) (missing_none have cs (suc i) (λ j l. h j (omega arith)))

    -- A receiver that has every piece completes with the payload.
    complete-Holds :
        (r : Receiver)
        → Holds s r
        → ((j : ℕ) → j < length s.manifest.chunks → r.have j ≡ true)
        → complete digest r ≡ ok s.payload
    unfolding missing
    complete-Holds r h b =
        complete_lem digest r s.payload
          (subst (λ (m : Manifest). indexes_from (λ j. not (r.have j)) 0 m.chunks ≡ []) (sym h.same)
            (missing_none r.have s.manifest.chunks 0 (λ j l. b j (omega arith))))
          (subst (λ (m : Manifest). assemble r.parts 0 m.chunks ≡ s.payload) (sym h.same)
            (assemble-Describes digest s.payload r.parts 0 0 s.manifest.chunks built.described
              (λ j c e.
                ap r.parts (omega arith) ∙ h.held j c (b j (in_range j c s.manifest.chunks e)) e)))
          (ap (λ (m : Manifest). m.hash) h.same ∙ built.hashed)
          (ap (λ (m : Manifest). is_capacity m.size) h.same ∙ ap is_capacity built.sized)

    whole : Suffix 0 s.manifest.chunks s.manifest.chunks
    whole = (omega arith, λ j. ap (get_elem? s.manifest.chunks) (omega arith))

    All-take : (n : ℕ) (frames : List Frame) → All (Good s) frames → All (Good s) (take n frames)
    All-take zero frames g = tt
    All-take (suc n) [] g = tt
    All-take (suc n) (f ∷ frames) g = (g.0, All-take n frames g.1)

    served-Holds :
        (handled : ℕ) (r : Receiver) (p : List Frame × Option Error)
        → All (Good s) p.0
        → Holds s r
        → Holds s (served digest handled r p).0
    served-Holds handled r (frames, some e) g h =
        collect-Holds digest s built (take handled frames) r (All-take handled frames g) h
    served-Holds handled r (frames, none) g h = collect-Holds digest s built frames r g h

    transfer-Holds :
        (lost : ℕ → Bool) (no_offer : Bool) (handled : ℕ) (r : Receiver)
        → Holds s r
        → Holds s (transfer digest lost no_offer handled s r).0
    unfolding transfer serve push wait_offer
    transfer-Holds lost true handled r h = h
    transfer-Holds lost false handled r h =
        served-Holds handled r (push lost s (have_indexes r))
          (push_chunks-Good digest s built lost (have_indexes r) 0 0 s.manifest.chunks whole) h

    have_indexes_sound :
        (test : ℕ → Bool) (cs : List Chunk) (i j : ℕ)
        → any (λ k. same_int k (pos j)) (indexes_from test i cs) ≡ true
        → test j ≡ true
    unfolding indexes_from
    have_indexes_sound test [] i j e = absurd (ground arith)
    have_indexes_sound test (c ∷ cs) i j e = ground (arith, have_indexes_sound test cs (suc i) j)

    no_error :
        (handled : ℕ) (r : Receiver) (p : List Frame × Option Error) {r' : Receiver}
        {x : Result Error Bytes}
        → collect digest r p.0 ≡ (r', x)
        → p.1 ≡ none
        → x ≡ ok s.payload
        → served digest handled r p ≡ (r', none)
    no_error handled r (frames, some e) a b c = absurd (ground (arith, b))
    no_error handled r (frames, none) a b c = rw (a, c) refl

    transfer_whole :
        (handled : ℕ) (r : Receiver)
        → Holds s r
        → (r' : Receiver) × (transfer digest (λ _. false) false handled s r ≡ (r', none))
          × (complete digest r' ≡ ok s.payload)
    unfolding transfer serve push wait_offer have_indexes
    transfer_whole handled r h =
        let t =
          collect_push digest s built (have_indexes r) s.manifest.chunks 0 0 r whole h
            (have_indexes_sound r.have r.manifest.chunks 0) (λ j l. absurd (omega arith)) in
        let done = complete-Holds t.0 t.3 t.4 in
        (t.0, no_error handled r (push (λ _. false) s (have_indexes r)) t.1 t.2 done, done)

  -- Transfers one after another into one receiver, each on connections of its own, and each begun when
  -- the receiver of the one before has stopped.
  unfoldable pub attempts : List Attempt → Source → Receiver → Receiver
  attempts [] s r = r
  attempts (a ∷ rest) s r = attempts rest s (transfer digest a.lost a.no_offer a.handled s r).0

  attempts-Holds :
      (tries : List Attempt) (s : Source) (r : Receiver)
      → IsBuilt digest s
      → Holds s r
      → Holds s (attempts tries s r)
  unfolding attempts
  attempts-Holds [] s r built h = h
  attempts-Holds (a ∷ rest) s r built h =
      attempts-Holds rest s (transfer digest a.lost a.no_offer a.handled s r).0 built
        (transfer-Holds s built a.lost a.no_offer a.handled r h)

-- A payload that NewSource cuts into chunks, of any size of chunk, reaches a new receiver whole. Let
-- any transfers go before, each on connections of its own, in each of which the receiver's offer or
-- any sends of the source may fail and whose receiver has handled any part of the frames sent when it
-- stops, before the next one begins: then a transfer in which no send fails returns no error, and
-- Complete returns the payload.
pub transfer-complete :
    (digest : Bytes → String) (id name : String) (payload : Bytes) (size : ℤ) {s : Source}
    → new_source digest id name payload size ≡ ok s
    → (tries : List Attempt) (handled : ℕ)
    → (r' : Receiver) × (transfer digest
          (λ _. false)
          false
          handled
          s
          (attempts digest tries s (new_receiver s.manifest))
        ≡ (r', none))
      × (complete digest r' ≡ ok payload)
transfer-complete digest id name payload size {s} e tries handled =
    let b = new_source-IsBuilt digest id name payload size e in
    let t =
      transfer_whole digest s b.0 handled (attempts digest tries s (new_receiver s.manifest))
        (attempts-Holds digest tries s (new_receiver s.manifest) b.0 (new_receiver-Holds s)) in
    (t.0, t.1, t.2 ∙ ap ok b.1)

-- A source that answers a new receiver's offer over a connection that loses nothing.
pub serve-delivers :
    (digest : Bytes → String) (s : Source) (frames : List Frame)
    → IsBuilt digest s
    → (sent : List Frame) × (serve
          (λ _. false)
          s
          (ack (some (have_indexes (new_receiver s.manifest))) ∷ frames)
        ≡ (sent, none))
      × ((collect digest (new_receiver s.manifest) sent).1 ≡ ok s.payload)
unfolding serve push wait_offer have_indexes
serve-delivers digest s frames built =
    let r = new_receiver s.manifest in
    let h = new_receiver-Holds s in
    let t =
      collect_push digest s built (have_indexes r) s.manifest.chunks 0 0 r (whole digest s built) h
        (have_indexes_sound digest s built r.have r.manifest.chunks 0)
        (λ j l. absurd (omega arith)) in
    (
      (push (λ _. false) s (have_indexes r)).0,
      ap (λ e. ((push (λ _. false) s (have_indexes r)).0, e)) t.2,
      ap (λ (q : Receiver × Result Error Bytes). q.1) t.1
          ∙ complete-Holds digest s built t.0 t.3 t.4,
    )
