-- ===== src/Sync/Distribute/Repeat.antt =====
-- sync/distribute/distribute.go: receipts, and calls that are repeated.
use aa.Base.{
  ℕ, String, false, not, ◌||◌, Option, none, some, List, [], ◌∷◌, ◌≡◌, refl, ap, ◌∙◌, str_eq,
  eq_iff, Result, Option-cases, ok, err, arith, inl, inr, Bool-cases, if_rule, ok_inj,
}
use aa.Base.Int.{pos}
use aa.Base.Assoc.{lookup, insert, lookup-insert}
use aa.Sync.{Bytes, WorkPackage, Receipt, Manifest}
use aa.Sync.Transport.{Frame, hello, chunk, ack, revision, receipt, close}
use aa.Sync.Transfer
use aa.Sync.Transfer.{Source, new_source, new_receiver, serve, collect}
use aa.Sync.Distribute.{
  Distributor, Link, Outcome, Error, transfer_key, distribute, send_package, sent_package,
  fetch_artifact, receive_artifact, fetched, register, later,
}

-- Receipts stay as they are.
abbrev Keeps : Distributor → Distributor → Type 0
Keeps d d' =
    (key : String) (r : Receipt) → lookup key d.receipts ≡ some r → lookup key d'.receipts ≡ some r

-- The receipt of the call is stored, or the call failed.
abbrev Recorded : String → Outcome Distributor Receipt → Type 0
Recorded key o = (r : Receipt) → o.answer ≡ ok r → lookup key o.state.receipts ≡ some r

insert-Keeps :
    (key k : String) (new r : Receipt) (receipts : List (String × Receipt))
    → lookup key receipts ≡ none
    → lookup k receipts ≡ some r
    → lookup k (insert key new receipts) ≡ some r
insert-Keeps key k new r receipts n h =
    lookup-insert key k new receipts ∙ ground (arith, eq_iff key k, n, h)

insert-here :
    (key : String) (new : Receipt) (receipts : List (String × Receipt))
    → lookup key (insert key new receipts) ≡ some new
insert-here key new receipts = lookup-insert key key new receipts ∙ ground (arith, eq_iff key key)

-- What a call does to the receipts.
abbrev Fine : String → Distributor → Outcome Distributor Receipt → Type 0
Fine key d o = Keeps d o.state × Recorded key o

fails-Fine :
    (key : String) (d : Distributor) (e : Error)
    → Fine key d (record { state = d; sent = []; answer = err e })
fails-Fine key d e = (λ k r h. h, λ r h. absurd (ground (arith, h)))

module _ (digest : Bytes → String) (d : Distributor) (key : String)
    (n : lookup key d.receipts ≡ none) where
  sent_package-Fine :
      (wp : WorkPackage) (remote : String) (s : Source) (now : ℕ)
      (x : List Frame × Option Transfer.Error)
      → Fine key d (sent_package digest d key wp remote s now x)
  unfolding sent_package
  sent_package-Fine wp remote s now (frames, some e) = fails-Fine key d _
  sent_package-Fine wp remote s now (frames, none) = (
    λ k r h. insert-Keeps key k _ r d.receipts n h,
    λ r h. insert-here key _ d.receipts ∙ ap some (ok_inj h),
  )

  send_package-Fine :
      (wp : WorkPackage) (remote : String) (now : ℕ) (link : Link)
      (x : Result Transfer.Error Source)
      → Fine key d (send_package digest d key wp remote now link x)
  unfolding send_package
  send_package-Fine wp remote now link (err e) = fails-Fine key d _
  send_package-Fine wp remote now link (ok s) =
      if_rule (Fine key d) (not link.dialled) (λ _. fails-Fine key d _)
        (λ _.
          if_rule (Fine key d) (link.lost 0) (λ _. fails-Fine key d _)
            (λ _. sent_package-Fine wp remote s now (serve (later 1 link.lost) s link.incoming)))

  fetched-Fine :
      (id remote : String) (now : ℕ) (m : Manifest) (x : Result Transfer.Error Bytes)
      → Fine key d (fetched digest d key id remote now m x)
  unfolding fetched
  fetched-Fine id remote now m (err e) = fails-Fine key d _
  fetched-Fine id remote now m (ok payload) = (
    λ k r h. insert-Keeps key k _ r d.receipts n h,
    λ r h. insert-here key _ d.receipts ∙ ap some (ok_inj h),
  )

  receive_artifact-Fine :
      (id remote : String) (now : ℕ) (link : Link) (frames : List Frame)
      → Fine key d (receive_artifact digest d key id remote now link frames)
  unfolding receive_artifact
  receive_artifact-Fine id remote now link [] = fails-Fine key d _
  receive_artifact-Fine id remote now link (close ∷ frames) = fails-Fine key d _
  receive_artifact-Fine id remote now link (hello none ∷ frames) = fails-Fine key d _
  receive_artifact-Fine id remote now link (hello (some body) ∷ frames) =
      if_rule (Fine key d) (link.lost 1) (λ _. fails-Fine key d _)
        (λ _.
          fetched-Fine id remote now body.manifest
            (collect digest (new_receiver body.manifest) frames).1)
  receive_artifact-Fine id remote now link (chunk b ∷ frames) = fails-Fine key d _
  receive_artifact-Fine id remote now link (ack b ∷ frames) = fails-Fine key d _
  receive_artifact-Fine id remote now link (revision b ∷ frames) = fails-Fine key d _
  receive_artifact-Fine id remote now link (receipt ∷ frames) = fails-Fine key d _

-- A call of the distributor.
pub data Call : Type 0 where
  distributes : WorkPackage → String → ℕ → Link → Call
  fetches : String → String → ℕ → Link → Call
  registers : WorkPackage → Call

module _ (digest : Bytes → String) (trim : String → String) where
  distribute-Fine :
      (d : Distributor) (wp : WorkPackage) (remote : String) (now : ℕ) (link : Link)
      → Fine
          (transfer_key trim "distribute" wp.id remote)
          d
          (distribute digest trim d wp remote now link)
  unfolding distribute
  distribute-Fine d wp remote now link =
      let key = transfer_key trim "distribute" wp.id remote in
      elim (Bool-cases (str_eq wp.id "" || str_eq remote "")) [
        | inl e ↦ rw (e, distribute) (fails-Fine key d _)
        | inr e ↦
            rw (e, distribute)
              (elim (Option-cases (lookup key d.receipts)) [
                | inl new ↦
                    rw (new, distribute)
                      (send_package-Fine digest d key new wp remote now link
                        (new_source digest wp.id wp.name wp.payload (pos 0)))
                | inr (r, old) ↦ rw (old, distribute) (λ k q h. h, λ q h. old ∙ ap some (ok_inj h))
              ])
      ]

  fetch_artifact-Fine :
      (d : Distributor) (id remote : String) (now : ℕ) (link : Link)
      → Fine
          (transfer_key trim "artifact" id remote)
          d
          (fetch_artifact digest trim d id remote now link)
  unfolding fetch_artifact
  fetch_artifact-Fine d id remote now link =
      let key = transfer_key trim "artifact" id remote in
      elim (Bool-cases (str_eq id "" || str_eq remote "")) [
        | inl e ↦ rw (e, fetch_artifact) (fails-Fine key d _)
        | inr e ↦
            rw (e, fetch_artifact)
              (elim (Option-cases (lookup key d.receipts)) [
                | inl new ↦
                    rw (new, fetch_artifact)
                      (if_rule (Fine key d) (not link.dialled) (λ _. fails-Fine key d _)
                        (λ _.
                          if_rule (Fine key d) (link.lost 0) (λ _. fails-Fine key d _)
                            (λ _.
                              receive_artifact-Fine digest d key new id remote now link
                                link.incoming)))
                | inr (r, old) ↦
                    rw (old, fetch_artifact) (λ k q h. h, λ q h. old ∙ ap some (ok_inj h))
              ])
      ]

  abbrev pub registered : Distributor → Result Error Distributor → Distributor
  registered d (ok d') = d'
  registered d (err e) = d

  unfoldable pub call : Distributor → Call → Distributor
  call d (distributes wp remote now link) = (distribute digest trim d wp remote now link).state
  call d (fetches id remote now link) = (fetch_artifact digest trim d id remote now link).state
  call d (registers wp) = registered d (register digest d wp)

  unfoldable pub calls : Distributor → List Call → Distributor
  unfolding call
  calls d [] = d
  calls d (c ∷ cs) = calls (call d c) cs

  register-Keeps :
      (d : Distributor) (wp : WorkPackage) → Keeps d (registered d (register digest d wp))
  unfolding register
  register-Keeps d wp =
      if_rule (λ x. Keeps d (registered d x)) (str_eq wp.id "") (λ _ k r h. h) (λ _ k r h. h)

  calls-Keeps : (d : Distributor) (cs : List Call) → Keeps d (calls d cs)
  unfolding calls call
  calls-Keeps d [] k r h = h
  calls-Keeps d (distributes wp remote now link ∷ cs) k r h =
      calls-Keeps (call d (distributes wp remote now link)) cs k r
        ((distribute-Fine d wp remote now link).0 k r h)
  calls-Keeps d (fetches id remote now link ∷ cs) k r h =
      calls-Keeps (call d (fetches id remote now link)) cs k r
        ((fetch_artifact-Fine d id remote now link).0 k r h)
  calls-Keeps d (registers wp ∷ cs) k r h =
      calls-Keeps (call d (registers wp)) cs k r (register-Keeps d wp k r h)

  distribute_cached :
      (d : Distributor) (wp : WorkPackage) (remote : String) (now : ℕ) (link : Link) {r : Receipt}
      → (str_eq wp.id "" || str_eq remote "") ≡ false
      → lookup (transfer_key trim "distribute" wp.id remote) d.receipts ≡ some r
      → distribute digest trim d wp remote now link ≡ record { state = d; sent = []; answer = ok r }
  unfolding distribute
  distribute_cached d wp remote now link e h = rw (e, distribute) (rw (h, distribute) refl)

-- Once Distribute has returned a receipt, whatever else the distributor is asked to do in between,
-- a call with the same transfer key, with any package of a non-empty id and any non-empty node,
-- returns this receipt, sends no frame and changes nothing.
pub distribute-again :
    (digest : Bytes → String) (trim : String → String) (d : Distributor) (wp wp' : WorkPackage)
    (remote remote' : String) (now now' : ℕ) (link link' : Link) (cs : List Call) {r : Receipt}
    → (distribute digest trim d wp remote now link).answer ≡ ok r
    → (str_eq wp'.id "" || str_eq remote' "") ≡ false
    → transfer_key trim "distribute" wp'.id remote' ≡ transfer_key trim "distribute" wp.id remote
    → distribute digest trim
        (calls digest trim (distribute digest trim d wp remote now link).state cs)
        wp'
        remote'
        now'
        link'
      ≡ record {
        state = calls digest trim (distribute digest trim d wp remote now link).state cs;
        sent = [];
        answer = ok r;
      }
distribute-again digest trim d wp wp' remote remote' now now' link link' cs {r} e h k =
    let d' = (distribute digest trim d wp remote now link).state in
    distribute_cached digest trim (calls digest trim d' cs) wp' remote' now' link' h (
      ap (λ key. lookup key (calls digest trim d' cs).receipts) k
      ∙ calls-Keeps digest trim d' cs _ r
          ((distribute-Fine digest trim d wp remote now link).1 r e))
