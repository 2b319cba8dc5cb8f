-- ===== src/Sync/Distribute/Delivery.antt =====
-- sync/distribute/distribute.go: a distributor and a peer on a connection that loses nothing.
use aa.Base.{
  ℕ, String, true, false, ◌||◌, none, some, List, [], ◌∷◌, ◌≡◌, refl, ap, ◌∙◌, subst, str_eq,
  ok_inj, ok, arith, length, eq_refl, inl, inr, Bool-cases,
}
use aa.Base.Int.{pos}
use aa.Base.Assoc.{lookup, insert, lookup-insert}
use aa.Sync.{Bytes, WorkPackage, Artifact, Receipt}
use aa.Sync.Transport.{Frame}
use aa.Sync.Transfer.{Source, new_source, new_receiver, serve, collect, build, chunks_from}
use aa.Sync.Transfer.Chunks.{IsBuilt, new_source-IsBuilt}
use aa.Sync.Transfer.Resume.{serve-delivers}
use aa.Sync.Distribute.{
  Distributor, Peer, Link, Outcome, transfer_key, distribute, send_package, sent_package,
  serve_session, serve_frames, store_package, send_artifact, fetch_artifact, receive_artifact,
  fetched, publish, offer_of, package_receipt, hello_of, request_of,
}

abbrev pub good_link : List Frame → Link
good_link incoming = record { dialled = true; lost = λ _. false; incoming = incoming }

module _ (digest : Bytes → String) where
  -- NewSource refuses no id but the empty one.
  abbrev source_of : String → String → Bytes → Source
  source_of id name payload = record {
    manifest = record {
      id = id;
      name = name;
      size = pos (length payload);
      chunk_size = 65536;
      hash = digest payload;
      chunks = chunks_from digest (length payload) 0 0 65536 payload;
    };
    payload = payload;
  }

  new_source_lem :
      (id name : String) (payload : Bytes)
      → str_eq id "" ≡ false
      → new_source digest id name payload (pos 0) ≡ ok (source_of id name payload)
  unfolding new_source build
  new_source_lem id name payload h = rw (h, new_source, build) refl

  source_of-IsBuilt :
      (id name : String) (payload : Bytes)
      → str_eq id "" ≡ false
      → IsBuilt digest (source_of id name payload)
  source_of-IsBuilt id name payload h =
      (new_source-IsBuilt digest id name payload (pos 0) (new_source_lem id name payload h)).0

  -- What the peer keeps of a package: everything but its project.
  abbrev pub delivered : WorkPackage → WorkPackage
  delivered wp = record wp { project_id = ""; hash = digest wp.payload }

  distribute_lem :
      (trim : String → String) (d : Distributor) (wp : WorkPackage) (remote : String) (now : ℕ)
      (reply : List Frame) {frames : List Frame}
      → (str_eq wp.id "" || str_eq remote "") ≡ false
      → lookup (transfer_key trim "distribute" wp.id remote) d.receipts ≡ none
      → serve (λ _. false) (source_of wp.id wp.name wp.payload) reply ≡ (frames, none)
      → distribute digest trim d wp remote now (good_link reply)
        ≡ sent_package digest d
            (transfer_key trim "distribute" wp.id remote)
            wp
            remote
            (source_of wp.id wp.name wp.payload)
            now
            (frames, none)
  unfolding distribute send_package
  distribute_lem trim d wp remote now reply {frames} h k e =
      rw (h, distribute)
        (rw (k, distribute)
          (rw (new_source_lem wp.id wp.name wp.payload (ground (arith, h)), send_package)
            (rw e refl)))

  serve_session_lem :
      (p : Peer) (wp : WorkPackage) (frames : List Frame)
      → (collect digest (new_receiver (source_of wp.id wp.name wp.payload).manifest) frames).1
        ≡ ok wp.payload
      → serve_session digest p (
          good_link (
            hello_of digest "workpackage" wp.id wp.name (source_of wp.id wp.name wp.payload)
            ∷ frames))
        ≡ record {
          state = record p { packages = insert wp.id (delivered wp) p.packages };
          sent = offer_of digest (source_of wp.id wp.name wp.payload).manifest ∷ [];
          answer = ok tt;
        }
  unfolding serve_session serve_frames store_package
  serve_session_lem p wp frames e = rw e refl

  fetch_artifact_lem :
      (trim : String → String) (d : Distributor) (id name remote : String) (payload : Bytes)
      (now : ℕ) (frames : List Frame)
      → (str_eq id "" || str_eq remote "") ≡ false
      → lookup (transfer_key trim "artifact" id remote) d.receipts ≡ none
      → (collect digest (new_receiver (source_of id name payload).manifest) frames).1 ≡ ok payload
      → fetch_artifact digest trim d id remote now
          (good_link (hello_of digest "artifact" id name (source_of id name payload) ∷ frames))
        ≡ fetched digest d
            (transfer_key trim "artifact" id remote)
            id
            remote
            now
            (source_of id name payload).manifest
            (ok payload)
  unfolding fetch_artifact receive_artifact
  fetch_artifact_lem trim d id name remote payload now frames h k e =
      rw (h, fetch_artifact) (rw (k, fetch_artifact) (rw e refl))

  serve_artifact_lem :
      (p : Peer) (id : String) (a : Artifact) (payload : Bytes) (incoming : List Frame)
      {frames : List Frame}
      → str_eq a.id "" ≡ false
      → lookup id p.artifacts ≡ some a
      → lookup id p.artifact_data ≡ some payload
      → serve (λ _. false) (source_of a.id a.name payload) incoming ≡ (frames, none)
      → serve_session digest p (good_link (request_of digest id ∷ incoming)) ≡ record {
        state = p;
        sent = hello_of digest "artifact" a.id a.name (source_of a.id a.name payload) ∷ frames;
        answer = ok tt;
      }
  unfolding serve_session serve_frames send_artifact
  serve_artifact_lem p id a payload incoming h f g e =
      rw (f, serve_session, serve_frames)
        (rw (g, send_artifact)
          (rw (new_source_lem a.id a.name payload h, send_artifact) (rw e refl)))

  published : Artifact → Bytes → Artifact
  published a payload = record a { hash = digest payload; size = length payload }

  publish_lem :
      (p : Peer) (a : Artifact) (payload : Bytes) {p' : Peer}
      → publish digest p a payload ≡ ok p'
      → (str_eq a.id "" ≡ false)
        × (lookup a.id p'.artifacts ≡ some (published a payload))
        × (lookup a.id p'.artifact_data ≡ some payload)
  unfolding publish published
  publish_lem p a payload {p'} e = elim (Bool-cases (str_eq a.id "")) [
    | inl empty ↦ absurd (ground arith)
    | inr named ↦
        subst
          (λ (q : Peer).
            (str_eq a.id "" ≡ false)
            × (lookup a.id q.artifacts ≡ some (published a payload))
            × (lookup a.id q.artifact_data ≡ some payload))
          (ok_inj (rw (named, publish) at e))
          (
            named,
            lookup-insert a.id a.id (published a payload) p.artifacts
                ∙ ground (arith, eq_refl a.id),
            lookup-insert a.id a.id payload p.artifact_data ∙ ground (arith, eq_refl a.id),
          )
  ]

-- Distribute and the peer's Serve on a connection that loses nothing, for a package and a node with
-- ids and without a receipt: there are frames each way such that each side, when it receives what
-- the other sends, sends exactly these; both end without error; the receipt has the hash and the
-- number of bytes of the payload; and the peer then holds the package with its name, payload and
-- hash, its project left empty.
pub distribute-delivers :
    (digest : Bytes → String) (trim : String → String) (d : Distributor) (p : Peer)
    (wp : WorkPackage) (remote : String) (now : ℕ)
    → (str_eq wp.id "" || str_eq remote "") ≡ false
    → lookup (transfer_key trim "distribute" wp.id remote) d.receipts ≡ none
    → (there : List Frame) × (back : List Frame) × (receipt : Receipt) × ((distribute digest trim d
          wp remote now
          (good_link back)).sent
        ≡ there)
      × ((distribute digest trim d wp remote now (good_link back)).answer ≡ ok receipt)
      × ((serve_session digest p (good_link there)).sent ≡ back)
      × ((serve_session digest p (good_link there)).answer ≡ ok tt)
      × (lookup wp.id (serve_session digest p (good_link there)).state.packages
          ≡ some (delivered digest wp))
      × (receipt.hash ≡ digest wp.payload)
      × (receipt.bytes ≡ pos (length wp.payload))
unfolding sent_package
distribute-delivers digest trim d p wp remote now h k =
    let s = source_of digest wp.id wp.name wp.payload in
    let key = transfer_key trim "distribute" wp.id remote in
    let back : List Frame = offer_of digest s.manifest ∷ [] in
    let t =
      serve-delivers digest s []
        (source_of-IsBuilt digest wp.id wp.name wp.payload (ground (arith, h))) in
    let there : List Frame = hello_of digest "workpackage" wp.id wp.name s ∷ t.0 in
    let x = distribute_lem digest trim d wp remote now back h k t.1 in
    let y = serve_session_lem digest p wp t.0 t.2 in
    (
      there,
      back,
      package_receipt digest key wp remote s now,
      ap (λ (o : Outcome Distributor Receipt). o.sent) x,
      ap (λ (o : Outcome Distributor Receipt). o.answer) x,
      ap (λ (o : Outcome Peer (Unit {0})). o.sent) y,
      ap (λ (o : Outcome Peer (Unit {0})). o.answer) y,
      ap (λ (o : Outcome Peer (Unit {0})). lookup wp.id o.state.packages) y
          ∙ lookup-insert wp.id wp.id (delivered digest wp) p.packages
          ∙ ground (arith, eq_refl wp.id),
      refl,
      refl,
    )

-- Publish, the peer's Serve and FetchArtifact on a connection that loses nothing: after a peer has
-- published an artifact, a distributor without a receipt for it fetches exactly its data and answers
-- with a receipt that names the artifact, the peer, the data's hash and its length; frames pass each
-- way as each side expects them, and the peer ends without error too.
pub fetch-publish :
    (digest : Bytes → String) (trim : String → String) (d : Distributor) (p : Peer) (a : Artifact)
    (payload : Bytes) (remote : String) (now : ℕ) {p' : Peer}
    → publish digest p a payload ≡ ok p'
    → str_eq remote "" ≡ false
    → lookup (transfer_key trim "artifact" a.id remote) d.receipts ≡ none
    → (there : List Frame) × (back : List Frame) × ((fetch_artifact digest trim d a.id remote now
          (good_link back)).sent
        ≡ there)
      × ((r : Receipt) × ((fetch_artifact digest trim d a.id remote now (good_link back)).answer
            ≡ ok r)
          × (r.artifact_id ≡ a.id)
          × (r.node_id ≡ remote)
          × (r.hash ≡ digest payload)
          × (r.bytes ≡ pos (length payload)))
      × (lookup a.id (fetch_artifact digest trim d a.id remote now (good_link back)).state.artifacts
          ≡ some payload)
      × ((serve_session digest p' (good_link there)).sent ≡ back)
      × ((serve_session digest p' (good_link there)).answer ≡ ok tt)
unfolding fetched published
fetch-publish digest trim d p a payload remote now {p'} e n k =
    let q = publish_lem digest p a payload e in
    let s = source_of digest a.id a.name payload in
    let offer = offer_of digest s.manifest ∷ [] in
    let t = serve-delivers digest s [] (source_of-IsBuilt digest a.id a.name payload q.0) in
    let there : List Frame = request_of digest a.id ∷ offer in
    let back : List Frame = hello_of digest "artifact" a.id a.name s ∷ t.0 in
    let x =
      fetch_artifact_lem digest trim d a.id a.name remote payload now t.0 (ground (arith, q.0, n)) k
        t.2 in
    let y =
      serve_artifact_lem digest p' a.id (published digest a payload) payload offer q.0 q.1 q.2
        t.1 in
    (
      there,
      back,
      ap (λ (o : Outcome Distributor Receipt). o.sent) x,
      (_, ap (λ (o : Outcome Distributor Receipt). o.answer) x, refl, refl, refl, refl),
      ap (λ (o : Outcome Distributor Receipt). lookup a.id o.state.artifacts) x
          ∙ lookup-insert a.id a.id payload d.artifacts
          ∙ ground (arith, eq_refl a.id),
      ap (λ (o : Outcome Peer (Unit {0})). o.sent) y,
      ap (λ (o : Outcome Peer (Unit {0})). o.answer) y,
    )
