-- ===== src/Sync/Distribute.antt =====
-- sync/distribute/distribute.go and sync/idempotency.go: work packages sent to a node, and artifacts
-- fetched from one.
pub mod Delivery
pub mod Repeat
use Prim.Native.String.{◌++◌ as ◌<>◌}
use aa.Base.{
  ℕ, zero, suc, String, Bool, true, false, not, ◌||◌, Option, none, some, List, [], ◌∷◌, length,
  keep, str_eq, str_lt, if◌then◌else◌, Result, ok, err,
}
use aa.Base.Int.{pos}
use aa.Base.Assoc.{lookup, insert, values}
use aa.Base.Sort.{sort_by}
use aa.Sync.{Bytes, WorkPackage, Artifact, Receipt, Manifest, TransferState}
use aa.Sync.Transport.{Frame, HelloBody, RequestBody, hello, chunk, ack, revision, receipt, close}
use aa.Sync.Transfer
use aa.Sync.Transfer.{Source, new_source, new_receiver, have_indexes, serve, collect}

pub data Error : Type 0 where
  id_and_node_required : Error
  id_required : Error
  artifact_not_found : String → Error
  unexpected_object : String → Error
  unexpected_frame : Error
  undecodable : Error
  not_dialled not_sent not_received : Error
  transfer_failed : Transfer.Error → Error

pub record Distributor : Type 0 where
  pub local : String
  pub receipts : List (String × Receipt)
  pub packages : List (String × WorkPackage)
  pub artifacts : List (String × Bytes)

pub record Peer : Type 0 where
  pub local : String
  pub packages : List (String × WorkPackage)
  pub artifacts : List (String × Artifact)
  pub artifact_data : List (String × Bytes)

unfoldable pub new_distributor : String → Distributor
new_distributor local = record { local = local; receipts = []; packages = []; artifacts = [] }

unfoldable pub new_peer : String → Peer
new_peer local = record { local = local; packages = []; artifacts = []; artifact_data = [] }

-- The connection: whether `Dial` answers, which of this node's sends fail, and the frames that
-- `Receive` returns one after another.
pub record Link : Type 0 where
  pub dialled : Bool
  pub lost : ℕ → Bool
  pub incoming : List Frame

-- What a call leaves, sends and answers.
pub record Outcome {ℓ κ} (S : Type ℓ) (A : Type κ) : Type (ℓ ⊔ κ) where
  pub state : S
  pub sent : List Frame
  pub answer : Result Error A

-- The transport's failures and the sends after the first `n`.
abbrev pub later : ℕ → (ℕ → Bool) → ℕ → Bool
later zero lost n = lost n
later (suc m) lost n = later m lost (suc n)

-- A missing key reads as nil.
abbrev pub get_data : Option Bytes → Bytes
get_data none = []
get_data (some payload) = payload

-- `Status`
unfoldable pub status : Distributor → String → List Receipt
status d node =
    sort_by (λ (a b : Receipt). str_lt a.transfer_id b.transfer_id)
      (keep (λ (r : Receipt). str_eq node "" || str_eq r.node_id node) (values d.receipts))

unfoldable pub sorted_packages : List (String × WorkPackage) → List WorkPackage
sorted_packages packages = sort_by (λ (a b : WorkPackage). str_lt a.id b.id) (values packages)

-- `TransferKey`, which joins the trimmed parts; `trim` is `strings.TrimSpace`.
unfoldable pub transfer_key : (String → String) → String → String → String → String
transfer_key trim kind object_id node = trim kind <> ":" <> trim object_id <> ":" <> trim node

module _ (digest : Bytes → String) where
  abbrev pub hashed : WorkPackage → WorkPackage
  hashed wp = record wp { hash = digest wp.payload }

  unfoldable pub register : Distributor → WorkPackage → Result Error Distributor
  register d wp =
      if str_eq wp.id ""
      then err id_required
      else ok (record d { packages = insert wp.id (hashed wp) d.packages })

  unfoldable pub publish : Peer → Artifact → Bytes → Result Error Peer
  publish p a payload =
      if str_eq a.id ""
      then err id_required
      else ok (record p {
        artifacts =
            insert a.id (record a { hash = digest payload; size = length payload }) p.artifacts;
        artifact_data = insert a.id payload p.artifact_data;
      })

  abbrev pub package_receipt : String → WorkPackage → String → Source → ℕ → Receipt
  package_receipt key wp remote s now = record {
    transfer_id = key;
    work_package_id = wp.id;
    artifact_id = "";
    node_id = remote;
    state = TransferState.complete;
    hash = s.manifest.hash;
    bytes = s.manifest.size;
    created_at = now;
  }

  abbrev pub hello_of : String → String → String → Source → Frame
  hello_of object id name s =
      hello (some (record { object = object; manifest = s.manifest; id = id; name = name }))

  -- From the answer of `transfer.Serve` on.
  unfoldable pub sent_package :
      Distributor
      → String
      → WorkPackage
      → String
      → Source
      → ℕ
      → List Frame × Option Transfer.Error
      → Outcome Distributor Receipt
  sent_package d key wp remote s now (frames, some e) = record {
    state = d;
    sent = hello_of "workpackage" wp.id wp.name s ∷ frames;
    answer = err (transfer_failed e);
  }
  sent_package d key wp remote s now (frames, none) = record {
    state = record d {
      packages = insert wp.id (hashed wp) d.packages;
      receipts = insert key (package_receipt key wp remote s now) d.receipts;
    };
    sent = hello_of "workpackage" wp.id wp.name s ∷ frames;
    answer = ok (package_receipt key wp remote s now);
  }

  abbrev pub fails {ℓ κ} : {S : Type ℓ} {A : Type κ} → S → Error → Outcome S A
  fails d e = record { state = d; sent = []; answer = err e }

  -- From the dial on, with the source that was built.
  unfoldable pub send_package :
      Distributor
      → String
      → WorkPackage
      → String
      → ℕ
      → Link
      → Result Transfer.Error Source
      → Outcome Distributor Receipt
  unfolding sent_package
  send_package d key wp remote now link (err e) = fails d (transfer_failed e)
  send_package d key wp remote now link (ok s) =
      if not link.dialled
      then fails d not_dialled
      else if link.lost 0
      then fails d not_sent
      else sent_package d key wp remote s now (serve (later 1 link.lost) s link.incoming)

  -- `Distribute`; `now` is what the clock says.
  unfoldable pub distribute :
      (String → String)
      → Distributor
      → WorkPackage
      → String
      → ℕ
      → Link
      → Outcome Distributor Receipt
  unfolding transfer_key send_package
  distribute trim d wp remote now link =
      let key = transfer_key trim "distribute" wp.id remote in
      if str_eq wp.id "" || str_eq remote ""
      then fails d id_and_node_required
      else elim (lookup key d.receipts) [
        | some r ↦ record { state = d; sent = []; answer = ok r }
        | none ↦
            send_package d key wp remote now link
              (new_source digest wp.id wp.name wp.payload (pos 0))
      ]

  abbrev pub request_of : String → Frame
  request_of id = revision (some (record { object = "artifact"; id = id }))

  abbrev pub artifact_receipt : String → String → String → Manifest → ℕ → Receipt
  artifact_receipt key id remote m now = record {
    transfer_id = key;
    work_package_id = "";
    artifact_id = id;
    node_id = remote;
    state = TransferState.complete;
    hash = m.hash;
    bytes = m.size;
    created_at = now;
  }

  abbrev pub offer_of : Manifest → Frame
  offer_of m = ack (some (have_indexes (new_receiver m)))

  -- From the answer of `recv.Run` on.
  unfoldable pub fetched :
      Distributor
      → String
      → String
      → String
      → ℕ
      → Manifest
      → Result Transfer.Error Bytes
      → Outcome Distributor Receipt
  fetched d key id remote now m (err e) = record {
    state = d;
    sent = request_of id ∷ offer_of m ∷ [];
    answer = err (transfer_failed e);
  }
  fetched d key id remote now m (ok payload) = record {
    state = record d {
      artifacts = insert id payload d.artifacts;
      receipts = insert key (artifact_receipt key id remote m now) d.receipts;
    };
    sent = request_of id ∷ offer_of m ∷ [];
    answer = ok (artifact_receipt key id remote m now);
  }

  abbrev pub asked_only : Distributor → String → Error → Outcome Distributor Receipt
  asked_only d id e = record { state = d; sent = request_of id ∷ []; answer = err e }

  -- From the first frame that arrives on.
  unfoldable pub receive_artifact :
      Distributor → String → String → String → ℕ → Link → List Frame → Outcome Distributor Receipt
  unfolding fetched
  receive_artifact d key id remote now link [] = asked_only d id not_received
  receive_artifact d key id remote now link (close ∷ frames) =
      asked_only d id (artifact_not_found id)
  receive_artifact d key id remote now link (hello none ∷ frames) = asked_only d id undecodable
  receive_artifact d key id remote now link (hello (some body) ∷ frames) =
      if link.lost 1
      then asked_only d id (transfer_failed Transfer.not_sent)
      else fetched d key id remote now body.manifest
          (collect digest (new_receiver body.manifest) frames).1
  receive_artifact d key id remote now link (frame ∷ frames) = asked_only d id unexpected_frame

  -- `FetchArtifact`
  unfoldable pub fetch_artifact :
      (String → String) → Distributor → String → String → ℕ → Link → Outcome Distributor Receipt
  unfolding transfer_key receive_artifact
  fetch_artifact trim d id remote now link =
      let key = transfer_key trim "artifact" id remote in
      if str_eq id "" || str_eq remote ""
      then fails d id_and_node_required
      else elim (lookup key d.receipts) [
        | some r ↦ record { state = d; sent = []; answer = ok r }
        | none ↦
            (if not link.dialled
              then fails d not_dialled
              else if link.lost 0
              then fails d not_sent
              else receive_artifact d key id remote now link link.incoming)
      ]

  -- The package that a peer stores of what it received.
  abbrev pub received_package : HelloBody → Bytes → WorkPackage
  received_package body payload = record {
    id = body.id;
    project_id = "";
    name = body.name;
    payload = payload;
    hash = body.manifest.hash;
  }

  unfoldable pub store_package :
      Peer → HelloBody → Result Transfer.Error Bytes → Outcome Peer (Unit {0})
  store_package p body (err e) = record {
    state = p;
    sent = offer_of body.manifest ∷ [];
    answer = err (transfer_failed e);
  }
  store_package p body (ok payload) = record {
    state = record p { packages = insert body.id (received_package body payload) p.packages };
    sent = offer_of body.manifest ∷ [];
    answer = ok tt;
  }

  abbrev pub served : Peer → Frame → List Frame × Option Transfer.Error → Outcome Peer (Unit {0})
  served p first (frames, none) = record { state = p; sent = first ∷ frames; answer = ok tt }
  served p first (frames, some e) = record {
    state = p;
    sent = first ∷ frames;
    answer = err (transfer_failed e);
  }

  -- An artifact that is held is announced and served; one that is not is answered by a close
  -- frame, the failure of which is ignored.
  unfoldable pub send_artifact :
      Peer → String → Link → List Frame → Option Artifact → Outcome Peer (Unit {0})
  unfolding serve
  send_artifact p id link frames none = record {
    state = p;
    sent = if link.lost 0 then [] else close ∷ [];
    answer = err (artifact_not_found id);
  }
  send_artifact p id link frames (some a) =
      elim (new_source digest a.id a.name (get_data (lookup id p.artifact_data)) (pos 0)) [
        | err e ↦ fails p (transfer_failed e)
        | ok s ↦
            (if link.lost 0
              then fails p not_sent
              else served p (hello_of "artifact" a.id a.name s)
                  (serve (later 1 link.lost) s frames))
      ]

  -- The switch of `Peer.Serve` over the first frame.
  unfoldable pub serve_frames : Peer → Link → List Frame → Outcome Peer (Unit {0})
  unfolding store_package send_artifact
  serve_frames p link [] = fails p not_received
  serve_frames p link (hello none ∷ frames) = fails p undecodable
  serve_frames p link (hello (some body) ∷ frames) =
      if not (str_eq body.object "workpackage")
      then fails p (unexpected_object body.object)
      else if link.lost 0
      then fails p (transfer_failed Transfer.not_sent)
      else store_package p body (collect digest (new_receiver body.manifest) frames).1
  serve_frames p link (revision none ∷ frames) = fails p undecodable
  serve_frames p link (revision (some body) ∷ frames) =
      if not (str_eq body.object "artifact")
      then fails p (unexpected_object body.object)
      else send_artifact p body.id link frames (lookup body.id p.artifacts)
  serve_frames p link (frame ∷ frames) = fails p unexpected_frame

  -- `Peer.Serve`
  unfoldable pub serve_session : Peer → Link → Outcome Peer (Unit {0})
  unfolding serve_frames
  serve_session p link =
      if not link.dialled then fails p not_dialled else serve_frames p link link.incoming
