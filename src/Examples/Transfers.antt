-- ===== src/Examples/Transfers.antt =====
-- sync/parallel, sync/transfer and sync/distribute: small placements and transfers.
use aa.Base.{
  ◌+◌, ◌*◌, ◌≤◌, ◌≡◌, refl, true, false, none, some, List, [], ◌∷◌, String, ok, arith, ◌==◌, length,
  decimal,
}
use aa.Base.Assoc.{lookup, insert}
use aa.Base.Sort.{sort_by}
use aa.Base.Int.{pos}
use aa.Base.Multisets.{SameItems}
use aa.Base.Counts.{count}
use aa.Sync.{Bytes, WorkPackage, Artifact, Receipt, TransferState}
use aa.Sync.Transport.{Frame, chunk, close}
use aa.Sync.Parallel.{Assignment, Coordinator, new_coordinator, assign, most_loaded, least_loaded}
use aa.Sync.Parallel.Placement.{assign-balanced, assign-same, nodes_of, placed}
use aa.Sync.Transfer.{
  Source, Receiver, new_source, new_receiver, transfer, complete, collect, chunks_from,
}
use aa.Sync.Transfer.Resume.{Attempt, transfer-complete, attempts}
use aa.Sync.Transfer.Verify.{collect-verified, Parts}
use aa.Sync.Distribute.{
  Distributor, Peer, Link, distribute, serve_session, transfer_key, fetch_artifact, publish,
}
use aa.Sync.Distribute.Delivery.{distribute-delivers, fetch-publish, good_link, delivered}
use aa.Sync.Distribute.Repeat.{distribute-again, calls, fetches}

abbrev two_nodes : List String
two_nodes = "n2" ∷ "n1" ∷ "n2" ∷ []

abbrev three_packages : List String
three_packages = "c" ∷ "a" ∷ "b" ∷ []

abbrev coordinator : Coordinator
coordinator = record { nodes = "n1" ∷ "n2" ∷ [] }

new_coordinator_run : new_coordinator two_nodes ≡ ok coordinator
unfolding new_coordinator sort_by
new_coordinator_run = refl

assign_run :
    assign coordinator three_packages
    ≡ ok (
        record { node = "n1"; packages = "a" ∷ "c" ∷ [] }
        ∷ record { node = "n2"; packages = "b" ∷ [] }
        ∷ [])
unfolding assign sort_by
assign_run = refl

assign-balanced_example :
    (ls : List Assignment) × (assign coordinator three_packages ≡ ok ls)
    × (nodes_of ls ≡ "n1" ∷ "n2" ∷ [])
    × SameItems (placed ls) three_packages
    × (most_loaded ls ≤ least_loaded ls + 1)
assign-balanced_example = assign-balanced two_nodes three_packages new_coordinator_run refl

swapped : SameItems three_packages ("a" ∷ "c" ∷ "b" ∷ [])
unfolding count
swapped x = omega arith

assign-same_example : assign coordinator three_packages ≡ assign coordinator ("a" ∷ "c" ∷ "b" ∷ [])
assign-same_example = assign-same coordinator three_packages ("a" ∷ "c" ∷ "b" ∷ []) swapped

-- A digest for the examples: the bytes in decimal, one after another.
digits : Bytes → String
digits [] = ""
digits (b ∷ bs) = decimal (b + 3 * length bs)

abbrev letters : Bytes
letters = 97 ∷ 98 ∷ 99 ∷ 100 ∷ 101 ∷ []

abbrev letters_source : Source
letters_source = record {
  manifest = record {
    id = "p";
    name = "letters";
    size = pos 5;
    chunk_size = 2;
    hash = digits letters;
    chunks = chunks_from digits 5 0 0 2 letters;
  };
  payload = letters;
}

letters_built : new_source digits "p" "letters" letters (pos 2) ≡ ok letters_source
unfolding new_source
letters_built = refl

-- The third send of the first attempt fails, and its receiver has handled one frame of two when it
-- stops; the offer of the second one is lost.
abbrev tries : List Attempt
tries =
    record { lost = λ n. n == 2; no_offer = false; handled = 1 }
    ∷ record { lost = λ n. false; no_offer = true; handled = 0 }
    ∷ []

transfer-complete_example :
    (r' : Receiver) × (transfer digits
        (λ _. false)
        false
        0
        letters_source
        (attempts digits tries letters_source (new_receiver letters_source.manifest))
      ≡ (r', none))
    × (complete digits r' ≡ ok letters)
transfer-complete_example =
    transfer-complete digits "p" "letters" letters (pos 2) letters_built tries 0

abbrev letters_frames : List Frame
letters_frames =
    chunk (
      some (record {
        chunk = record { index = pos 0; offset = 0; length = 2; hash = digits (97 ∷ 98 ∷ []) };
        payload = 97 ∷ 98 ∷ [];
      }))
    ∷ chunk (
        some (record {
          chunk = record { index = pos 1; offset = 2; length = 2; hash = digits (99 ∷ 100 ∷ []) };
          payload = 99 ∷ 100 ∷ [];
        }))
    ∷ chunk (
        some (record {
          chunk = record { index = pos 2; offset = 4; length = 1; hash = digits (101 ∷ []) };
          payload = 101 ∷ [];
        }))
    ∷ close
    ∷ []

letters_collected :
    (collect digits (new_receiver letters_source.manifest) letters_frames).1 ≡ ok letters
unfolding collect new_receiver digits chunks_from decimal
letters_collected = refl

collect-verified_example :
    Parts digits letters_source.manifest.chunks letters
    × (digits letters ≡ letters_source.manifest.hash)
collect-verified_example =
    collect-verified digits letters_source.manifest letters_frames letters_collected

abbrev parcel : WorkPackage
parcel = record { id = "w"; project_id = "proj"; name = "work"; payload = letters; hash = "" }

abbrev sender : Distributor
sender = record { local = "n1"; receipts = []; packages = []; artifacts = [] }

abbrev receiver : Peer
receiver = record { local = "n2"; packages = []; artifacts = []; artifact_data = [] }

abbrev as_is : String → String
as_is s = s

distribute-delivers_example :
    (there : List Frame) × (back : List Frame) × (r : Receipt) × ((distribute digits as_is sender
        parcel "n2" 7
        (good_link back)).sent
      ≡ there)
    × ((distribute digits as_is sender parcel "n2" 7 (good_link back)).answer ≡ ok r)
    × ((serve_session digits receiver (good_link there)).sent ≡ back)
    × ((serve_session digits receiver (good_link there)).answer ≡ ok tt)
    × (lookup "w" (serve_session digits receiver (good_link there)).state.packages
        ≡ some (delivered digits parcel))
    × (r.hash ≡ digits letters)
    × (r.bytes ≡ pos 5)
unfolding lookup
distribute-delivers_example =
    distribute-delivers digits as_is sender receiver parcel "n2" 7 refl refl

abbrev artifact : Artifact
artifact = record { id = "a"; name = "letters"; size = 0; hash = "" }

abbrev publisher : Peer
publisher = record receiver {
  artifacts = ("a", record artifact { size = 5; hash = digits letters }) ∷ [];
  artifact_data = ("a", letters) ∷ [];
}

publisher_run : publish digits receiver artifact letters ≡ ok publisher
unfolding publish digits insert
publisher_run = refl

fetch-publish_example :
    (there : List Frame) × (back : List Frame) × ((fetch_artifact digits as_is sender "a" "n2" 7
        (good_link back)).sent
      ≡ there)
    × ((r : Receipt) × ((fetch_artifact digits as_is sender "a" "n2" 7 (good_link back)).answer
          ≡ ok r)
        × (r.artifact_id ≡ "a")
        × (r.node_id ≡ "n2")
        × (r.hash ≡ digits letters)
        × (r.bytes ≡ pos (length letters)))
    × (lookup "a" (fetch_artifact digits as_is sender "a" "n2" 7 (good_link back)).state.artifacts
        ≡ some letters)
    × ((serve_session digits publisher (good_link there)).sent ≡ back)
    × ((serve_session digits publisher (good_link there)).answer ≡ ok tt)
unfolding lookup
fetch-publish_example =
    fetch-publish digits as_is sender receiver artifact letters "n2" 7 publisher_run refl refl

-- A receipt is there already, for the parcel "a:b" and the node "c".
abbrev old_receipt : Receipt
old_receipt = record {
  transfer_id = "distribute:a:b:c";
  work_package_id = "a:b";
  artifact_id = "";
  node_id = "c";
  state = TransferState.complete;
  hash = "h";
  bytes = pos 1;
  created_at = 0;
}

abbrev knowing : Distributor
knowing = record sender { receipts = ("distribute:a:b:c", old_receipt) ∷ [] }

abbrev no_link : Link
no_link = record { dialled = false; lost = λ _. true; incoming = [] }

old_answer :
    (distribute digits as_is knowing (record parcel { id = "a:b" }) "c" 7 no_link).answer
    ≡ ok old_receipt
unfolding distribute lookup
old_answer = refl

same_key : transfer_key as_is "distribute" "a" "b:c" ≡ transfer_key as_is "distribute" "a:b" "c"
unfolding transfer_key
same_key = refl

-- The parcel "a" for the node "b:c" is taken for the parcel "a:b" for the node "c".
distribute-again_example :
    distribute digits as_is
      (calls digits as_is
        (distribute digits as_is knowing (record parcel { id = "a:b" }) "c" 7 no_link).state
        (fetches "x" "n2" 8 no_link ∷ []))
      (record parcel { id = "a" })
      "b:c"
      9
      no_link
    ≡ record {
      state =
          calls digits as_is
            (distribute digits as_is knowing (record parcel { id = "a:b" }) "c" 7 no_link).state
            (fetches "x" "n2" 8 no_link ∷ []);
      sent = [];
      answer = ok old_receipt;
    }
distribute-again_example =
    distribute-again digits as_is knowing (record parcel { id = "a:b" })
      (record parcel { id = "a" }) "c" "b:c" 7 9 no_link no_link (fetches "x" "n2" 8 no_link ∷ [])
      old_answer refl same_key
