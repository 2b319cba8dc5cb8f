-- ===== src/Sync/Transfer.antt =====
-- sync/transfer/transfer.go: resumable transfer in chunks that are checked by their hashes.
pub mod Chunks
pub mod Held
pub mod Push
pub mod Resume
pub mod Verify
use aa.Base.{
  ℕ, zero, suc, ◌+◌, ◌-◌, String, Bool, true, false, not, Option, none, some, List, [], ◌∷◌, ◌++◌,
  length, get_elem?, take, drop, any, is_empty, str_eq, ltb, ◌==◌, if◌then◌else◌, Result, ok, err,
  min,
}
use aa.Base.Int.{ℤ, pos, negsuc, same_int}
use aa.Sync.{Bytes, Chunk, Manifest}
use aa.Sync.Transport.{Frame, ChunkBody, hello, chunk, ack, revision, receipt, close}

pub data Error : Type 0 where
  id_required : Error
  chunk_not_found : ℤ → Error
  out_of_range : ℤ → Error
  bad_index : ℤ → Error
  bad_length : ℤ → Error
  bad_hash : ℤ → Error
  chunks_missing : ℕ → Error
  payload_mismatch : Error
  -- the panic of `make`
  size_panic : ℤ → Error
  undecodable : Error
  unexpected_frame : Error
  -- what `Send` and `Receive` of the connection return
  not_sent : Error
  not_received : Error

pub record Source : Type 0 where
  pub manifest : Manifest
  pub payload : Bytes

-- `parts` and `have` are maps; a missing key reads as nil and false.
pub record Receiver : Type 0 where
  pub manifest : Manifest
  pub parts : ℕ → Bytes
  pub have : ℕ → Bool

-- `data[offset:end]` of the given length
abbrev pub slice : Bytes → ℕ → ℕ → Bytes
slice payload offset n = take n (drop offset payload)

-- `m[index] = v`
abbrev pub set_at {ℓ} : {V : Type ℓ} → (ℕ → V) → ℕ → V → ℕ → V
set_at f i v = λ j. if i == j then v else f j

-- `if chunkSize <= 0 { chunkSize = DefaultChunkSize }`
abbrev pub effective_size : ℤ → ℕ
effective_size (negsuc n) = 65536
effective_size (pos zero) = 65536
effective_size (pos (suc n)) = suc n

-- The chunk at an index that is in range.
abbrev pub chunk_at : Manifest → ℤ → Option Chunk
chunk_at m (negsuc i) = none
chunk_at m (pos i) = get_elem? m.chunks i

abbrev pub place_of : ℤ → ℕ
place_of (negsuc i) = 0
place_of (pos i) = i

-- `ChunkData`
unfoldable pub chunk_data : Source → ℤ → Result Error Bytes
chunk_data s index = elim (chunk_at s.manifest index) [
  | none ↦ err (chunk_not_found index)
  | some ch ↦
      (if ltb (length s.payload) (ch.offset + ch.length)
        then err (out_of_range index)
        else ok (slice s.payload ch.offset ch.length))
]

unfoldable pub new_receiver : Manifest → Receiver
new_receiver m = record { manifest = m; parts = λ i. []; have = λ i. false }

-- The loops of `Have` and `Missing` from the index `i`, over the chunks left.
unfoldable pub indexes_from : (ℕ → Bool) → ℕ → List Chunk → List ℤ
indexes_from test i [] = []
indexes_from test i (c ∷ cs) =
    let rest = indexes_from test (suc i) cs in if test i then pos i ∷ rest else rest

unfoldable pub have_indexes : Receiver → List ℤ
unfolding indexes_from
have_indexes r = indexes_from r.have 0 r.manifest.chunks

unfoldable pub missing : Receiver → List ℤ
unfolding indexes_from
missing r = indexes_from (λ i. not (r.have i)) 0 r.manifest.chunks

-- `make([]byte, 0, size)` panics on a negative size; one that is too large for the memory ends the
-- process, which is left out.
abbrev pub is_capacity : ℤ → Bool
is_capacity (pos n) = true
is_capacity (negsuc n) = false

-- The loop of `Complete` that appends the parts.
unfoldable pub assemble : (ℕ → Bytes) → ℕ → List Chunk → Bytes
assemble parts i [] = []
assemble parts i (c ∷ cs) = parts i ++ assemble parts (suc i) cs

-- `WaitOffer` on the frames that arrive; the loop ends with its first frame.
unfoldable pub wait_offer : List Frame → Result Error (List ℤ)
wait_offer [] = err not_received
wait_offer (ack (some offered) ∷ frames) = ok offered
wait_offer (ack none ∷ frames) = err undecodable
wait_offer (frame ∷ frames) = err unexpected_frame

abbrev pub sent : Frame → List Frame × Option Error → List Frame × Option Error
sent frame (frames, e) = (frame ∷ frames, e)

-- The loop of `push` and the close frame after it; `lost n` says whether the `n`-th `Send` fails.
-- The answer is what was sent and the error that ended it.
unfoldable pub push_chunks :
    (ℕ → Bool) → ℕ → Source → List ℤ → List Chunk → List Frame × Option Error
unfolding chunk_data
push_chunks lost n s offered [] = if lost n then ([], some not_sent) else (close ∷ [], none)
push_chunks lost n s offered (c ∷ cs) =
    let skipped = push_chunks lost n s offered cs in
    let later = push_chunks lost (suc n) s offered cs in
    if any (λ i. same_int i c.index) offered then skipped else elim (chunk_data s c.index) [
      | err e ↦ ([], some e)
      | ok d ↦
          (if lost n
            then ([], some not_sent)
            else sent (chunk (some (record { chunk = c; payload = d }))) later)
    ]

unfoldable pub push : (ℕ → Bool) → Source → List ℤ → List Frame × Option Error
unfolding push_chunks
push lost s offered = push_chunks lost 0 s offered s.manifest.chunks

-- `Serve`
unfoldable pub serve : (ℕ → Bool) → Source → List Frame → List Frame × Option Error
unfolding push wait_offer
serve lost s frames = elim (wait_offer frames) [
  | err e ↦ ([], some e)
  | ok offered ↦ push lost s offered
]

-- The functions that hash: `aasync.Hash`, SHA-256 in hexadecimal.
module _ (digest : Bytes → String) where
  unfoldable pub chunk_of : ℕ → ℕ → Bytes → Chunk
  chunk_of i offset part = record {
    index = pos i;
    offset = offset;
    length = length part;
    hash = digest part;
  }

  -- The loop of `Build`; every round moves the offset on, so that the number of bytes is fuel enough.
  unfoldable pub chunks_from : ℕ → ℕ → ℕ → ℕ → Bytes → List Chunk
  unfolding chunk_of
  chunks_from zero i offset size payload = []
  chunks_from (suc fuel) i offset size payload =
      let end = min (offset + size) (length payload) in
      let rest = chunks_from fuel (suc i) (offset + size) size payload in
      if ltb offset (length payload)
      then chunk_of i offset (slice payload offset (end - offset)) ∷ rest
      else []

  unfoldable pub build : String → String → Bytes → ℤ → Result Error Manifest
  unfolding chunks_from
  build id name payload chunk_size =
      if str_eq id ""
      then err id_required
      else ok (record {
        id = id;
        name = name;
        size = pos (length payload);
        chunk_size = effective_size chunk_size;
        hash = digest payload;
        chunks = chunks_from (length payload) 0 0 (effective_size chunk_size) payload;
      })

  unfoldable pub new_source : String → String → Bytes → ℤ → Result Error Source
  unfolding build
  new_source id name payload chunk_size = elim (build id name payload chunk_size) [
    | err e ↦ err e
    | ok m ↦ ok (record { manifest = m; payload = payload })
  ]

  -- `Accept`
  unfoldable pub accept : Receiver → Chunk → Bytes → Result Error Receiver
  accept r ch payload = elim (chunk_at r.manifest ch.index) [
    | none ↦ err (bad_index ch.index)
    | some want ↦
        (if not (length payload == want.length)
          then err (bad_length ch.index)
          else if not (str_eq (digest payload) want.hash)
          then err (bad_hash ch.index)
          else ok (record r {
            parts = set_at r.parts (place_of ch.index) payload;
            have = set_at r.have (place_of ch.index) true;
          }))
  ]

  -- `Complete`
  unfoldable pub complete : Receiver → Result Error Bytes
  unfolding missing assemble
  complete r =
      let buf = assemble r.parts 0 r.manifest.chunks in
      if not (is_empty (missing r))
      then err (chunks_missing (length (missing r)))
      else if not (is_capacity r.manifest.size)
      then err (size_panic r.manifest.size)
      else if not (str_eq (digest buf) r.manifest.hash)
      then err payload_mismatch
      else ok buf

  -- The loop of `Run` over the frames that arrive; none left means that `Receive` fails.
  unfoldable pub collect : Receiver → List Frame → Receiver × Result Error Bytes
  unfolding accept complete
  collect r [] = (r, err not_received)
  collect r (chunk none ∷ frames) = (r, err undecodable)
  collect r (chunk (some body) ∷ frames) = elim (accept r body.chunk body.payload) [
    | err e ↦ (r, err e)
    | ok r' ↦ collect r' frames
  ]
  collect r (close ∷ frames) = (r, complete r)
  collect r (frame ∷ frames) = (r, err unexpected_frame)

  abbrev pub answer : Option Error → Result Error Bytes → Option Error
  answer (some e) collected = some e
  answer none (err e) = some e
  answer none (ok payload) = none

  -- `Transfer` once `Serve` has ended: on its error it returns at once, and the receiver has by then, or
  -- by the time it stops, handled so many of the frames that were sent; else it waits for the receiver.
  abbrev pub served : ℕ → Receiver → List Frame × Option Error → Receiver × Option Error
  served handled r (frames, some e) = ((collect r (take handled frames)).0, some e)
  served handled r (frames, none) =
      let (r', collected) = collect r frames in (r', answer none collected)

  -- `Transfer` on connections of its own: the receiver offers what it has (`no_offer` says that this
  -- `Send` fails, so that no offer arrives), the sender serves, the receiver collects. The second part
  -- is the error that `Transfer` returns.
  unfoldable pub transfer : (ℕ → Bool) → Bool → ℕ → Source → Receiver → Receiver × Option Error
  unfolding serve have_indexes collect
  transfer lost no_offer handled s r =
      if no_offer
      then (r, (serve lost s []).1)
      else served handled r (serve lost s (ack (some (have_indexes r)) ∷ []))
