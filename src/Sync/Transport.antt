-- ===== src/Sync/Transport.antt =====
-- sync/transport/transport.go: the frames that two nodes exchange. NewMessage encodes a body as JSON
-- and DecodeBody reads it back: a frame holds the body that its reader decodes, `none` where it
-- cannot.
use aa.Base.{String, Option, List}
use aa.Base.Int.{ℤ}
use aa.Sync.{Bytes, Chunk, Manifest}

-- `chunkBody`
pub record ChunkBody : Type 0 where
  pub chunk : Chunk
  pub payload : Bytes

-- `helloBody`
pub record HelloBody : Type 0 where
  pub object : String
  pub manifest : Manifest
  pub id : String
  pub name : String

-- `requestBody`
pub record RequestBody : Type 0 where
  pub object : String
  pub id : String

-- A message by its `Kind`; the body of `ack` is the offered indexes.
pub data Frame : Type 0 where
  hello : Option HelloBody → Frame
  chunk : Option ChunkBody → Frame
  ack : Option (List ℤ) → Frame
  revision : Option RequestBody → Frame
  receipt : Frame
  close : Frame
