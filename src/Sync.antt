-- ===== src/Sync.antt =====
-- sync/types.go: the records and changes that replicas exchange.
pub mod Queue
pub mod Revision
pub mod Parallel
pub mod Transport
pub mod Transfer
pub mod Distribute
use aa.Base.{ℕ, String, Bool, List}
use aa.Base.Int.{ℤ}

-- A hash (crypto/sha256 in hexadecimal) is a text; sizes are carried along.
pub record RevisionRecord : Type 0 where
  pub id : String
  pub path : String
  pub revision : ℕ
  pub hash : String
  pub size : ℕ
  pub deleted : Bool

pub record Change : Type 0 where
  pub revision : RevisionRecord
  pub node : String

-- `OpKind`
pub data OpKind : Type 0 where
  put delete : OpKind

pub record Op : Type 0 where
  pub kind : OpKind
  pub target : RevisionRecord

-- A byte is a number.
abbrev pub Bytes : Type 0
Bytes = List ℕ

-- `int` of a frame that was decoded may be negative; lengths and offsets that `Build` writes are not.
pub record Chunk : Type 0 where
  pub index : ℤ
  pub offset : ℕ
  pub length : ℕ
  pub hash : String

pub record Manifest : Type 0 where
  pub id : String
  pub name : String
  pub size : ℤ
  pub chunk_size : ℕ
  pub hash : String
  pub chunks : List Chunk

pub record WorkPackage : Type 0 where
  pub id : String
  pub project_id : String
  pub name : String
  pub payload : Bytes
  pub hash : String

pub record Artifact : Type 0 where
  pub id : String
  pub name : String
  pub size : ℕ
  pub hash : String

-- `TransferState`
pub data TransferState : Type 0 where
  pending active complete failed : TransferState

pub record Receipt : Type 0 where
  pub transfer_id : String
  pub work_package_id : String
  pub artifact_id : String
  pub node_id : String
  pub state : TransferState
  pub hash : String
  pub bytes : ℤ
  pub created_at : ℕ
