-- ===== src/Proto/Message.antt =====
-- crates/rbs-proto/src/lib.rs: the messages between a client and a server.
use rust_build_server.Prelude.{ℕ, Bytes}
use rust_build_server.Proto.Job.{JobId, JobRequest, JobEvent}
use rust_build_server.Proto.Status.{ServerIdentity, ServerStatus}

pub data ClientMessage : Type 0 where
  hello : (version : ℕ) → ClientMessage
  status : ClientMessage
  submit : JobRequest → ClientMessage
  cancel : (id : JobId) → ClientMessage

pub data ProtoErrorCode : Type 0 where
  version_mismatch unexpected_message internal : ProtoErrorCode

pub record ProtoError : Type 0 where
  pub code : ProtoErrorCode
  pub message : Bytes

pub data ServerMessage : Type 0 where
  hello : (version : ℕ) (server : ServerIdentity) → ServerMessage
  status : ServerStatus → ServerMessage
  event : JobEvent → ServerMessage
  error : ProtoError → ServerMessage
