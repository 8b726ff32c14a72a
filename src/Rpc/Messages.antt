-- ===== src/Rpc/Messages.antt =====
-- What src/libs/rpc sends: headers/ez/rpc/Types.hpp and messages.proto. The classes of the messages are
-- generated by protobuf: a record of the calls that are made of them is a parameter, with the law that a
-- message that is written is read back. A ByteArray is a string.
use ez_cpp.Prelude.{◌≡◌, String, Option, some, List}

pub data Code : Type 0 where
  timeout : Code
  failed_to_send_request : Code
  function_not_found : Code
  internal_error : Code

pub record Error : Type 0 where
  pub code : Code
  pub what : String

abbrev pub make_internal_error : String → Error
make_internal_error message = record { code = internal_error; what = message }

-- `Result<ByteArray, Error>`
pub data RawReply : Type 0 where
  ok : String → RawReply
  fail : Error → RawReply

pub record Request : Type 0 where
  pub id : String
  pub name_space : String
  pub function_name : String
  pub arguments : List String

-- The oneof of a reply.
pub data Payload : Type 0 where
  no_payload : Payload
  value : String → Payload
  error : Error → Payload

pub record Reply : Type 0 where
  pub request_id : String
  pub payload : Payload

pub record Protobuf : Type 0 where
  pub write_request : Request → String
  pub read_request : String → Option Request
  pub write_reply : Reply → String
  pub read_reply : String → Option Reply
  pub read-write_request : (r : Request) → read_request (write_request r) ≡ some r
  pub read-write_reply : (r : Reply) → read_reply (write_reply r) ≡ some r
