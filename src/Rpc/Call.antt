-- ===== src/Rpc/Call.antt =====
-- A call from a client through a service and back.
use ez_cpp.Prelude.{ℕ, ◌≡◌, String, Option, none, some, List, [], ◌∷◌, ◌++◌, ◌>>=◌}
use ez_cpp.Rpc.Messages.{Payload, value, error, Request, Reply, Protobuf}
use ez_cpp.Rpc.Function.{
  Function, Implemented, returned, threw_error, threw_other, Called, called, call_failed,
  serialize_args,
}
use ez_cpp.Rpc.Service.{Schema, Message, ServerTask, run_task}
use ez_cpp.Rpc.Function as Function
use ez_cpp.Rpc.Service as Service
use ez_cpp.Rpc.Client as Client
use ez_cpp.Rpc.Client.{Query, invoke_remote}

module _ (protobuf : Protobuf) where
  -- The client's side: the query of the call, and what its reply does.
  module _ (c : Client.Client) (id : String) (slot coroutine : ℕ) (arguments : List String)
      (name_space fn_name : String) where
    abbrev waiting : Client.Client
    waiting = (invoke_remote protobuf id name_space fn_name arguments slot none coroutine c).0

module _ {V : Type 0} (protobuf : Protobuf) where
  -- The tasks of a service, one after another, and what they send.
  abbrev pub run_all : List (ServerTask V) → Option (List (String × String))
  run_all [] = some []
  run_all (t ∷ ts) = do ran ← run_task protobuf t; sent ← run_all ts; some (ran.sent ++ sent)

  -- The request that invoke_remote sends for a call.
  abbrev pub request_of : Function V → String → List V → Request
  request_of f id vs = record {
    id = id;
    name_space = f.name_space;
    function_name = f.name;
    arguments = serialize_args f.argument_types vs;
  }

  -- What a call gives its coroutine, from what the implementation ends with.
  abbrev pub Gives : Function V → Implemented V → Called V → Type 0
  Gives f (returned v) o =
      (f.return_type.deserialize (f.return_type.serialize v) ≡ some v) × (o ≡ called v)
  Gives f (threw_error e) o = o ≡ call_failed e
  Gives f threw_other o = ⊥

  abbrev payload_of : Function V → Implemented V → Payload
  payload_of f (returned v) = value (f.return_type.serialize v)
  payload_of f (threw_error e) = error e
  payload_of f threw_other = Payload.no_payload

  -- The service answers a request of a function that it has, with one reply.
  module _ (schemas : List (Schema V)) (f : Function V) (vs : List V) (id peer : String) where
    abbrev message : Message
    message = record { peer_id = peer; payload = protobuf.write_request (request_of f id vs) }

    abbrev the_reply : Reply
    the_reply = record { request_id = id; payload = payload_of f (f.implementation vs) }

    abbrev reply_with : Payload → String
    reply_with p = protobuf.write_reply (record { request_id = id; payload = p })
