-- ===== src/Rpc/Service.antt =====
-- AbstractService and Service of src/libs/rpc: src/Service.cpp and headers/ez/rpc/Service.hpp. The transport
-- gives the messages of a poll and takes what is sent; a task of the pool is run by what it does. `none` is
-- the call of a null function, or a fault of Function.invoke.
use text.Mathlib.Text.{◌==◌ as str_eq}
use ez_cpp.Prelude.{
  Bool, true, false, ◌&&◌, String, Option, none, some, List, [], ◌∷◌, ◌++◌, if◌then◌else◌, ◌>>=◌,
}
use Prim.Native.String.{◌++◌ as ◌+++◌}
use ez_cpp.Rpc.Messages.{
  Error, function_not_found, ok, fail, Request, Reply, value, error, Protobuf,
}
use ez_cpp.Rpc.Function.{Function, replied, failed, escaped, invoke}

pub record Message : Type 0 where
  pub peer_id : String
  pub payload : String

-- A schema is its fields, with the name space that it may have.
pub record Schema (V : Type 0) : Type 0 where
  pub name_space : Option String
  pub functions : List (Function V)

pub data ServerTask (V : Type 0) : Type 0 where
  send_reply : String → Reply → ServerTask V
  execute : Option (Function V) → List String → String → String → ServerTask V

-- What a task has sent, to which peer, and whether it ended with an exception.
pub record Ran : Type 0 where
  pub sent : List (String × String)
  pub threw : Bool

unfoldable pub in_name_space : Option String → String → Bool
in_name_space (some s) name_space = str_eq name_space s
in_name_space none name_space = str_eq name_space ""

module _ {V : Type 0} where
  -- The last field with the name and the name space.
  unfoldable pub find_field :
      Option String
      → String
      → String
      → List (Function V)
      → Option (Function V)
      → Option (Function V)
  find_field s name_space name [] result = result
  find_field s name_space name (f ∷ fs) result =
      find_field s name_space name fs
        (if str_eq f.name name && in_name_space s name_space then some f else result)

  unfoldable pub find_from :
      List (Schema V) → String → String → Option (Function V) → Option (Function V)
  find_from [] name_space name result = result
  find_from (s ∷ ss) name_space name result =
      find_from ss name_space name (find_field s.name_space name_space name s.functions result)

  unfoldable pub find_function : List (Schema V) → String → String → Option (Function V)
  find_function schemas name_space name = find_from schemas name_space name none

unfoldable pub not_found_reply : Request → Reply
not_found_reply request = record {
  request_id = request.id;
  payload = error (record {
    code = function_not_found;
    what = "Function " +++ request.name_space +++ "." +++ request.function_name +++ " not found";
  });
}

unfoldable pub send : Protobuf → String → Reply → String × String
send protobuf peer reply = (peer, protobuf.write_reply reply)

unfoldable pub send_error : Protobuf → Error → String → String → String × String
send_error protobuf e peer id =
    (peer, protobuf.write_reply (record { request_id = id; payload = error e }))

module _ {V : Type 0} (protobuf : Protobuf) where
  -- The tasks of one message.
  unfoldable pub tasks_of : List (Schema V) → Message → List (ServerTask V)
  tasks_of schemas message = elim (protobuf.read_request message.payload) [
    | none ↦ []
    | some request ↦
        let f = find_function schemas request.name_space request.function_name in
        let runs = execute f request.arguments message.peer_id request.id in
        elim f [
          | none ↦ send_reply message.peer_id (not_found_reply request) ∷ runs ∷ []
          | some g ↦ runs ∷ []
        ]
  ]

  unfoldable pub poll : List (Schema V) → List Message → List (ServerTask V)
  poll schemas [] = []
  poll schemas (m ∷ ms) = tasks_of schemas m ++ poll schemas ms

  -- After an error has been sent, its value is asked for, which throws.
  unfoldable pub exec : Option (Function V) → List String → String → String → Option Ran
  exec none args peer id = none
  exec (some f) args peer id = do
    result ← invoke f args
    some (elim result [
      | escaped ↦ record { sent = []; threw = true }
      | failed e ↦ record { sent = send_error protobuf e peer id ∷ []; threw = true }
      | replied r ↦ elim r [
        | fail e ↦ record { sent = send_error protobuf e peer id ∷ []; threw = true }
        | ok bytes ↦ record {
          sent = send protobuf peer (record { request_id = id; payload = value bytes }) ∷ [];
          threw = false;
        }
      ]
    ])

  unfoldable pub run_task : ServerTask V → Option Ran
  run_task (send_reply peer reply) =
      some (record { sent = send protobuf peer reply ∷ []; threw = false })
  run_task (execute f args peer id) = exec f args peer id
