-- ===== src/Rpc/Client.antt =====
-- RemoteServiceBaseImpl of src/libs/rpc/src/RemoteService.cpp, with AbstractFunction::invoke_remote of
-- src/Function.cpp. The RawReply that a call waits for is a variable of its coroutine; the variables stand
-- in a list, and pointers to them are indices. `none` is a null or dangling pointer that is written through.
pub mod Queries
pub mod Replies
use text.Mathlib.Text.{◌==◌ as str_eq}
use ez_cpp.Prelude.{
  ℕ, ◌≡◌, refl, Bool, true, false, String, Option, none, some, List, [], ◌∷◌, ◌++◌, if◌then◌else◌,
  ◌>>=◌, arith, get_elem?, set,
}
use ez_cpp.Rpc.Messages.{
  Code, timeout, Error, RawReply, ok, fail, Request, Payload, no_payload, value, error, Reply,
  Protobuf,
}

pub record Query : Type 0 where
  pub reply : Option ℕ
  pub wake : Option ℕ

-- `posted` are the coroutines that posted callbacks resume; an empty callback is `none`.
pub record Client : Type 0 where
  pub queries : List (String × Query)
  pub replies : List RawReply
  pub sent : List String
  pub posted : List (Option ℕ)

abbrev pub empty_query : Query
empty_query = record { reply = none; wake = none }

unfoldable pub find_query : String → List (String × Query) → Option Query
find_query id [] = none
find_query id ((k, q) ∷ qs) = if str_eq k id then some q else find_query id qs

-- A change of `queries[id]`, which makes an empty query where there is none.
unfoldable pub edit_query : (Query → Query) → String → List (String × Query) → List (String × Query)
edit_query f id [] = (id, f empty_query) ∷ []
edit_query f id ((k, q) ∷ qs) = if str_eq k id then (k, f q) ∷ qs else (k, q) ∷ edit_query f id qs

unfoldable pub erase_query : String → List (String × Query) → List (String × Query)
erase_query id [] = []
erase_query id ((k, q) ∷ qs) =
    let rest = erase_query id qs in if str_eq k id then rest else (k, q) ∷ rest

-- The reply that a payload makes; one without a payload has an error of default value.
unfoldable pub reply_of : Payload → RawReply
reply_of (value bytes) = ok bytes
reply_of (error e) = fail e
reply_of no_payload = fail (record { code = timeout; what = "" })

unfoldable pub set_response_callback : String → ℕ → Client → Client
set_response_callback id coroutine c = record c {
  queries = edit_query (λ q. record q { wake = some coroutine }) id c.queries;
}

-- `*query.reply = ...`
unfoldable pub write_reply_to : Query → RawReply → List RawReply → Option (List RawReply)
write_reply_to q r replies = do
  slot ← q.reply
  old ← get_elem? replies slot
  some (set replies slot r)

-- A reply whose query is there.
unfoldable pub answer : Reply → Query → Client → Option Client
answer r q c = do
  replies ← write_reply_to q (reply_of r.payload) c.replies
  some (record c {
    replies = replies;
    posted = c.posted ++ q.wake ∷ [];
    queries = erase_query r.request_id c.queries;
  })

unfoldable pub receive_reply : Reply → Client → Option Client
receive_reply r c = elim (find_query r.request_id c.queries) [
  | none ↦ some c
  | some q ↦ answer r q c
]

module _ (protobuf : Protobuf) where
  -- `sent_ok` is the error of the transport, if it has one; the query stays in that case too.
  unfoldable pub invoke :
      String → String → String → List String → ℕ → Option Error → Client → Client × Option Error
  invoke id name_space fn_name arguments slot sent_ok c =
      let request : Request = record {
        id = id;
        name_space = name_space;
        function_name = fn_name;
        arguments = arguments;
      } in
      (
        record c {
          queries = edit_query (λ q. record q { reply = some slot }) id c.queries;
          sent = c.sent ++ protobuf.write_request request ∷ [];
        },
        sent_ok,
      )

  -- The start of invoke_remote in a coroutine, up to where it waits for its reply, or its error.
  unfoldable pub invoke_remote :
      String → String → String → List String → ℕ → Option Error → ℕ → Client → Client × Option Error
  invoke_remote id name_space fn_name arguments slot sent_ok coroutine c =
      let (c', result) = invoke id name_space fn_name arguments slot sent_ok c in
      elim result [ none ↦ (set_response_callback id coroutine c', none) | some e ↦ (c', some e) ]

  unfoldable pub receive_data : String → Client → Option Client
  receive_data bytes c = elim (protobuf.read_reply bytes) [
    | none ↦ some c
    | some r ↦ receive_reply r c
  ]

  unfoldable pub poll : List String → Client → Option Client
  poll [] c = some c
  poll (bytes ∷ rest) c = do c' ← receive_data bytes c; poll rest c'
