-- ===== src/Rpc/Wire.antt =====
-- A wire format for the tests, in the place of protobuf: texts whose letters each follow a full stop, up to
-- a semicolon.
use Prim.Native.String.{String}
use Prim.Native.Char.{code}
use ez_cpp.Prelude.{◌≡◌, refl, Option, none, some, List, [], ◌∷◌, if◌then◌else◌, ◌==◌, ◌>>=◌, arith}
use ez_cpp.Rpc.Messages.{
  Code, timeout, failed_to_send_request, function_not_found, internal_error, Request, Payload,
  no_payload, value, error, Reply, Protobuf,
}

put : String → String → String
put String.[] rest = String.◌∷◌ ";" rest
put (String.◌∷◌ c s) rest = String.◌∷◌ "." (String.◌∷◌ c (put s rest))

take_text : String → Option (String × String)
take_text String.[] = none
take_text (String.◌∷◌ a String.[]) = if code a == b';' then some ("", "") else none
take_text (String.◌∷◌ a (String.◌∷◌ b rest)) =
    let more = (do (s, r) ← take_text rest; some (String.◌∷◌ b s, r)) in
    if code a == b';' then some ("", String.◌∷◌ b rest) else more

take_text-put : (s rest : String) → take_text (put s rest) ≡ some (s, rest)
unfolding take_text put
take_text-put String.[] String.[] = refl
take_text-put String.[] (String.◌∷◌ b rest) = refl
take_text-put (String.◌∷◌ c s) rest = rw (take_text-put s rest) refl

-- As many texts as the first one has letters.
put_each : List String → String → String
put_each [] rest = rest
put_each (s ∷ ss) rest = put s (put_each ss rest)

tally : List String → String
tally [] = ""
tally (s ∷ ss) = String.◌∷◌ "I" (tally ss)

take_each : String → String → Option (List String)
take_each String.[] rest = some []
take_each (String.◌∷◌ i n) rest = do (s, r) ← take_text rest; ss ← take_each n r; some (s ∷ ss)

take_each-put_each : (ss : List String) → take_each (tally ss) (put_each ss "") ≡ some ss
unfolding take_each put_each tally
take_each-put_each [] = refl
take_each-put_each (s ∷ ss) =
    let first = take_text-put s (put_each ss "") in
    let later = take_each-put_each ss in ground arith

pub write_request : Request → String
write_request r =
    put r.id
      (put r.name_space (put r.function_name (put (tally r.arguments) (put_each r.arguments ""))))

pub read_request : String → Option Request
read_request bytes = do
  (id, a) ← take_text bytes
  (name_space, b) ← take_text a
  (function_name, c) ← take_text b
  (n, d) ← take_text c
  arguments ← take_each n d
  some (record {
    id = id;
    name_space = name_space;
    function_name = function_name;
    arguments = arguments;
  })

pub read-write_request : (r : Request) → read_request (write_request r) ≡ some r
unfolding read_request write_request
read-write_request r =
    let e = put_each r.arguments "" in
    let d = put (tally r.arguments) e in
    let c = put r.function_name d in
    let b = put r.name_space c in
    rw (take_text-put r.id b) (
      rw (take_text-put r.name_space c) (
        rw (take_text-put r.function_name d)
          (rw (take_text-put (tally r.arguments) e) (rw (take_each-put_each r.arguments) refl))))

write_code : Code → String
write_code timeout = "t"
write_code failed_to_send_request = "s"
write_code function_not_found = "f"
write_code internal_error = "i"

read_code : String → Code
read_code String.[] = timeout
read_code (String.◌∷◌ c s) =
    if code c == b's'
    then failed_to_send_request
    else if code c == b'f'
    then function_not_found
    else if code c == b'i'
    then internal_error
    else timeout

read-write_code : (c : Code) → read_code (write_code c) ≡ c
unfolding read_code write_code
read-write_code timeout = refl
read-write_code failed_to_send_request = refl
read-write_code function_not_found = refl
read-write_code internal_error = refl

write_payload : Payload → String
write_payload no_payload = ""
write_payload (value bytes) = String.◌∷◌ "v" (put bytes "")
write_payload (error e) = String.◌∷◌ "e" (put (write_code e.code) (put e.what ""))

read_payload : String → Option Payload
read_payload String.[] = some no_payload
read_payload (String.◌∷◌ c rest) =
    if code c == b'v' then (do (bytes, r) ← take_text rest; some (value bytes)) else (do
      (name, a) ← take_text rest
      (what, b) ← take_text a
      some (error (record { code = read_code name; what = what })))

read-write_payload : (p : Payload) → read_payload (write_payload p) ≡ some p
unfolding read_payload write_payload
read-write_payload no_payload = refl
read-write_payload (value bytes) = rw (take_text-put bytes "") refl
read-write_payload (error e) =
    rw (take_text-put (write_code e.code) (put e.what ""))
      (rw (take_text-put e.what "") (rw (read-write_code e.code) refl))

pub write_reply : Reply → String
write_reply r = put r.request_id (write_payload r.payload)

pub read_reply : String → Option Reply
read_reply bytes = do
  (id, rest) ← take_text bytes
  payload ← read_payload rest
  some (record { request_id = id; payload = payload })

pub read-write_reply : (r : Reply) → read_reply (write_reply r) ≡ some r
unfolding read_reply write_reply
read-write_reply r =
    rw (take_text-put r.request_id (write_payload r.payload))
      (rw (read-write_payload r.payload) refl)

abbrev pub wire : Protobuf
wire = record {
  write_request = write_request;
  read_request = read_request;
  write_reply = write_reply;
  read_reply = read_reply;
  read-write_request = read-write_request;
  read-write_reply = read-write_reply;
}
