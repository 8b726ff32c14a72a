-- ===== src/Rpc/Function.antt =====
-- Function of src/libs/rpc/headers/ez/rpc/Function.hpp, with FunctionUtils.hpp. The values of all types that
-- have a Serializer are one type V; a type is its serializer, which rests on protobuf. `none` is an
-- argument that is read beyond the end of the arguments.
use ez_cpp.Prelude.{
  ℕ, suc, ◌≡◌, refl, arith, String, Option, none, some, List, [], ◌∷◌, ◌++◌, ◌<◌, length, get_elem?,
  ◌>>=◌, subst, length-snoc, get_elem?-middle, get_elem?_beyond,
}
use mathlib.Core.List.{append_assoc, append-nil}
use ez_cpp.Rpc.Messages.{Error, make_internal_error, RawReply, ok, fail}

-- `refusal` is the message of its ParsingError.
pub record Serializer (V : Type 0) : Type 0 where
  pub serialize : V → String
  pub deserialize : String → Option V
  pub refusal : String

-- What the body of an implementation, a std::function that returns a task, ends with.
pub data Implemented (V : Type 0) : Type 0 where
  returned : V → Implemented V
  threw_error : Error → Implemented V
  threw_other : Implemented V

pub record Function (V : Type 0) : Type 0 where
  pub name : String
  pub name_space : String
  pub argument_types : List (Serializer V)
  pub return_type : Serializer V
  pub implementation : List V → Implemented V

-- A Result of a parse, with the message of the ParsingError.
pub data Parsed (A : Type 0) : Type 0 where
  parsed : A → Parsed A
  parsing_error : String → Parsed A

-- What an AsyncResult<RawReply> ends with; `escaped` is an exception that is no rpc::Error.
pub data Invoked : Type 0 where
  replied : RawReply → Invoked
  failed : Error → Invoked
  escaped : Invoked

module _ {V : Type 0} where
  unfoldable pub deserialize_with : Serializer V → String → Parsed V
  deserialize_with t bytes = elim (t.deserialize bytes) [
    | some v ↦ parsed v
    | none ↦ parsing_error t.refusal
  ]

  abbrev pub prepend : V → Parsed (List V) → Parsed (List V)
  prepend v (parsed vs) = parsed (v ∷ vs)
  prepend v (parsing_error e) = parsing_error e

  deserialize_with-parsed :
      (t : Serializer V) (bytes : String) (v : V)
      → t.deserialize bytes ≡ some v
      → deserialize_with t bytes ≡ parsed v
  unfolding deserialize_with
  deserialize_with-parsed t bytes v h = rw (h, deserialize_with) refl

  -- The arguments from the given index on, up to the first that does not parse.
  unfoldable pub extract_args_from :
      ℕ → List (Serializer V) → List String → Option (Parsed (List V))
  extract_args_from index [] args = some (parsed [])
  extract_args_from index (t ∷ ts) args = do
    bytes ← get_elem? args index
    elim (deserialize_with t bytes) [
      | parsed v ↦ (do rest ← extract_args_from (suc index) ts args; some (prepend v rest))
      | parsing_error e ↦ some (parsing_error e)
    ]

  -- The argument at the index is there and can be read.
  extract_args_from-step :
      (index : ℕ) (t : Serializer V) (ts : List (Serializer V)) (args : List String)
      (bytes : String) (v : V) (rest : Option (Parsed (List V)))
      → get_elem? args index ≡ some bytes
      → t.deserialize bytes ≡ some v
      → extract_args_from (suc index) ts args ≡ rest
      → extract_args_from index (t ∷ ts) args ≡ (rest >>= λ vs. some (prepend v vs))
  unfolding extract_args_from
  extract_args_from-step index t ts args bytes v rest here reads later =
      let e = deserialize_with-parsed t bytes v reads in ground arith

  unfoldable pub extract_args : List (Serializer V) → List String → Option (Parsed (List V))
  extract_args ts args = extract_args_from 0 ts args

  unfoldable pub serialize_args : List (Serializer V) → List V → List String
  serialize_args [] vs = []
  serialize_args ts [] = []
  serialize_args (t ∷ ts) (v ∷ vs) = t.serialize v ∷ serialize_args ts vs

  unfoldable pub invoke_implementation : Function V → List V → Invoked
  invoke_implementation f vs = elim (f.implementation vs) [
    | returned v ↦ replied (ok (f.return_type.serialize v))
    | threw_error e ↦ failed e
    | threw_other ↦ escaped
  ]

  -- The server's side.
  unfoldable pub invoke : Function V → List String → Option Invoked
  invoke f args = do
    arg_tuple ← extract_args f.argument_types args
    some (elim arg_tuple [
      | parsed vs ↦ invoke_implementation f vs
      | parsing_error e ↦ failed (make_internal_error e)
    ])

-- What a call ends with at the client; `unreadable` is the exception of a value that does not parse.
pub data Called (V : Type 0) : Type 0 where
  called : V → Called V
  call_failed : Error → Called V
  unreadable : Called V

module _ {V : Type 0} where
  unfoldable pub get_return_value : Serializer V → RawReply → Called V
  get_return_value t (ok bytes) = elim (t.deserialize bytes) [
    | some v ↦ called v
    | none ↦ unreadable
  ]
  get_return_value t (fail e) = call_failed e

  -- A call after invoke_remote, with the error that it gave or the reply that it waited for.
  unfoldable pub complete_call : Serializer V → Option Error → RawReply → Called V
  complete_call t (some e) reply = call_failed e
  complete_call t none reply = get_return_value t reply

  -- The implementation of a function that is bound to another: a call of that one.
  unfoldable pub bind_to : (List V → Called V) → Function V → Function V
  bind_to call f = record f {
    implementation = λ vs. elim (call vs) [
      | called v ↦ returned v
      | call_failed e ↦ threw_error e
      | unreadable ↦ threw_other
    ];
  }

  -- What a RemoteService does to the fields of a schema with or without a name space.
  unfoldable pub setup : Option String → Function V → Function V
  setup none f = f
  setup (some s) f = record f { name_space = s }

  -- The values are of the types: each is read back from what is written of it.
  abbrev pub Fit : List (Serializer V) → List V → Type 0
  Fit [] [] = Unit
  Fit (t ∷ ts) (v ∷ vs) = (t.deserialize (t.serialize v) ≡ some v) × Fit ts vs
  Fit _ _ = ⊥

  extract_args_from-serialized :
      (pre : List String) (ts : List (Serializer V)) (vs : List V) (more : List String)
      → Fit ts vs
      → extract_args_from (length pre) ts (pre ++ (serialize_args ts vs ++ more)) ≡ some (parsed vs)
  unfolding extract_args_from serialize_args
  extract_args_from-serialized pre [] [] more h = refl
  extract_args_from-serialized pre (t ∷ ts) [] more h = absurd h
  extract_args_from-serialized pre [] (v ∷ vs) more h = absurd h
  extract_args_from-serialized pre (t ∷ ts) (v ∷ vs) more (h, hs) =
      let bytes = t.serialize v in
      let rest = serialize_args ts vs ++ more in
      let later : extract_args_from (suc (length pre)) ts (pre ++ bytes ∷ rest) ≡ some (parsed vs) =
        subst (λ args. extract_args_from (suc (length pre)) ts args ≡ some (parsed vs))
          (append_assoc pre (bytes ∷ []) rest)
          (subst
            (λ (i : ℕ). extract_args_from i ts ((pre ++ bytes ∷ []) ++ rest) ≡ some (parsed vs))
            (length-snoc pre bytes)
            (extract_args_from-serialized (pre ++ bytes ∷ []) ts vs more hs)) in
      extract_args_from-step (length pre) t ts (pre ++ bytes ∷ rest) bytes v (some (parsed vs))
        (get_elem?-middle pre rest bytes) h later

  -- The server calls the implementation on what the client has written, and on no argument beyond.
  pub invoke-serialized :
      (f : Function V) (vs : List V) (more : List String)
      → Fit f.argument_types vs
      → invoke f (serialize_args f.argument_types vs ++ more) ≡ some (invoke_implementation f vs)
  unfolding invoke extract_args
  invoke-serialized f vs more h =
      rw (extract_args_from-serialized [] f.argument_types vs more h) refl

  -- Every argument that there is can be read.
  abbrev pub Readable : List (Serializer V) → List String → Type 0
  Readable (t ∷ ts) (b ∷ bs) = ((v : V) × (t.deserialize b ≡ some v)) × Readable ts bs
  Readable _ _ = Unit

  extract_args_from-short :
      (pre : List String) (ts : List (Serializer V)) (args : List String)
      → Readable ts args
      → length args < length ts
      → extract_args_from (length pre) ts (pre ++ args) ≡ none
  unfolding extract_args_from
  extract_args_from-short pre [] args h short = absurd (omega arith)
  extract_args_from-short pre (t ∷ ts) [] h short =
      rw (append-nil pre, get_elem?_beyond pre (length pre) (omega arith)) refl
  extract_args_from-short pre (t ∷ ts) (b ∷ bs) ((v, reads), hs) short =
      let later : extract_args_from (suc (length pre)) ts (pre ++ b ∷ bs) ≡ none =
        subst (λ args. extract_args_from (suc (length pre)) ts args ≡ none)
          (append_assoc pre (b ∷ []) bs)
          (subst (λ (i : ℕ). extract_args_from i ts ((pre ++ b ∷ []) ++ bs) ≡ none)
            (length-snoc pre b) (extract_args_from-short (pre ++ b ∷ []) ts bs hs (omega arith))) in
      extract_args_from-step (length pre) t ts (pre ++ b ∷ bs) b v none (get_elem?-middle pre bs b)
        reads later

  -- A request that has fewer arguments than the function, all of which can be read, makes the server read
  -- beyond the end of the arguments.
  pub invoke-short :
      (f : Function V) (args : List String)
      → Readable f.argument_types args
      → length args < length f.argument_types
      → invoke f args ≡ none
  unfolding invoke extract_args
  invoke-short f args h short = rw (extract_args_from-short [] f.argument_types args h short) refl
