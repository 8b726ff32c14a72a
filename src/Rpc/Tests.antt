-- ===== src/Rpc/Tests.antt =====
-- Calls of a function that adds two numbers, over the wire format of the tests.
use Prim.Native.String.{String}
use ez_cpp.Prelude.{
  ℕ, zero, suc, ◌+◌, ◌≡◌, refl, arith, none, some, List, [], ◌∷◌, sym, ap, subst, ◌∙◌, Bool-cases,
  inl, inr, eq_of_some, if◌then◌else◌,
}
use text.Mathlib.Text.{◌==◌ as str_eq}
use text.Mathlib.TextEquality.{eq_iff}
use ez_cpp.Rpc.Messages.{RawReply, make_internal_error, value, Reply}
use ez_cpp.Rpc.Function.{
  Serializer, Implemented, returned, threw_error, Function, invoke, invoke-short,
}
use ez_cpp.Rpc.Service.{Schema, poll}
use ez_cpp.Rpc.Client as Client
use ez_cpp.Rpc.Client.{Query, find_query, reply_of}
use ez_cpp.Rpc.Client.Replies.{IsValid, first_reply, Answered, poll-answers}
use ez_cpp.Rpc.Wire.{wire}

-- A number is as many letters.
abbrev letters : ℕ → String
letters zero = ""
letters (suc n) = String.◌∷◌ "I" (letters n)

abbrev count_letters : String → ℕ
count_letters String.[] = 0
count_letters (String.◌∷◌ c s) = suc (count_letters s)

abbrev number : Serializer ℕ
number = record {
  serialize = letters;
  deserialize = λ s. some (count_letters s);
  refusal = "Failed to parse value";
}

abbrev sum_of : List ℕ → Implemented ℕ
sum_of (a ∷ b ∷ []) = returned (a + b)
sum_of _ = threw_error (make_internal_error "two numbers are added")

abbrev add : Function ℕ
add = record {
  name = "add";
  name_space = "math";
  argument_types = number ∷ number ∷ [];
  return_type = number;
  implementation = sum_of;
}

abbrev schemas : List (Schema ℕ)
schemas = record { name_space = some "math"; functions = add ∷ [] } ∷ []

-- A client with one variable and no query.
abbrev idle : Client.Client
idle = record { queries = []; replies = RawReply.ok "" ∷ []; sent = []; posted = [] }

invoke-short_example : invoke add ("II" ∷ []) ≡ none
invoke-short_example = invoke-short add ("II" ∷ []) ((2, refl), tt) (omega arith)

-- A client that waits for one reply.
abbrev asking : Client.Client
asking = record idle { queries = ("r1", record { reply = some 0; wake = some 9 }) ∷ [] }

asking_found : find_query "r1" asking.queries ≡ some (record { reply = some 0; wake = some 9 })
unfolding find_query
asking_found = refl

abbrev the_query : Query
the_query = record { reply = some 0; wake = some 9 }

asking_only :
    (id : String) (q : Query)
    → find_query id asking.queries ≡ some q
    → ("r1" ≡ id) × (the_query ≡ q)
unfolding find_query
asking_only id q found = elim (Bool-cases (str_eq "r1" id)) [
  | inl same ↦ (
    (eq_iff "r1" id).0 same,
    eq_of_some (subst (λ b. (if b then some the_query else none) ≡ some q) same found),
  )
  | inr other ↦
      absurd (none-ne-some (subst (λ b. (if b then some the_query else none) ≡ some q) other found))
]
  where
    none-ne-some : {p : Query} → none ≡ some p → ⊥
    none-ne-some h = cc

asking-IsValid : IsValid asking
asking-IsValid = record {
  waits = λ id q found. (0, ap (λ x. x.reply) (sym (asking_only id q found).1), omega arith);
  apart = λ i j q p slot fi fj _ _. sym (asking_only i q fi).0 ∙ (asking_only j p fj).0;
}

-- The reply that it waits for.
abbrev an_answer : Reply
an_answer = record { request_id = "r1"; payload = value "IIIII" }

poll-answers_example :
    (c' : Client.Client) × (Client.poll wire (wire.write_reply an_answer ∷ []) asking ≡ some c')
    × IsValid c'
    × ((id : String) (q : Query) (slot : ℕ)
        → find_query id asking.queries ≡ some q
        → q.reply ≡ some slot
        → Answered wire asking c' id q slot (first_reply wire id (wire.write_reply an_answer ∷ [])))
poll-answers_example = poll-answers wire (wire.write_reply an_answer ∷ []) asking asking-IsValid
