-- ===== src/Rpc/Client/Replies.antt =====
-- What a poll of the client does to the calls that wait.
use text.Mathlib.Text.{◌==◌ as str_eq}
use text.Mathlib.TextEquality.{eq_iff}
use ez_cpp.Prelude.{
  ℕ, ◌<◌, ◌≡◌, ◌≢◌, refl, ap, sym, subst, ◌∙◌, String, Option, none, some, List, [], ◌∷◌, ◌++◌,
  if◌then◌else◌, arith, length, get_elem?, set, length-set, get_elem?-set_self, get_elem?-set_ne,
  get_elem?_below, Bool-cases, Option-cases, inl, inr, eq_of_some,
}
use ez_cpp.Rpc.Messages.{Payload, Reply, Protobuf}
use ez_cpp.Rpc.Client.{
  Query, Client, find_query, erase_query, reply_of, write_reply_to, answer, receive_reply,
  receive_data, poll,
}
use ez_cpp.Rpc.Client.Queries.{find_query-erase_query}

-- Every query waits for a reply in a variable of its own, with a coroutine to wake.
pub record IsValid (c : Client) : Type 0 where
  pub waits :
      (id : String) (q : Query)
      → find_query id c.queries ≡ some q
      → (slot : ℕ) × (q.reply ≡ some slot) × (slot < length c.replies)
  pub apart :
      (i j : String) (q p : Query) (slot : ℕ)
      → find_query i c.queries ≡ some q
      → find_query j c.queries ≡ some p
      → q.reply ≡ some slot
      → p.reply ≡ some slot
      → i ≡ j

-- No query waits in this variable.
abbrev IsFree : Client → ℕ → Type 0
IsFree c slot = (id : String) (q : Query) → find_query id c.queries ≡ some q → q.reply ≢ some slot

-- What one reply does to a client.
record Answers (c : Client) (r : Reply) (c' : Client) : Type 0 where
  valid : IsValid c'
  queries :
      (id : String)
      → find_query id c'.queries
        ≡ (if str_eq r.request_id id then none else find_query id c.queries)
  replies :
      (id : String) (q : Query) (slot : ℕ)
      → find_query id c.queries ≡ some q
      → q.reply ≡ some slot
      → get_elem? c'.replies slot
        ≡ (if str_eq r.request_id id then some (reply_of r.payload) else get_elem? c.replies slot)
  free : (slot : ℕ) → IsFree c slot → get_elem? c'.replies slot ≡ get_elem? c.replies slot

Answers-IsFree :
    (c c' : Client) (r : Reply) (slot : ℕ) → Answers c r c' → IsFree c slot → IsFree c' slot
Answers-IsFree c c' r slot a f id q found = f id q (let e = a.queries id in ground arith)

module _ (c : Client) (v : IsValid c) (r : Reply) where
  unasked : find_query r.request_id c.queries ≡ none → Answers c r c
  unasked absent = record {
    valid = v;
    queries = λ id. elim (Bool-cases (str_eq r.request_id id)) [
      | inl same ↦
          let e = (eq_iff r.request_id id).0 same in
          rw same (subst (λ k. find_query k c.queries ≡ none) e absent)
      | inr other ↦ rw other refl
    ];
    replies = λ id q slot found at_. elim (Bool-cases (str_eq r.request_id id)) [
      | inl same ↦
          let e = (eq_iff r.request_id id).0 same in
          let gone = subst (λ k. find_query k c.queries ≡ none) e absent in cc
      | inr other ↦ rw other refl
    ];
    free = λ slot f. refl;
  }

  module _ (q : Query) (asked : find_query r.request_id c.queries ≡ some q) (slot : ℕ)
      (at_ : q.reply ≡ some slot) (inside : slot < length c.replies) where
    abbrev answered : Client
    answered = record c {
      replies = set c.replies slot (reply_of r.payload);
      posted = c.posted ++ q.wake ∷ [];
      queries = erase_query r.request_id c.queries;
    }

    answer-answered : answer r q c ≡ some answered
    unfolding answer write_reply_to
    answer-answered = let (old, here) = get_elem?_below c.replies slot inside in ground arith

    still :
        (id : String) (p : Query)
        → find_query id (erase_query r.request_id c.queries) ≡ some p
        → find_query id c.queries ≡ some p
    still id p found = let e = find_query-erase_query r.request_id id c.queries in ground arith

    answered-Answers : Answers c r answered
    answered-Answers = record {
      valid = record {
        waits = λ id p found.
            let (s, has, lt) = v.waits id p (still id p found) in
            (s, has, omega (arith, length-set c.replies slot (reply_of r.payload)));
        apart = λ i j p p' s fi fj. v.apart i j p p' s (still i p fi) (still j p' fj);
      };
      queries = λ id. find_query-erase_query r.request_id id c.queries;
      replies = λ id p s found has. elim (Bool-cases (str_eq r.request_id id)) [
        | inl same ↦
            let e = (eq_iff r.request_id id).0 same in
            let one : q ≡ p =
              eq_of_some (sym (subst (λ k. find_query k c.queries ≡ some q) e asked) ∙ found) in
            let here : slot ≡ s = eq_of_some (sym at_ ∙ ap (λ x. x.reply) one ∙ has) in
            rw same (
              subst
                (λ k.
                  get_elem? (set c.replies slot (reply_of r.payload)) k ≡ some (reply_of r.payload))
                here (get_elem?-set_self c.replies slot (reply_of r.payload) inside))
        | inr other ↦ rw other (
            get_elem?-set_ne c.replies slot s (reply_of r.payload) (λ e.
              let same = v.apart r.request_id id q p slot asked found at_ (has ∙ ap some (sym e)) in
              let yes_ = (eq_iff r.request_id id).1 same in cc))
      ];
      free = λ s f.
          get_elem?-set_ne c.replies slot s (reply_of r.payload)
            (λ e. f r.request_id q asked (at_ ∙ ap some e));
    }

  receive_reply-Answers : (c' : Client) × (receive_reply r c ≡ some c') × Answers c r c'
  unfolding receive_reply
  receive_reply-Answers = elim (Option-cases (find_query r.request_id c.queries)) [
    | inl absent ↦ (c, rw (absent, receive_reply) refl, unasked absent)
    | inr (q, asked) ↦
        let (slot, at_, inside) = v.waits r.request_id q asked in
        (
          answered q asked slot at_ inside,
          rw (asked, receive_reply) (answer-answered q asked slot at_ inside),
          answered-Answers q asked slot at_ inside,
        )
  ]

module _ (protobuf : Protobuf) where
  -- The payload of the first reply to a request among what is received.
  abbrev pub first_reply : String → List String → Option Payload
  first_reply id [] = none
  first_reply id (bytes ∷ rest) = elim (protobuf.read_reply bytes) [
    | none ↦ first_reply id rest
    | some r ↦ if str_eq r.request_id id then some r.payload else first_reply id rest
  ]

  -- What the polled client has for the query: an answer, or the query still.
  abbrev pub Answered : Client → Client → String → Query → ℕ → Option Payload → Type 0
  Answered c c' id q slot (some payload) =
      (find_query id c'.queries ≡ none) × (get_elem? c'.replies slot ≡ some (reply_of payload))
  Answered c c' id q slot none =
      (find_query id c'.queries ≡ some q) × (get_elem? c'.replies slot ≡ get_elem? c.replies slot)

  module _ (bytes : String) (rest : List String) where
    poll-skips :
        (c : Client)
        → protobuf.read_reply bytes ≡ none
        → poll protobuf (bytes ∷ rest) c ≡ poll protobuf rest c
    unfolding poll receive_data
    poll-skips c unread = ground arith

    poll-takes :
        (c d : Client) (r : Reply)
        → protobuf.read_reply bytes ≡ some r
        → receive_reply r c ≡ some d
        → poll protobuf (bytes ∷ rest) c ≡ poll protobuf rest d
    unfolding poll receive_data
    poll-takes c d r reads takes = ground arith

    first_reply-skips :
        (id : String)
        → protobuf.read_reply bytes ≡ none
        → first_reply id (bytes ∷ rest) ≡ first_reply id rest
    first_reply-skips id unread = ground arith

    first_reply-takes :
        (id : String) (r : Reply)
        → protobuf.read_reply bytes ≡ some r
        → first_reply id (bytes ∷ rest)
          ≡ (if str_eq r.request_id id then some r.payload else first_reply id rest)
    first_reply-takes id r reads = ground arith

  -- The fate of a poll that goes on from a client that has taken one reply.
  record Polled (received : List String) (c c' : Client) : Type 0 where
    runs : poll protobuf received c ≡ some c'
    valid : IsValid c'
    free : (slot : ℕ) → IsFree c slot → get_elem? c'.replies slot ≡ get_elem? c.replies slot
    gone : (id : String) → find_query id c.queries ≡ none → find_query id c'.queries ≡ none
    answers :
        (id : String) (q : Query) (slot : ℕ)
        → find_query id c.queries ≡ some q
        → q.reply ≡ some slot
        → Answered c c' id q slot (first_reply id received)

  module _ (bytes : String) (rest : List String) (r : Reply) (c d c' : Client) (v : IsValid c)
      (reads : protobuf.read_reply bytes ≡ some r) (takes : receive_reply r c ≡ some d)
      (a : Answers c r d) (p : Polled rest d c') where
    -- The variable of the call that has been answered is in no other query.
    answered-IsFree :
        (q : Query) (slot : ℕ)
        → find_query r.request_id c.queries ≡ some q
        → q.reply ≡ some slot
        → IsFree d slot
    answered-IsFree q slot found at_ j x has same_slot =
        let e = a.queries j in
        let kept : find_query j c.queries ≡ some x = ground arith in
        let same = v.apart r.request_id j q x slot found kept at_ same_slot in
        let yes_ = (eq_iff r.request_id j).1 same in ground arith

    taken-answers :
        (id : String) (q : Query) (slot : ℕ)
        → find_query id c.queries ≡ some q
        → q.reply ≡ some slot
        → Answered c c' id q slot (first_reply id (bytes ∷ rest))
    taken-answers id q slot found at_ =
        let asks = a.queries id in
        let holds = a.replies id q slot found at_ in
        elim (Bool-cases (str_eq r.request_id id)) [
          | inl same ↦
              let e = (eq_iff r.request_id id).0 same in
              let apart =
                answered-IsFree q slot (subst (λ k. find_query k c.queries ≡ some q) (sym e) found)
                  at_ in
              let first : first_reply id (bytes ∷ rest) ≡ some r.payload =
                first_reply-takes bytes rest id r reads ∙ rw same refl in
              subst (Answered c c' id q slot) (sym first)
                (p.gone id (ground arith), p.free slot apart ∙ ground arith)
          | inr other ↦
              let kept : find_query id d.queries ≡ some q = ground arith in
              let old : get_elem? d.replies slot ≡ get_elem? c.replies slot = ground arith in
              let first : first_reply id (bytes ∷ rest) ≡ first_reply id rest =
                first_reply-takes bytes rest id r reads ∙ rw other refl in
              subst (Answered c c' id q slot) (sym first)
                (Answered-from id q slot (first_reply id rest) old (p.answers id q slot kept at_))
        ]
      where
        Answered-from :
            (id : String) (q : Query) (slot : ℕ) (o : Option Payload)
            → get_elem? d.replies slot ≡ get_elem? c.replies slot
            → Answered d c' id q slot o
            → Answered c c' id q slot o
        Answered-from id q slot (some x) old h = h
        Answered-from id q slot none old h = (h.0, h.1 ∙ old)

    taken-Polled : Polled (bytes ∷ rest) c c'
    taken-Polled = record {
      runs = poll-takes bytes rest c d r reads takes ∙ p.runs;
      valid = p.valid;
      free = λ slot f. p.free slot (Answers-IsFree c d r slot a f) ∙ a.free slot f;
      gone = λ id e. p.gone id (let x = a.queries id in ground arith);
      answers = taken-answers;
    }

  poll-Polled :
      (received : List String) (c : Client) → IsValid c → (c' : Client) × Polled received c c'
  unfolding poll
  poll-Polled [] c v = (
    c,
    record {
      runs = refl;
      valid = v;
      free = λ slot f. refl;
      gone = λ id e. e;
      answers = λ id q slot found at_. (found, refl);
    },
  )
  poll-Polled (bytes ∷ rest) c v = elim (Option-cases (protobuf.read_reply bytes)) [
    | inl unread ↦
        let (c', p) = poll-Polled rest c v in
        (
          c',
          record {
            runs = poll-skips bytes rest c unread ∙ p.runs;
            valid = p.valid;
            free = p.free;
            gone = p.gone;
            answers = λ id q slot found at_.
                subst (Answered c c' id q slot) (sym (first_reply-skips bytes rest id unread))
                  (p.answers id q slot found at_);
          },
        )
    | inr (r, reads) ↦
        let (d, takes, a) = receive_reply-Answers c v r in
        let (c', p) = poll-Polled rest d a.valid in
        (c', taken-Polled bytes rest r c d c' v reads takes a p)
  ]

  -- A poll of a client each of whose queries has a variable of its own, over anything that is received,
  -- ends and keeps that. The call of a query gets the payload of the first reply to it, and is asked
  -- no more; without a reply its variable and its query stay as they were.
  pub poll-answers :
      (received : List String) (c : Client)
      → IsValid c
      → (c' : Client) × (poll protobuf received c ≡ some c')
        × IsValid c'
        × ((id : String) (q : Query) (slot : ℕ)
            → find_query id c.queries ≡ some q
            → q.reply ≡ some slot
            → Answered c c' id q slot (first_reply id received))
  poll-answers received c v =
      let (c', p) = poll-Polled received c v in (c', p.runs, p.valid, p.answers)
