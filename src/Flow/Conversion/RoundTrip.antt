-- ===== src/Flow/Conversion/RoundTrip.antt =====
-- What is read back from the JSON of an entity, src/libs/flow/src/engine/conversion/json.hpp.
use Prim.Native.String.{String}
use text.Mathlib.Text.{◌==◌ as str_eq}
use text.Mathlib.TextEquality.{eq_iff}
use ez_cpp.Prelude.{
  ℕ, zero, suc, ◌+◌, ◌<◌, ◌≤◌, ◌≡◌, refl, ap, sym, ◌∙◌, subst, inl, inr, true, false, Option, some,
  List, [], ◌∷◌, ◌++◌, map, arith, >>=-eq-some, eq_of_some, Bool-cases,
}
use ez_cpp.Flow.Json.{Json}
use ez_cpp.Flow.Conversion.{
  put_entry, JsonReader, Entity, boolean, integer, real, string, array, dictionary, other, Entities,
  no_entity, entity, DictionaryMap, no_entry, entry, text_less, insert, entity_to_json,
  array_to_json, map_to_json, array_from_json, map_from_json, kind_from_json, entity_from_json,
}

text_less-asym : (s t : String) → text_less s t ≡ true → text_less t s ≡ false
unfolding text_less
text_less-asym String.[] String.[] h = cc
text_less-asym String.[] (String.◌∷◌ d t) h = refl
text_less-asym (String.◌∷◌ c s) String.[] h = cc
text_less-asym (String.◌∷◌ c s) (String.◌∷◌ d t) h =
    let ih = text_less-asym s t in ground (arith, ih)

text_less_irrefl : (s : String) → text_less s s ≡ false
text_less_irrefl s = elim (Bool-cases (text_less s s)) [ inl e ↦ text_less-asym s s e | inr e ↦ e ]

text_less-ne : (s t : String) → text_less s t ≡ true → str_eq t s ≡ false
text_less-ne s t h = elim (Bool-cases (str_eq t s)) [
  | inl e ↦
      let same : t ≡ s = ground (arith, eq_iff t s) in
      absurd (let n : true ≡ false = sym h ∙ ap (text_less s) same ∙ text_less_irrefl s in cc)
  | inr e ↦ e
]

-- Every key of the list is before `key`.
abbrev Before : List String → String → Type 0
Before [] key = Unit {0}
Before (k ∷ ks) key = (text_less k key ≡ true) × Before ks key

abbrev Precede : List String → DictionaryMap → Type 0
Precede ks no_entry = Unit {0}
Precede ks (entry key e m) = Before ks key × Precede ks m

abbrev keys : DictionaryMap → List String
keys no_entry = []
keys (entry k e m) = k ∷ keys m

abbrev join : DictionaryMap → DictionaryMap → DictionaryMap
join no_entry m = m
join (entry k e l) m = entry k e (join l m)

-- The keys of a map are in order: each is before every later one.
abbrev pub IsSorted : DictionaryMap → Type 0
IsSorted no_entry = Unit {0}
IsSorted (entry k e m) = Precede (k ∷ []) m × IsSorted m

-- Every part is of a kind that JSON has, and every dictionary is in order, as a std::map is.
unfoldable mutual
  pub IsConvertible : Entity → Type 0
  IsConvertible (boolean b) = Unit {0}
  IsConvertible (integer z) = Unit {0}
  IsConvertible (real d) = Unit {0}
  IsConvertible (string s) = Unit {0}
  IsConvertible (array es) = AreConvertible es
  IsConvertible (dictionary m) = IsSorted m × IsConvertibleMap m
  IsConvertible (other k) = ⊥

  pub AreConvertible : Entities → Type 0
  AreConvertible no_entity = Unit {0}
  AreConvertible (entity e es) = IsConvertible e × AreConvertible es

  pub IsConvertibleMap : DictionaryMap → Type 0
  IsConvertibleMap no_entry = Unit {0}
  IsConvertibleMap (entry k e m) = IsConvertible e × IsConvertibleMap m

unfoldable mutual
  pub size : Entity → ℕ
  size (boolean b) = 0
  size (integer z) = 0
  size (real d) = 0
  size (string s) = 0
  size (array es) = suc (size_all es)
  size (dictionary m) = suc (size_map m)
  size (other k) = 0

  pub size_all : Entities → ℕ
  size_all no_entity = 0
  size_all (entity e es) = size e + size_all es

  pub size_map : DictionaryMap → ℕ
  size_map no_entry = 0
  size_map (entry k e m) = size e + size_map m

insert_last :
    (key : String) (e : Entity) (acc : DictionaryMap)
    → Before (keys acc) key
    → insert key e acc ≡ join acc (entry key e no_entry)
unfolding insert
insert_last key e no_entry h = refl
insert_last key e (entry k f m) h =
    rw (text_less-asym k key h.0, h.0) (ap (entry k f) (insert_last key e m h.1))

put_entry_last {ℓ} :
    {V : Type ℓ} (key : String) (v : V) (es : List (String × V))
    → Before (map (λ e. e.0) es) key
    → put_entry key v es ≡ es ++ (key, v) ∷ []
put_entry_last key v [] h = refl
put_entry_last key v ((k, w) ∷ es) h =
    rw (text_less-ne k key h.0) (ap (◌∷◌ (k, w)) (put_entry_last key v es h.1))

keys-join : (l m : DictionaryMap) → keys (join l m) ≡ keys l ++ keys m
keys-join no_entry m = refl
keys-join (entry k e l) m = ap (◌∷◌ k) (keys-join l m)

join_assoc :
    (l : DictionaryMap) (key : String) (e : Entity) (m : DictionaryMap)
    → join (join l (entry key e no_entry)) m ≡ join l (entry key e m)
join_assoc no_entry key e m = refl
join_assoc (entry k f l) key e m = ap (entry k f) (join_assoc l key e m)

join_nothing : (l : DictionaryMap) → join l no_entry ≡ l
join_nothing no_entry = refl
join_nothing (entry k e l) = ap (entry k e) (join_nothing l)

Before-append :
    (ks : List String) (k key : String)
    → Before ks key
    → text_less k key ≡ true
    → Before (ks ++ k ∷ []) key
Before-append [] k key h e = (e, tt)
Before-append (j ∷ ks) k key h e = (h.0, Before-append ks k key h.1 e)

Precede-append :
    (ks : List String) (k : String) (m : DictionaryMap)
    → Precede ks m
    → Precede (k ∷ []) m
    → Precede (ks ++ k ∷ []) m
Precede-append ks k no_entry h g = tt
Precede-append ks k (entry key e m) h g =
    (Before-append ks k key h.0 g.0.0, Precede-append ks k m h.1 g.1)

Precede-nothing : (m : DictionaryMap) → Precede [] m
Precede-nothing no_entry = tt
Precede-nothing (entry k e m) = (tt, Precede-nothing m)

map-append_one {ℓ} :
    {V : Type ℓ} (es : List (String × V)) (key : String) (v : V)
    → map (λ e. e.0) (es ++ (key, v) ∷ []) ≡ map (λ e. e.0) es ++ key ∷ []
map-append_one [] key v = refl
map-append_one (e ∷ es) key v = ap (◌∷◌ e.0) (map-append_one es key v)

module _ (J : Json) (R : JsonReader J) where
  -- Reading a list of entries and one more.
  map_from_json-append :
      (read : J.Value → Option (Option Entity)) (acc' : DictionaryMap) (key : String) (v : J.Value)
      (e : Entity) (es : List (String × J.Value)) (acc : DictionaryMap)
      → map_from_json J R read acc es ≡ some acc'
      → read v ≡ some (some e)
      → map_from_json J R read acc (es ++ (key, v) ∷ []) ≡ some (insert key e acc')
  unfolding map_from_json
  map_from_json-append read acc' key v e [] acc h r =
      rw r (ap (λ m. some (insert key e m)) (eq_of_some h))
  map_from_json-append read acc' key v e ((k, w) ∷ es) acc h r =
      let (x, a, b) = >>=-eq-some (read w) _ h in
      rw a (map_from_json-append read acc' key v e es _ b r)

  empty_read :
      (rounds : ℕ)
      → map_from_json J R (entity_from_json J R rounds) no_entry (R.entries J.no_entries)
        ≡ some no_entry
  unfolding map_from_json
  empty_read rounds = rw R.entries_none

  -- The entity is written, and read back.
  abbrev Survives : ℕ → Entity → Type 0
  Survives rounds e =
      (v : J.Value) × (entity_to_json J R e ≡ some v)
      × (entity_from_json J R rounds v ≡ some (some e))

  mutual
    unfolding entity_to_json entity_from_json kind_from_json array_from_json IsConvertible size

    entity-Survives :
        (e : Entity) (rounds : ℕ) → IsConvertible e → size e ≤ rounds → Survives (suc rounds) e
    entity-Survives (boolean b) rounds c h = (R.of_bool b, refl, rw (R.kind_bool b))
    entity-Survives (integer z) rounds c h = (R.of_int64 z, refl, rw (R.kind_int64 z))
    entity-Survives (real d) rounds c h = (R.of_double d, refl, rw (R.kind_double d))
    entity-Survives (string s) rounds c h = (J.of_string s, refl, rw (R.kind_string s))
    entity-Survives (other k) rounds c h = absurd c
    entity-Survives (array es) rounds c h =
        let vs = array_to_json J R es in
        (J.of_array vs, refl, rw (R.kind_array vs, array_survives es rounds c (omega arith)))
    entity-Survives (dictionary m) rounds c h =
        let o = map_to_json J R J.no_entries m in
        let start : map_from_json J R (entity_from_json J R rounds) no_entry
              (R.entries J.no_entries)
            ≡ some no_entry =
          empty_read rounds in
        let names : map (λ e. e.0) (R.entries J.no_entries) ≡ [] =
          ap (map (λ e. e.0)) R.entries_none in
        let read =
          map_survives m rounds J.no_entries no_entry c.1 c.0 (Precede-nothing m) (omega arith)
            start names in
        (J.of_object o, refl, rw (R.kind_object o, read))

    array_survives :
        (es : Entities) (rounds : ℕ)
        → AreConvertible es
        → size_all es < rounds
        → array_from_json J R (entity_from_json J R rounds) (array_to_json J R es) ≡ some es
    array_survives no_entity rounds c h = refl
    array_survives (entity e es) zero c h = absurd (omega arith)
    array_survives (entity e es) (suc rounds) c h =
        let (v, a, b) = entity-Survives e rounds c.0 (omega arith) in
        rw (a, b, array_survives es (suc rounds) c.1 (omega arith))

    map_survives :
        (m : DictionaryMap) (rounds : ℕ) (out : J.Object) (acc : DictionaryMap)
        → IsConvertibleMap m
        → IsSorted m
        → Precede (keys acc) m
        → size_map m < rounds
        → map_from_json J R (entity_from_json J R rounds) no_entry (R.entries out) ≡ some acc
        → map (λ e. e.0) (R.entries out) ≡ keys acc
        → map_from_json J R
            (entity_from_json J R rounds)
            no_entry
            (R.entries (map_to_json J R out m))
          ≡ some (join acc m)
    map_survives no_entry rounds out acc c s p h done names =
        done ∙ ap some (sym (join_nothing acc))
    map_survives (entry key e m) zero out acc c s p h done names = absurd (omega arith)
    map_survives (entry key e m) (suc rounds) out acc c s p h done names =
        let (v, a, b) = entity-Survives e rounds c.0 (omega arith) in
        let listed : R.entries (J.put out key v) ≡ R.entries out ++ (key, v) ∷ [] =
          R.entries_put out key v
          ∙ put_entry_last key v (R.entries out) (subst (λ ks. Before ks key) (sym names) p.0) in
        let acc' = join acc (entry key e no_entry) in
        let done' : map_from_json J R (entity_from_json J R (suc rounds)) no_entry
              (R.entries (J.put out key v))
            ≡ some acc' =
          ap (map_from_json J R (entity_from_json J R (suc rounds)) no_entry) listed
          ∙ map_from_json-append (entity_from_json J R (suc rounds)) acc key v e (R.entries out)
              no_entry done b
          ∙ ap some (insert_last key e acc p.0) in
        let keys' : keys acc' ≡ keys acc ++ key ∷ [] = keys-join acc (entry key e no_entry) in
        let names' : map (λ e. e.0) (R.entries (J.put out key v)) ≡ keys acc' =
          ap (map (λ e. e.0)) listed
          ∙ map-append_one (R.entries out) key v
          ∙ ap (λ ks. ks ++ key ∷ []) names
          ∙ sym keys' in
        let p' : Precede (keys acc') m =
          subst (λ ks. Precede ks m) (sym keys') (Precede-append (keys acc) key m p.1 s.0) in
        rw a (
          map_survives m (suc rounds) (J.put out key v) acc' c.1 s.1 p' (omega arith) done' names'
          ∙ ap some (join_assoc acc key e m))

  -- An entity whose parts are all of a kind that JSON has, with every dictionary in the order of its
  -- keys, is written, and read back as it was, within more rounds than it has nested containers.
  pub entity_from_json-to_json :
      (e : Entity) (rounds : ℕ)
      → IsConvertible e
      → size e < rounds
      → (v : J.Value) × (entity_to_json J R e ≡ some v)
        × (entity_from_json J R rounds v ≡ some (some e))
  entity_from_json-to_json e zero c h = absurd (omega arith)
  entity_from_json-to_json e (suc rounds) c h = entity-Survives e rounds c (omega arith)
