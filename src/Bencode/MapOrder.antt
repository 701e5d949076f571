-- ===== src/Bencode/MapOrder.antt =====
-- The order in which a Go map is walked, sorting, and what `Encode` of
-- backend/internal/bencode/bencode.go prints.
use auto_seed_relay.Prelude.{
  ◌≡◌, ◌≢◌, refl, ap, ◌∙◌, true, false, List, [], ◌∷◌, arith, Bool-cases, inl, inr, ◌&&◌,
}
use auto_seed_relay.Bencode.Value.{
  Bytes, Value, Items, Fields, int, str, list, dict, other, no_items, item, no_fields, field,
  bytes_lt,
}
use auto_seed_relay.Bencode.Order.{
  bytes_lt_asymm, bytes_lt_trans, bytes_lt_connected, bytes_lt_cases,
}
use auto_seed_relay.Bencode.Encode.{Entry, insert_entry, sort_entries, print_entries, encode, wrap}
use auto_seed_relay.Bencode.Emit.{
  is_encodable, encodable_items, encodable_fields, emit, emit_items, entries, encode_cases,
}
use auto_seed_relay.Bencode.Canonical.{
  canonical, canonical_items, canonical_fields, sort_fields, insert_field, entries-sort_fields,
}

-- No entry stands before one with a smaller key.
abbrev IsSorted : List Entry → Type 0
IsSorted [] = Unit
IsSorted (e ∷ []) = Unit
IsSorted (e ∷ e' ∷ es) = (bytes_lt e'.0 e.0 ≡ false) × IsSorted (e' ∷ es)

insert_entry-IsSorted : (e : Entry) (es : List Entry) → IsSorted es → IsSorted (insert_entry e es)
unfolding insert_entry
insert_entry-IsSorted (k, b) [] s = tt
insert_entry-IsSorted (k, b) ((j, c) ∷ []) s = elim (Bool-cases (bytes_lt j k)) [
  | inl after ↦ rw after (bytes_lt_asymm j k after, tt)
  | inr before ↦ rw before (before, tt)
]
insert_entry-IsSorted (k, b) ((j, c) ∷ (i, d) ∷ es) s = elim (Bool-cases (bytes_lt j k)) [
  | inl after ↦ elim (Bool-cases (bytes_lt i k)) [
    | inl later ↦
        rw (after, later) (s.0, rw later at (insert_entry-IsSorted (k, b) ((i, d) ∷ es) s.1))
    | inr here ↦ rw (after, here) (bytes_lt_asymm j k after, (here, s.1))
  ]
  | inr before ↦ rw before (before, s)
]

sort_entries-IsSorted : (es : List Entry) → IsSorted (sort_entries es)
unfolding sort_entries
sort_entries-IsSorted [] = tt
sort_entries-IsSorted (e ∷ es) = insert_entry-IsSorted e _ (sort_entries-IsSorted es)

insert_entry_front : (e : Entry) (es : List Entry) → IsSorted (e ∷ es) → insert_entry e es ≡ e ∷ es
unfolding insert_entry
insert_entry_front (k, b) [] s = refl
insert_entry_front (k, b) ((j, c) ∷ es) s = rw s.0

IsSorted-tail : (e : Entry) (es : List Entry) → IsSorted (e ∷ es) → IsSorted es
IsSorted-tail e [] s = tt
IsSorted-tail e (e' ∷ es) s = s.1

sort_entries-cons :
    (e : Entry) (es : List Entry) → sort_entries (e ∷ es) ≡ insert_entry e (sort_entries es)
unfolding sort_entries
sort_entries-cons e es = refl

sort_entries_sorted : (es : List Entry) → IsSorted es → sort_entries es ≡ es
sort_entries_sorted [] s = unfold sort_entries in refl
sort_entries_sorted (e ∷ es) s =
    sort_entries-cons e es
    ∙ ap (insert_entry e) (sort_entries_sorted es (IsSorted-tail e es s))
    ∙ insert_entry_front e es s

pub sort_entries_idem : (es : List Entry) → sort_entries (sort_entries es) ≡ sort_entries es
sort_entries_idem es = sort_entries_sorted _ (sort_entries-IsSorted es)

le_lt_trans : (i j k : Bytes) → bytes_lt j i ≡ false → bytes_lt j k ≡ true → bytes_lt i k ≡ true
le_lt_trans i j k h l = elim (Bool-cases (bytes_lt i j)) [
  | inl less ↦ bytes_lt_trans i j k less l
  | inr same ↦ rw (bytes_lt_connected i j same h) l
]

insert_entry_comm :
    (k : Bytes) (b : Bytes) (j : Bytes) (c : Bytes) (es : List Entry)
    → k ≢ j
    → insert_entry (k, b) (insert_entry (j, c) es) ≡ insert_entry (j, c) (insert_entry (k, b) es)
unfolding insert_entry
insert_entry_comm k b j c [] n = ground (arith, bytes_lt_cases k j n)
insert_entry_comm k b j c ((i, d) ∷ es) n = ground (
  arith,
  bytes_lt_cases k j n,
  insert_entry_comm k b j c es n,
  le_lt_trans k i j,
  le_lt_trans j i k,
)

-- Two lists of the entries of one map: each comes from the other by exchanging neighbours with
-- different keys.
pub data SameMap : Fields → Fields → Type 0 where
  same : {fs : Fields} → SameMap fs fs
  behind :
      {k : Bytes} {v : Value} {fs gs : Fields}
      → SameMap fs gs
      → SameMap (field k v fs) (field k v gs)
  exchange :
      {k j : Bytes} {v w : Value} {fs : Fields}
      → k ≢ j
      → SameMap (field k v (field j w fs)) (field j w (field k v fs))
  compose : {fs gs hs : Fields} → SameMap fs gs → SameMap gs hs → SameMap fs hs

SameMap-sort :
    {fs gs : Fields} → SameMap fs gs → sort_entries (entries fs) ≡ sort_entries (entries gs)
unfolding sort_entries entries
SameMap-sort same = refl
SameMap-sort (behind {k = k} {v = v} s) = ap (insert_entry (k, emit v)) (SameMap-sort s)
SameMap-sort (exchange {k = k} {j = j} {v = v} {w = w} {fs = fs} n) =
    insert_entry_comm k (emit v) j (emit w) _ n
SameMap-sort (compose s t) = SameMap-sort s ∙ SameMap-sort t

SameMap-is_encodable : {fs gs : Fields} → SameMap fs gs → encodable_fields fs ≡ encodable_fields gs
SameMap-is_encodable same = refl
SameMap-is_encodable (behind {v = v} s) = ap (λ b. is_encodable v && b) (SameMap-is_encodable s)
SameMap-is_encodable (exchange {v = v} {w = w} {fs = fs} n) = ground arith
SameMap-is_encodable (compose s t) = SameMap-is_encodable s ∙ SameMap-is_encodable t

emit_map_order : {fs gs : Fields} → SameMap fs gs → emit (dict fs) ≡ emit (dict gs)
unfolding emit
emit_map_order s = ap (λ es. wrap b'd' (print_entries es)) (SameMap-sort s)

-- The bytes of a dict do not depend on the order in which the entries of the map are walked.
pub encode_map_order : {fs gs : Fields} → SameMap fs gs → encode (dict fs) ≡ encode (dict gs)
encode_map_order {fs} {gs} s =
    rw (encode_cases (dict fs), encode_cases (dict gs))
      (rw (SameMap-is_encodable s, emit_map_order s))

abbrev EmitsCanonical : Value → Type 0
EmitsCanonical v = (emit (canonical v) ≡ emit v) × (is_encodable (canonical v) ≡ is_encodable v)

abbrev EmitsCanonicalItems : Items → Type 0
EmitsCanonicalItems xs =
    (emit_items (canonical_items xs) ≡ emit_items xs)
    × (encodable_items (canonical_items xs) ≡ encodable_items xs)

abbrev EmitsCanonicalFields : Fields → Type 0
EmitsCanonicalFields fs =
    (entries (canonical_fields fs) ≡ entries fs)
    × (encodable_fields (canonical_fields fs) ≡ encodable_fields fs)

encodable_fields-insert_field :
    (k : Bytes) (v : Value) (fs : Fields)
    → encodable_fields (insert_field k v fs) ≡ (is_encodable v && encodable_fields fs)
unfolding insert_field
encodable_fields-insert_field k v no_fields = refl
encodable_fields-insert_field k v (field j w fs) =
    ground (arith, encodable_fields-insert_field k v fs)

encodable_fields-sort_fields :
    (fs : Fields) → encodable_fields (sort_fields fs) ≡ encodable_fields fs
unfolding sort_fields
encodable_fields-sort_fields no_fields = refl
encodable_fields-sort_fields (field k v fs) =
    encodable_fields-insert_field k v (sort_fields fs)
    ∙ ap (λ b. is_encodable v && b) (encodable_fields-sort_fields fs)

dict-EmitsCanonical : (fs : Fields) → EmitsCanonicalFields fs → EmitsCanonical (dict fs)
unfolding canonical emit
dict-EmitsCanonical fs h = (
  ap (λ es. wrap b'd' (print_entries es))
      (rw entries-sort_fields (sort_entries_idem _ ∙ ap sort_entries h.0)),
  encodable_fields-sort_fields (canonical_fields fs) ∙ h.1,
)

canonical_emits : (v : Value) → EmitsCanonical v
unfolding canonical emit
canonical_emits v = elim v as EmitsCanonical EmitsCanonicalItems EmitsCanonicalFields [
  | list (xs → ih) ↦ (ap (wrap b'l') ih.0, ih.1)
  | dict (fs → ih) ↦ dict-EmitsCanonical fs ih
  | item (w → ih) (xs → ihs) ↦ ground arith
  | field k (w → ih) (fs → ihs) ↦ ground arith
  | int n ↦ (refl, refl)
  | str s ↦ (refl, refl)
  | other ↦ (refl, refl)
  | no_items ↦ (refl, refl)
  | no_fields ↦ (refl, refl)
]

-- A value and the same value with its dict entries sorted have the same encoding, or none.
pub encode-canonical : (v : Value) → encode (canonical v) ≡ encode v
encode-canonical v =
    rw (encode_cases v, encode_cases (canonical v))
      (rw ((canonical_emits v).0, (canonical_emits v).1))
