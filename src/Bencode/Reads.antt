-- ===== src/Bencode/Reads.antt =====
-- `parse` on what `Encode` prints (backend/internal/bencode/bencode.go), value by value.
use auto_seed_relay.Prelude.{
  ℕ, zero, suc, ◌+◌, ◌*◌, ◌≤◌, ◌<◌, ◌^◌, ◌≡◌, ◌≢◌, refl, sym, ap, ◌∙◌, [], ◌∷◌, ◌++◌, arith, length,
  length-append, le→ltb, append_assoc,
}
use auto_seed_relay.Prelude.Int.{ℤ}
use auto_seed_relay.Bencode.Value.{
  Bytes, Value, Items, Fields, int, str, list, dict, other, no_items, item, no_fields, field, ok,
  put,
}
use auto_seed_relay.Bencode.Order.{bytes_eq_ne}
use auto_seed_relay.Bencode.Decimal.{format_nat}
use auto_seed_relay.Bencode.Encode.{print_str, print_int, print_entries, sort_entries}
use auto_seed_relay.Bencode.Emit.{emit, emit_items, entries}
use auto_seed_relay.Bencode.Canonical.{
  canonical, canonical_items, canonical_fields, sort_fields, Fresh, HasDistinctKeys, FitsAt,
  FitsItems, FitsFields, AllFields, AllFields-sort_fields, HasDistinctKeys-sort_fields,
  entries-sort_fields, canonical_fields-sort_fields,
}
use auto_seed_relay.Bencode.Parse.{parse, parse_items, parse_fields, key_of}
use auto_seed_relay.Bencode.Lexical.{parse_integer-format_int, print_str-StartsDigit}
use auto_seed_relay.Bencode.Steps.{
  NotEnd-StartsDigit, NotEnd-emit, length_pos, items_step, fields_step, parse-print_str,
}

-- With fuel for its length, `v` is read off the front of any text at each level that it fits.
abbrev pub Reads : Value → Type 0
Reads v =
    (f d : ℕ) (rest : Bytes)
    → FitsAt d v
    → 2 * length (emit v) < f
    → parse f d (emit v ++ rest) ≡ ok (canonical v, rest)

abbrev ReadsItems : Items → Type 0
ReadsItems xs =
    (f d : ℕ) (rest : Bytes)
    → FitsItems d xs
    → 2 * length (emit_items xs) + 1 < f
    → parse_items f d (emit_items xs ++ b'e' ∷ rest) ≡ ok (canonical_items xs, rest)

-- The fields of a dict with a key and a value that are read back at level `d`.
abbrev FieldReads : ℕ → Bytes → Value → Type 0
FieldReads d k v = (d ≤ 256) × (length k < 2 ^ 63) × FitsAt d v × Reads v

abbrev ReadsFields : Fields → Type 0
ReadsFields fs = AllFields (λ k v. Reads v) fs

ReadsFields-FieldReads :
    (d : ℕ) (fs : Fields) → ReadsFields fs → FitsFields d fs → AllFields (FieldReads d) fs
ReadsFields-FieldReads d no_fields h k = tt
ReadsFields-FieldReads d (field j v fs) h k =
    ((k.0, k.1, k.2, h.0), ReadsFields-FieldReads d fs h.1 k.3)

pub append_fields : Fields → Fields → Fields
append_fields no_fields gs = gs
append_fields (field k v fs) gs = field k v (append_fields fs gs)

put-Fresh :
    (k : Bytes) (v : Value) (m : Fields)
    → Fresh k m
    → put k v m ≡ append_fields m (field k v no_fields)
unfolding put append_fields
put-Fresh k v no_fields h = refl
put-Fresh k v (field j w m) h = rw (bytes_eq_ne j k (λ e. h.0 (sym e))) (rw (put-Fresh k v m h.1))

append_fields_assoc :
    (a b c : Fields) → append_fields (append_fields a b) c ≡ append_fields a (append_fields b c)
unfolding append_fields
append_fields_assoc no_fields b c = refl
append_fields_assoc (field k v a) b c = ap (field k v) (append_fields_assoc a b c)

Fresh-append_fields :
    (k j : Bytes) (v : Value) (m : Fields)
    → Fresh k m
    → k ≢ j
    → Fresh k (append_fields m (field j v no_fields))
unfolding append_fields
Fresh-append_fields k j v no_fields h n = (n, tt)
Fresh-append_fields k j v (field i w m) h n = (h.0, Fresh-append_fields k j v m h.1 n)

-- The keys of the second map are not in the first.
abbrev Apart : Fields → Fields → Type 0
Apart m no_fields = Unit
Apart m (field k v fs) = Fresh k m × Apart m fs

Apart-append_fields :
    (m fs : Fields) (j : Bytes) (v : Value)
    → Apart m fs
    → Fresh j fs
    → Apart (append_fields m (field j v no_fields)) fs
Apart-append_fields m no_fields j v a h = tt
Apart-append_fields m (field k w fs) j v a h =
    (Fresh-append_fields k j v m a.0 (λ e. h.0 (sym e)), Apart-append_fields m fs j v a.1 h.1)

Apart-empty : (fs : Fields) → Apart no_fields fs
Apart-empty no_fields = tt
Apart-empty (field k v fs) = (tt, Apart-empty fs)

append_fields_nil : (m : Fields) → append_fields m no_fields ≡ m
unfolding append_fields
append_fields_nil no_fields = refl
append_fields_nil (field k v m) = ap (field k v) (append_fields_nil m)

length-print_str_pos : (s : Bytes) → 0 < length (print_str s)
unfolding print_str
length-print_str_pos s = omega (arith, length-append (format_nat (length s)) (b':' ∷ s))

length-print_field :
    (k : Bytes) (v : Value) (fs : Fields)
    → length (print_entries (entries (field k v fs)))
      ≡ length (print_str k) + length (emit v) + length (print_entries (entries fs))
unfolding print_entries entries
length-print_field k v fs = omega (
  arith,
  length-append (print_str k) (emit v ++ print_entries (entries fs)),
  length-append (emit v) (print_entries (entries fs)),
)

print_field-append :
    (k : Bytes) (v : Value) (fs : Fields) (rest : Bytes)
    → print_entries (entries (field k v fs)) ++ rest
      ≡ print_str k ++ (emit v ++ (print_entries (entries fs) ++ rest))
unfolding print_entries entries
print_field-append k v fs rest = simp append_assoc

fields-read_empty :
    (f d : ℕ) (rest : Bytes) (m : Fields)
    → parse_fields (suc f) d (print_entries (entries no_fields) ++ b'e' ∷ rest) m
      ≡ ok (append_fields m (canonical_fields no_fields), rest)
unfolding parse print_entries entries canonical
fields-read_empty f d rest m = rw append_fields_nil

append_fields_last :
    (m : Fields) (k : Bytes) (v : Value) (fs : Fields)
    → append_fields (append_fields m (field k v no_fields)) fs ≡ append_fields m (field k v fs)
append_fields_last m k v fs = unfold append_fields in append_fields_assoc m (field k v no_fields) fs

fields-read :
    (fs : Fields) (f d : ℕ) (rest : Bytes) (m : Fields)
    → AllFields (FieldReads d) fs
    → HasDistinctKeys fs
    → Apart m fs
    → 2 * length (print_entries (entries fs)) + 1 < f
    → parse_fields f d (print_entries (entries fs) ++ b'e' ∷ rest) m
      ≡ ok (append_fields m (canonical_fields fs), rest)
unfolding key_of canonical
fields-read fs zero d rest m r u a l = absurd (omega arith)
fields-read no_fields (suc f) d rest m r u a l = fields-read_empty f d rest m
fields-read (field k v fs) (suc f) d rest m r u a l =
    let tail : Bytes = print_entries (entries fs) ++ b'e' ∷ rest in
    let bound = length-print_field k v fs in
    let pos = length-print_str_pos k in
    let key = parse-print_str f d k (emit v ++ tail) r.0.0 r.0.1 (omega arith) in
    let val = r.0.3 f d tail r.0.2 (omega arith) in
    let more =
      fields-read fs f d rest (append_fields m (field k (canonical v) no_fields)) r.1 u.1
        (Apart-append_fields m fs k (canonical v) a.1 u.0) (omega arith) in
    rw (print_field-append k v fs (b'e' ∷ rest)) (
      fields_step f d _ m (NotEnd-StartsDigit _ (print_str-StartsDigit k (emit v ++ tail)))
      ∙ rw key (
          rw val (
            rw (put-Fresh k (canonical v) m a.0) (
              more
              ∙ ap (λ x. ok (x, rest))
                  (append_fields_last m k (canonical v) (canonical_fields fs))))))

int-Reads : (n : ℤ) → Reads (int n)
unfolding emit print_int canonical parse
int-Reads n zero d rest h l = absurd (omega arith)
int-Reads n (suc f) d rest h l =
    rw (le→ltb 256 d h.0, append_assoc) (parse_integer-format_int n rest h.1)

list-Reads : (xs : Items) → ReadsItems xs → Reads (list xs)
unfolding emit canonical parse
list-Reads xs ih zero d rest h l = absurd (omega arith)
list-Reads xs ih (suc f) d rest h l =
    let size = length-append (emit_items xs) (b'e' ∷ []) in
    rw (le→ltb 256 d h.0, append_assoc) (rw (ih f (suc d) rest h.1 (omega arith)))

dict-Reads : (fs : Fields) → ReadsFields fs → Reads (dict fs)
unfolding emit canonical parse
dict-Reads fs ih zero d rest h l = absurd (omega arith)
dict-Reads fs ih (suc f) d rest h l =
    let sorted = entries-sort_fields fs in
    let size = length-append (print_entries (sort_entries (entries fs))) (b'e' ∷ []) in
    let whole =
      fields-read (sort_fields fs) f (suc d) rest no_fields
        (AllFields-sort_fields (FieldReads (suc d)) fs (ReadsFields-FieldReads (suc d) fs ih h.1))
        (HasDistinctKeys-sort_fields fs h.2) (Apart-empty _) (rw sorted (omega arith)) in
    rw (le→ltb 256 d h.0, append_assoc, ← sorted)
      (rw whole (rw canonical_fields-sort_fields (unfold append_fields in refl)))

item-ReadsItems : (w : Value) (xs : Items) → Reads w → ReadsItems xs → ReadsItems (item w xs)
unfolding emit canonical
item-ReadsItems w xs ih ihs zero d rest h l = absurd (omega arith)
item-ReadsItems w xs ih ihs (suc f) d rest h l =
    let size = length-append (emit w) (emit_items xs) in
    let tail = emit_items xs ++ b'e' ∷ rest in
    let first = NotEnd-emit d w tail h.0 in
    let pos = length_pos (emit w) (NotEnd-emit d w [] h.0) in
    rw append_assoc (
      items_step f d _ first
      ∙ rw (ih f d tail h.0 (omega arith)) (rw (ihs f d rest h.1 (omega arith))))

items-Reads_empty : ReadsItems no_items
unfolding emit canonical parse
items-Reads_empty zero d rest h l = absurd (omega arith)
items-Reads_empty (suc f) d rest h l = refl

pub value-Reads : (v : Value) → Reads v
value-Reads v = elim v as Reads ReadsItems ReadsFields [
  | int n ↦ int-Reads n
  | str s ↦
      λ f d rest h l. unfold emit canonical in parse-print_str f d s rest h.0 h.1 (omega arith)
  | list (xs → ih) ↦ list-Reads xs ih
  | dict (fs → ih) ↦ dict-Reads fs ih
  | other ↦ λ f d rest h l. absurd h
  | no_items ↦ items-Reads_empty
  | item (w → ih) (xs → ihs) ↦ item-ReadsItems w xs ih ihs
  | no_fields ↦ tt
  | field k (w → ih) (fs → ihs) ↦ (ih, ihs)
]
