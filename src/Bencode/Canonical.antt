-- ===== src/Bencode/Canonical.antt =====
-- Dicts of backend/internal/bencode/bencode.go as maps: entries by increasing key, keys that differ,
-- and the values that can be read back.
use auto_seed_relay.Prelude.{
  ℕ, suc, ◌≤◌, ◌<◌, ◌^◌, ◌≡◌, ◌≢◌, refl, sym, ap, ◌∙◌, arith, length, if◌then◌else◌, Bool-cases,
  inl, inr,
}
use auto_seed_relay.Prelude.Int.{IsInt64}
use auto_seed_relay.Bencode.Value.{
  Bytes, Value, Items, Fields, int, str, list, dict, other, no_items, item, no_fields, field,
  bytes_lt,
}
use auto_seed_relay.Bencode.Encode.{insert_entry, sort_entries}
use auto_seed_relay.Bencode.Emit.{emit, entries}

unfoldable pub insert_field : Bytes → Value → Fields → Fields
insert_field k v no_fields = field k v no_fields
insert_field k v (field j w fs) =
    if bytes_lt j k then field j w (insert_field k v fs) else field k v (field j w fs)

unfoldable pub sort_fields : Fields → Fields
sort_fields no_fields = no_fields
sort_fields (field k v fs) = insert_field k v (sort_fields fs)

-- The same value with the entries of every dict in the order of their keys.
unfoldable mutual
  pub canonical : Value → Value
  canonical (int n) = int n
  canonical (str s) = str s
  canonical (list xs) = list (canonical_items xs)
  canonical (dict fs) = dict (sort_fields (canonical_fields fs))
  canonical other = other

  pub canonical_items : Items → Items
  canonical_items no_items = no_items
  canonical_items (item v xs) = item (canonical v) (canonical_items xs)

  pub canonical_fields : Fields → Fields
  canonical_fields no_fields = no_fields
  canonical_fields (field k v fs) = field k (canonical v) (canonical_fields fs)

-- No entry has the key `k`.
abbrev pub Fresh : Bytes → Fields → Type 0
Fresh k no_fields = Unit
Fresh k (field j w fs) = (k ≢ j) × Fresh k fs

-- The entries are those of a map: their keys differ.
abbrev pub HasDistinctKeys : Fields → Type 0
HasDistinctKeys no_fields = Unit
HasDistinctKeys (field k v fs) = Fresh k fs × HasDistinctKeys fs

-- A Go value that stands at nesting level `d`: its integers are in the range of int64, its strings
-- are shorter than 2^63 bytes, the keys of its maps differ, it is of a supported type, and no part of
-- it lies deeper than level 256.
abbrev mutual
  pub FitsAt : ℕ → Value → Type 0
  FitsAt d (int n) = (d ≤ 256) × IsInt64 n
  FitsAt d (str s) = (d ≤ 256) × (length s < 2 ^ 63)
  FitsAt d (list xs) = (d ≤ 256) × FitsItems (suc d) xs
  FitsAt d (dict fs) = (d ≤ 256) × FitsFields (suc d) fs × HasDistinctKeys fs
  FitsAt d other = ⊥

  pub FitsItems : ℕ → Items → Type 0
  FitsItems d no_items = Unit
  FitsItems d (item v xs) = FitsAt d v × FitsItems d xs

  pub FitsFields : ℕ → Fields → Type 0
  FitsFields d no_fields = Unit
  FitsFields d (field k v fs) = (d ≤ 256) × (length k < 2 ^ 63) × FitsAt d v × FitsFields d fs

abbrev pub AllFields {ℓ} : (Bytes → Value → Type ℓ) → Fields → Type ℓ
AllFields P no_fields = Unit
AllFields P (field k v fs) = P k v × AllFields P fs

pub AllFields-insert_field {ℓ} :
    (P : Bytes → Value → Type ℓ) (k : Bytes) (v : Value) (fs : Fields)
    → P k v
    → AllFields P fs
    → AllFields P (insert_field k v fs)
unfolding insert_field
AllFields-insert_field P k v no_fields h a = (h, tt)
AllFields-insert_field P k v (field j w fs) h a = elim (Bool-cases (bytes_lt j k)) [
  | inl after ↦ rw after (a.0, AllFields-insert_field P k v fs h a.1)
  | inr before ↦ rw before (h, a)
]

pub AllFields-sort_fields {ℓ} :
    (P : Bytes → Value → Type ℓ) (fs : Fields) → AllFields P fs → AllFields P (sort_fields fs)
unfolding sort_fields
AllFields-sort_fields P no_fields a = tt
AllFields-sort_fields P (field k v fs) a =
    AllFields-insert_field P k v (sort_fields fs) a.0 (AllFields-sort_fields P fs a.1)

Fresh-AllFields : (k : Bytes) (fs : Fields) → Fresh k fs → AllFields (λ j w. k ≢ j) fs
Fresh-AllFields k no_fields h = tt
Fresh-AllFields k (field j w fs) h = (h.0, Fresh-AllFields k fs h.1)

AllFields-Fresh : (k : Bytes) (fs : Fields) → AllFields (λ j w. k ≢ j) fs → Fresh k fs
AllFields-Fresh k no_fields h = tt
AllFields-Fresh k (field j w fs) h = (h.0, AllFields-Fresh k fs h.1)

pub Fresh-sort_fields : (k : Bytes) (fs : Fields) → Fresh k fs → Fresh k (sort_fields fs)
Fresh-sort_fields k fs h = AllFields-Fresh k _ (AllFields-sort_fields _ fs (Fresh-AllFields k fs h))

HasDistinctKeys-insert_field :
    (k : Bytes) (v : Value) (fs : Fields)
    → Fresh k fs
    → HasDistinctKeys fs
    → HasDistinctKeys (insert_field k v fs)
unfolding insert_field
HasDistinctKeys-insert_field k v no_fields h d = (tt, tt)
HasDistinctKeys-insert_field k v (field j w fs) h d = elim (Bool-cases (bytes_lt j k)) [
  | inl after ↦ rw after (
    AllFields-Fresh j _
        (AllFields-insert_field _ k v fs (λ e. h.0 (sym e)) (Fresh-AllFields j fs d.0)),
    HasDistinctKeys-insert_field k v fs h.1 d.1,
  )
  | inr before ↦ rw before (h, d)
]

pub HasDistinctKeys-sort_fields :
    (fs : Fields) → HasDistinctKeys fs → HasDistinctKeys (sort_fields fs)
unfolding sort_fields
HasDistinctKeys-sort_fields no_fields d = tt
HasDistinctKeys-sort_fields (field k v fs) d =
    HasDistinctKeys-insert_field k v _ (Fresh-sort_fields k fs d.0)
      (HasDistinctKeys-sort_fields fs d.1)

-- Sorting looks at the keys alone, so it can be done before or after what is done to the values.
entries-insert_field :
    (k : Bytes) (v : Value) (fs : Fields)
    → entries (insert_field k v fs) ≡ insert_entry (k, emit v) (entries fs)
unfolding insert_field insert_entry entries
entries-insert_field k v no_fields = refl
entries-insert_field k v (field j w fs) = ground (arith, entries-insert_field k v fs)

pub entries-sort_fields : (fs : Fields) → entries (sort_fields fs) ≡ sort_entries (entries fs)
unfolding sort_fields sort_entries entries
entries-sort_fields no_fields = refl
entries-sort_fields (field k v fs) =
    entries-insert_field k v (sort_fields fs)
    ∙ ap (insert_entry (k, emit v)) (entries-sort_fields fs)

canonical_fields-insert_field :
    (k : Bytes) (v : Value) (fs : Fields)
    → canonical_fields (insert_field k v fs) ≡ insert_field k (canonical v) (canonical_fields fs)
unfolding insert_field canonical
canonical_fields-insert_field k v no_fields = refl
canonical_fields-insert_field k v (field j w fs) =
    ground (arith, canonical_fields-insert_field k v fs)

pub canonical_fields-sort_fields :
    (fs : Fields) → canonical_fields (sort_fields fs) ≡ sort_fields (canonical_fields fs)
unfolding sort_fields canonical
canonical_fields-sort_fields no_fields = refl
canonical_fields-sort_fields (field k v fs) =
    canonical_fields-insert_field k v (sort_fields fs)
    ∙ ap (insert_field k (canonical v)) (canonical_fields-sort_fields fs)
