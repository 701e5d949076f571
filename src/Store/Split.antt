-- ===== src/Store/Split.antt =====
-- The cutting of a script and the order of migrations (backend/internal/store/migrate.go).
use Prim.Native.String.{String, [] as no_text, ◌∷◌ as ◌▹◌}
use Prim.Native.Char.{Char, code}
use auto_seed_relay.Prelude.{
  ℕ, ◌≡◌, ◌≤◌, refl, ap, ◌∙◌, sym, Bool, true, false, List, [], ◌∷◌, ◌++◌, if◌then◌else◌, leb,
  leb→le, ◌==◌, ==_iff, any, arith, append_assoc, Bool-cases, inl, inr, All,
}
use auto_seed_relay.Store.Migrate.{
  Mode, at_top, ends_statement, next_mode, snoc, pieces, Migration, insert_migration,
  sort_migrations,
}

-- The bytes of a text, and of pieces with a semicolon between each two.
abbrev pub char_codes : String → List ℕ
char_codes no_text = []
char_codes (c ▹ s) = code c ∷ char_codes s

abbrev pub more_codes : List String → List ℕ
more_codes [] = []
more_codes (p ∷ ps) = 59 ∷ char_codes p ++ more_codes ps

abbrev pub joined : List String → List ℕ
joined [] = []
joined (p ∷ ps) = char_codes p ++ more_codes ps

char_codes-snoc : (s : String) (c : Char) → char_codes (snoc s c) ≡ char_codes s ++ code c ∷ []
char_codes-snoc no_text c = refl
char_codes-snoc (d ▹ s) c = ap (λ x. code d ∷ x) (char_codes-snoc s c)

ends_code : (mode : Mode) (c : Char) → ends_statement mode c ≡ true → code c ≡ 59
ends_code at_top c h = (==_iff (code c) 59).0 h
ends_code Mode.in_comment c h = absurd cc
ends_code Mode.in_literal c h = absurd cc
ends_code Mode.at_escape c h = absurd cc

more_lem :
    (mode : Mode) (cur s : String)
    → more_codes (pieces mode cur s) ≡ 59 ∷ joined (pieces mode cur s)
unfolding pieces
more_lem mode cur no_text = refl
more_lem mode cur (c ▹ s) = elim (Bool-cases (ends_statement mode c)) [
  | inl ends ↦ rw ends refl
  | inr inside ↦ rw inside (more_lem (next_mode mode c s) (snoc cur c) s)
]

joined_lem :
    (mode : Mode) (cur s : String) → joined (pieces mode cur s) ≡ char_codes cur ++ char_codes s
unfolding pieces
joined_lem mode cur no_text = refl
joined_lem mode cur (c ▹ s) = elim (Bool-cases (ends_statement mode c)) [
  | inl ends ↦ rw ends (
      ap (λ x. char_codes cur ++ x)
        (more_lem (next_mode mode c s) no_text s
          ∙ ap (λ x. 59 ∷ x) (joined_lem (next_mode mode c s) no_text s)
          ∙ ap (λ n. n ∷ char_codes s) (sym (ends_code mode c ends))))
  | inr inside ↦ rw inside (
      joined_lem (next_mode mode c s) (snoc cur c) s
      ∙ ap (λ x. x ++ char_codes s) (char_codes-snoc cur c)
      ∙ append_assoc (char_codes cur) (code c ∷ []) (char_codes s))
]

-- The pieces with a semicolon between each two are the script.
pub pieces_join : (s : String) → joined (pieces at_top no_text s) ≡ char_codes s
pieces_join s = joined_lem at_top no_text s

abbrev pub has_version : ℕ → List Migration → Bool
has_version v ms = any (λ m. m.version == v) ms

swap_ifs :
    (a b c : Bool)
    → (if a then true else if b then true else c) ≡ (if b then true else if a then true else c)
swap_ifs true true c = refl
swap_ifs true false c = refl
swap_ifs false b c = refl

insert_has :
    (v : ℕ) (m : Migration) (ms : List Migration)
    → has_version v (insert_migration m ms) ≡ (if m.version == v then true else has_version v ms)
unfolding insert_migration
insert_has v m [] = refl
insert_has v m (n ∷ ms) = elim (Bool-cases (leb m.version n.version)) [
  | inl before ↦ rw before refl
  | inr after ↦ rw (after, insert_has v m ms) (swap_ifs (n.version == v) (m.version == v) _)
]

-- Sorting keeps the versions.
pub sort_has : (v : ℕ) (ms : List Migration) → has_version v (sort_migrations ms) ≡ has_version v ms
unfolding sort_migrations
sort_has v [] = refl
sort_has v (m ∷ ms) =
    insert_has v m (sort_migrations ms)
    ∙ ap (λ b. if m.version == v then true else b) (sort_has v ms)

abbrev pub IsOrdered : List Migration → Type 0
IsOrdered [] = Unit
IsOrdered (m ∷ ms) = All (λ n. m.version ≤ n.version) ms × IsOrdered ms

insert-All :
    (v : ℕ) (m : Migration) (ms : List Migration)
    → v ≤ m.version
    → All (λ n. v ≤ n.version) ms
    → All (λ n. v ≤ n.version) (insert_migration m ms)
unfolding insert_migration
insert-All v m [] h a = (h, tt)
insert-All v m (n ∷ ms) h a = elim (Bool-cases (leb m.version n.version)) [
  | inl before ↦ rw before (h, a)
  | inr after ↦ rw after (a.0, insert-All v m ms h a.1)
]

above-All :
    (v w : ℕ) (ms : List Migration)
    → v ≤ w
    → All (λ n. w ≤ n.version) ms
    → All (λ n. v ≤ n.version) ms
above-All v w [] h a = tt
above-All v w (m ∷ ms) h a = (let k = a.0 in omega arith, above-All v w ms h a.1)

insert-IsOrdered :
    (m : Migration) (ms : List Migration) → IsOrdered ms → IsOrdered (insert_migration m ms)
unfolding insert_migration
insert-IsOrdered m [] o = (tt, tt)
insert-IsOrdered m (n ∷ ms) o = elim (Bool-cases (leb m.version n.version)) [
  | inl before ↦
      let le = leb→le _ _ before in rw before ((le, above-All m.version n.version ms le o.0), o)
  | inr after ↦ rw after (insert-All n.version m ms (ground arith) o.0, insert-IsOrdered m ms o.1)
]

pub sort-IsOrdered : (ms : List Migration) → IsOrdered (sort_migrations ms)
unfolding sort_migrations
sort-IsOrdered [] = tt
sort-IsOrdered (m ∷ ms) = insert-IsOrdered m (sort_migrations ms) (sort-IsOrdered ms)
