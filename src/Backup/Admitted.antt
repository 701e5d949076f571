-- ===== src/Backup/Admitted.antt =====
-- Which files a restore admits (backend/internal/backup).
use auto_seed_relay.Prelude.{
  ℕ, ◌≤◌, ◌≡◌, refl, ap, ◌∙◌, true, false, List, Option, none, some, String, arith, leb, leb→le,
  le→leb, Bool-cases, inl, inr, ◌⊎◌,
}
use auto_seed_relay.Prelude.Int.{ℤ, pos, negsuc}
use auto_seed_relay.Backup.Restore.{
  max_meta_size, max_db_bytes, ZipEntry, Files, parsed_meta, judge_restored, extracted_body,
  check_version, is_newer, meta_of, read_meta, checked_meta, extracted, all_ok, validate_restored,
  check_integrity,
}

parsed_meta-some : (o : Option ℤ) (v : ℤ) → parsed_meta o ≡ inr v → o ≡ some v
parsed_meta-some none v h = absurd cc
parsed_meta-some (some w) v h = cc

judge_lem :
    (current : ℕ) (o : Option ℤ) (rows : Option (List String)) (v : ℤ) (s : List String)
    → o ≡ some v
    → is_newer current v ≡ false
    → rows ≡ some s
    → all_ok s ≡ true
    → judge_restored current o rows ≡ none
judge_lem current o rows v s h k l m = rw (h, l, k, m) refl

sum_cases : {A B : Type 0} (s : A ⊎ B) → ((a : A) × (s ≡ inl a)) ⊎ ((b : B) × (s ≡ inr b))
sum_cases (inl a) = inl (a, refl)
sum_cases (inr b) = inr (b, refl)

check_integrity-none :
    (rows : Option (List String))
    → check_integrity rows ≡ none
    → (s : List String) × (rows ≡ some s) × (all_ok s ≡ true)
check_integrity-none none h = absurd cc
check_integrity-none (some s) h = elim (Bool-cases (all_ok s)) [
  | inl healthy ↦ (s, refl, healthy)
  | inr bad ↦ absurd (let k = rw bad at h in cc)
]

judge-none :
    (current : ℕ) (o : Option ℤ) (rows : Option (List String))
    → judge_restored current o rows ≡ none
    → (v : ℤ) × (o ≡ some v)
      × (is_newer current v ≡ false)
      × ((s : List String) × (rows ≡ some s) × (all_ok s ≡ true))
judge-none current none rows h = absurd cc
judge-none current (some v) rows h = elim (Bool-cases (is_newer current v)) [
  | inl newer ↦ absurd (let k = rw newer at h in cc)
  | inr known ↦ (v, refl, known, check_integrity-none rows (rw known at h))
]

module _ {F : Type 0} (files : Files F) (current : ℕ) where
  -- The metadata is small, can be read, and has a schema version from 1 to the current one.
  pub record IsMeta (m : ZipEntry F) : Type 0 where
    pub small : m.declared ≤ max_meta_size
    pub body : F
    pub read : m.body ≡ some body
    pub version : ℕ
    pub parsed : files.meta_version body ≡ some (pos version)
    pub valid : 1 ≤ version
    pub known : version ≤ current

  -- The entry can be read to its end, is small, and is no newer than the binary and without problems.
  pub record IsHealthy (x : ZipEntry F) (f : F) : Type 0 where
    pub declared : x.declared ≤ max_db_bytes
    pub size : x.size ≤ max_db_bytes
    pub read : x.body ≡ some f
    pub version : ℤ
    pub stored : files.user_version f ≡ some version
    pub old_enough : is_newer current version ≡ false
    pub rows : List String
    pub answered : files.integrity f ≡ some rows
    pub healthy : all_ok rows ≡ true

  extracted_body-some :
      (size : ℕ) (body : Option F) (f : F)
      → extracted_body size body ≡ inr f
      → (body ≡ some f) × (size ≤ max_db_bytes)
  extracted_body-some size none f h = absurd cc
  extracted_body-some size (some g) f h = elim (Bool-cases (leb size max_db_bytes)) [
    | inr large ↦ absurd (let l = rw large at h in cc)
    | inl small ↦ (let l = rw small at h in cc, leb→le _ _ small)
  ]

  meta_of-some :
      (body : Option F) (v : ℤ)
      → meta_of files current body ≡ inr v
      → (f : F) × (body ≡ some f) × (files.meta_version f ≡ some v)
  meta_of-some none v h = absurd cc
  meta_of-some (some f) v h = (f, refl, parsed_meta-some (files.meta_version f) v h)

  check_version-none :
      (v : ℤ) → check_version current v ≡ none → (n : ℕ) × (v ≡ pos n) × (1 ≤ n) × (n ≤ current)
  unfolding check_version
  check_version-none (negsuc n) h = absurd cc
  check_version-none (pos n) h = (n, refl, ground arith, ground arith)

  pub checked-IsMeta :
      (m : ZipEntry F) → checked_meta files current (read_meta files current m) ≡ none → IsMeta m
  unfolding checked_meta read_meta
  checked-IsMeta m h = elim (Bool-cases (leb m.declared max_meta_size)) [
    | inr large ↦ absurd (let k = rw large at h in cc)
    | inl small ↦
        let k = rw small at h in
        elim (sum_cases (meta_of files current m.body)) [
          | inl (e, bad) ↦ absurd (let l = rw bad at k in cc)
          | inr (v, fine) ↦
              let l = rw fine at k in
              let (f, read, parsed) = meta_of-some m.body v fine in
              let (n, is, valid, known) = check_version-none v l in
              record {
                small = leb→le _ _ small;
                body = f;
                read = read;
                version = n;
                parsed = parsed ∙ ap some is;
                valid = valid;
                known = known;
              }
        ]
  ]

  pub IsMeta-checked :
      (m : ZipEntry F) → IsMeta m → checked_meta files current (read_meta files current m) ≡ none
  unfolding checked_meta read_meta check_version
  IsMeta-checked m k =
      rw (le→leb _ _ k.small, k.read)
        (ap (λ o. checked_meta files current (parsed_meta o)) k.parsed
          ∙ rw (le→leb _ _ k.valid, le→leb _ _ k.known) refl)

  pub taken-IsHealthy :
      (x : ZipEntry F) (f : F)
      → extracted files current x ≡ inr f
      → validate_restored files current f ≡ none
      → IsHealthy x f
  unfolding extracted validate_restored
  taken-IsHealthy x f h k =
      let (v, stored, old, (rows, answered, fine)) =
        judge-none current (files.user_version f) (files.integrity f) k in
      elim (Bool-cases (leb x.declared max_db_bytes)) [
        | inr large ↦ absurd (let l = rw large at h in cc)
        | inl declared ↦
            let (read, size) = extracted_body-some x.size x.body f (rw declared at h) in
            record {
              declared = leb→le _ _ declared;
              size = size;
              read = read;
              version = v;
              stored = stored;
              old_enough = old;
              rows = rows;
              answered = answered;
              healthy = fine;
            }
      ]

  pub IsHealthy-taken :
      (x : ZipEntry F) (f : F)
      → IsHealthy x f
      → (extracted files current x ≡ inr f) × (validate_restored files current f ≡ none)
  unfolding extracted validate_restored
  IsHealthy-taken x f k = (
    rw (le→leb _ _ k.declared, k.read, le→leb _ _ k.size) refl,
    judge_lem _ _ _ k.version k.rows k.stored k.old_enough k.answered k.healthy,
  )
