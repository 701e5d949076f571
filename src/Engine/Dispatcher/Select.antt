-- ===== src/Engine/Dispatcher/Select.antt =====
-- `SelectQB` and its four strategies, of backend/internal/engine/dispatcher.go. Which names the manager
-- has is a function; what an instance answers stands in its row. The empty text is no name.
use text.Mathlib.Text.{◌==◌ as str_eq}
use auto_seed_relay.Prelude.{
  ℕ, ◌+◌, ◌-◌, ◌%◌, ◌^◌, Bool, List, [], ◌∷◌, Option, none, some, String, if◌then◌else◌, ltb, ◌||◌,
  length, get_elem?,
}

-- An enabled row of qb_instances, in the order of priority, with the free space and the number of
-- torrents that it reports, if it does.
pub record QbInstance : Type 0 where
  pub name : String
  pub free_on_disk : Option ℕ
  pub torrents : Option ℕ

abbrev pub max_int : ℕ
max_int = 2 ^ 63 - 1

abbrev pub or_else : ℕ → Option ℕ → ℕ
or_else d none = d
or_else d (some n) = n

-- A failed query counts as no free space.
abbrev pub free_of : QbInstance → ℕ
free_of q = or_else 0 q.free_on_disk

-- A failed query counts as the largest load.
abbrev pub count_of : QbInstance → ℕ
count_of q = or_else max_int q.torrents

abbrev pub more : ℕ → ℕ → Bool
more a b = ltb b a

abbrev pub fewer : ℕ → ℕ → Bool
fewer a b = ltb a b

-- The loop that `mostFreeDisk` and `leastJobs` share: the best name so far, "" before the first, and
-- its value.
unfoldable pub choose :
    (String → Bool) → (ℕ → ℕ → Bool) → (QbInstance → ℕ) → String → ℕ → List QbInstance → String
choose registered better value best b [] = best
choose registered better value best b (q ∷ qs) =
    let kept = choose registered better value best b qs in
    let taken = choose registered better value q.name (value q) qs in
    if registered q.name then if str_eq best "" || better (value q) b then taken else kept else kept

-- "" is ErrNoQB.
unfoldable pub named : String → Option String
named best = if str_eq best "" then none else some best

unfoldable pub most_free_disk : (String → Bool) → List QbInstance → Option String
most_free_disk registered qs = named (choose registered more free_of "" 0 qs)

unfoldable pub least_jobs : (String → Bool) → List QbInstance → Option String
least_jobs registered qs = named (choose registered fewer count_of "" max_int qs)

unfoldable pub by_priority : (String → Bool) → List QbInstance → Option String
by_priority registered [] = none
by_priority registered (q ∷ qs) =
    if registered q.name then some q.name else by_priority registered qs

-- The names that the manager has, in the order of priority.
abbrev pub names_of : (String → Bool) → List QbInstance → List String
names_of registered [] = []
names_of registered (q ∷ qs) =
    if registered q.name then q.name ∷ names_of registered qs else names_of registered qs

-- The cursor is a uint64; it does not move when there is no name.
unfoldable pub pick_round : List String → ℕ → Option String × ℕ
pick_round [] rr = (none, rr)
pick_round (n ∷ ns) rr = (get_elem? (n ∷ ns) (rr % length (n ∷ ns)), (rr + 1) % 2 ^ 64)

unfoldable pub round_robin : (String → Bool) → List QbInstance → ℕ → Option String × ℕ
round_robin registered qs rr = pick_round (names_of registered qs) rr

unfoldable pub by_mode : (String → Bool) → String → List QbInstance → ℕ → Option String × ℕ
by_mode registered mode qs rr =
    if str_eq mode "most_free_disk"
    then (most_free_disk registered qs, rr)
    else if str_eq mode "least_jobs"
    then (least_jobs registered qs, rr)
    else if str_eq mode "round_robin"
    then round_robin registered qs rr
    else (by_priority registered qs, rr)

-- `SelectQB`: the name or an error, and the cursor. `none` for the instances is an error of the store;
-- the preferred name is "" if there is none.
unfoldable pub select_qb :
    (String → Bool) → String → String → Option (List QbInstance) → ℕ → Option String × ℕ
select_qb registered prefer mode none rr = (none, rr)
select_qb registered prefer mode (some []) rr = (none, rr)
select_qb registered prefer mode (some (q ∷ qs)) rr =
    let strategy = by_mode registered mode (q ∷ qs) rr in
    if str_eq prefer "" then strategy else if registered prefer then (some prefer, rr) else strategy
