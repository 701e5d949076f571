-- ===== src/Qb/Scenarios.antt =====
-- An instance whose session has expired, and a slow torrent (backend/internal/qb).
use auto_seed_relay.Prelude.{
  ℕ, ◌≡◌, refl, true, false, Bool, String, List, [], ◌∷◌, none, some, ◌⊎◌, inl, map, arith, insert,
  erase,
}
use auto_seed_relay.Qb.Manager.{
  new_manager, set_instance, get_instance, insert_name, sort_names, manager_names, all_healthy,
}
use auto_seed_relay.Qb.Sorted.{IsSorted, occurs}
use auto_seed_relay.Qb.Registry.{RegistryCall, sets, call, calls, spec_calls, present, calls_refine}
use auto_seed_relay.Qb.Client.{Request, logs_in, asks, HttpReply, response, Client, request}
use auto_seed_relay.Qb.Retried.{Requested, request_retries_once}
use auto_seed_relay.Qb.Slow.{slow, fast, is_slow}
use auto_seed_relay.Qb.Since.{Check, tracker_after, stretch, slow_answer}
use auto_seed_relay.Qb.Tracked.{is_slow_iff}

abbrev two_boxes : List (RegistryCall ℕ)
two_boxes = sets "b" (some 1) ∷ sets "a" (some 2) ∷ sets "b" (some 3) ∷ sets "c" none ∷ []

abbrev always_down : ℕ → String ⊎ String
always_down i = inl "timeout"

calls_refine_example :
    let m = calls two_boxes new_manager in
    let f = spec_calls two_boxes (λ n. none) in
    ((n : String) → get_instance n m ≡ f n)
    × IsSorted (manager_names m)
    × ((n : String) → occurs n (manager_names m) ≡ present (f n))
    × (map (λ s. s.name) (all_healthy always_down m) ≡ manager_names m)
calls_refine_example = calls_refine two_boxes always_down

sorted_boxes : manager_names (calls two_boxes new_manager) ≡ "a" ∷ "b" ∷ []
unfolding manager_names calls call set_instance new_manager insert erase sort_names insert_name
sorted_boxes = refl

abbrev pausing : Request
pausing = asks "/api/v2/torrents/stop" (("hashes", "aa") ∷ [])

-- The session has expired: the request is refused until there was a login.
abbrev expired : List Request → HttpReply
expired [] = response 500 ""
expired (logs_in ∷ sent) = response 204 ""
expired (asks path form ∷ []) = response 403 ""
expired (asks path form ∷ logs_in ∷ []) = response 204 ""
expired (asks path form ∷ q ∷ sent) = response 200 ""

abbrev no_fails : String → Bool
no_fails body = false

abbrev session : Client
session = record { logged_in = true; version = none; sent = [] }

request_retries_once_example :
    let (c', r) = request expired no_fails pausing session in
    Requested expired no_fails pausing session r c'.sent
request_retries_once_example = request_retries_once expired no_fails pausing session

abbrev earlier : List Check
earlier =
    record { hash = "bb"; time = 90; speed = fast; duration = 50 }
    ∷ record { hash = "aa"; time = 40; speed = slow; duration = 50 }
    ∷ []

is_slow_iff_example :
    (is_slow 100 50 "aa" slow (tracker_after earlier)).1
    ≡ slow_answer slow 100 50 (stretch "aa" earlier)
is_slow_iff_example =
    is_slow_iff "aa" 100 50 slow earlier (omega arith, (omega arith, tt)) (omega arith)
