-- ===== src/Sync/Priority/Examples.antt =====
-- Two payloads of a listed type and one of another.
use snjs.Prelude.{ℕ, ◌≡◌, refl, List, [], ◌∷◌}
use mathlib.Core.List.{Perm}
use snjs.Prelude.Sort.{IsSorted, sort, sort_into, insert}
use snjs.Sync.Priority.{Payload, compare_payloads, priority_of, sort_payloads}
use snjs.Sync.Priority.Order.{IsBefore, IsFirst, sort_payloads-IsSorted}

abbrev note : Payload
note = record { uuid = 1; content_type = 40; server_updated_at = 900 }

abbrev old_tag : Payload
old_tag = record { uuid = 2; content_type = 20; server_updated_at = 100 }

abbrev new_tag : Payload
new_tag = record { uuid = 3; content_type = 20; server_updated_at = 300 }

abbrev stored : List Payload
stored = note ∷ old_tag ∷ new_tag ∷ []

sorted : sort_payloads stored (10 ∷ 20 ∷ []) ≡ new_tag ∷ old_tag ∷ note ∷ []
unfolding sort_payloads compare_payloads priority_of sort sort_into insert
sorted = refl

sort_payloads-IsSorted_example :
    Perm (sort_payloads stored (10 ∷ 20 ∷ [])) stored
    × IsSorted
        (compare_payloads (10 ∷ 20 ∷ []))
        (IsBefore (10 ∷ 20 ∷ []))
        (sort_payloads stored (10 ∷ 20 ∷ []))
    × ((type : ℕ) → IsFirst (10 ∷ 20 ∷ []) type (priority_of (10 ∷ 20 ∷ []) type))
sort_payloads-IsSorted_example = sort_payloads-IsSorted stored (10 ∷ 20 ∷ [])
