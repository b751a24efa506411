-- ===== src/Sync/Priority.antt =====
-- The order in which payloads are loaded (packages/snjs/lib/Services/Sync/Utils.ts). Types of content are
-- numbers, as they are only compared; dates are the times that `getTime` gives.
pub mod Order
mod Examples
use snjs.Prelude.{
  index_of, ℕ, suc, zero, Bool, true, false, Option, none, some, List, [], ◌∷◌, length, ◌==◌, ltb,
  map, or_else, if◌then◌else◌,
}
use snjs.Prelude.Sort.{ℤ, pos, negsuc, sub_ℕ, sort}

pub record Payload : Type 0 where
  pub uuid : ℕ
  pub content_type : ℕ
  pub server_updated_at : ℕ

-- A type that is not in the list comes last.
unfoldable pub priority_of : List ℕ → ℕ → ℕ
priority_of priority_list content_type =
    or_else (index_of priority_list content_type) (length priority_list)

unfoldable pub compare_payloads : List ℕ → Payload → Payload → ℤ
unfolding priority_of
compare_payloads priority_list a b =
    let date_result = sub_ℕ b.server_updated_at a.server_updated_at in
    let a_priority = priority_of priority_list a.content_type in
    let b_priority = priority_of priority_list b.content_type in
    if a_priority == b_priority
    then date_result
    else if ltb a_priority b_priority
    then negsuc 0
    else pos 1

unfoldable pub sort_payloads : List Payload → List ℕ → List Payload
unfolding compare_payloads sort
sort_payloads payloads priority_list = sort (compare_payloads priority_list) payloads
