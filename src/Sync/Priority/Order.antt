-- ===== src/Sync/Priority/Order.antt =====
-- What the sorted payloads look like.
use snjs.Prelude.{
  ℕ, suc, zero, ◌<◌, ◌≤◌, ◌≡◌, ◌≢◌, ap, sym, subst, true, false, some, List, [], ◌∷◌, length, ◌==◌,
  ==_iff, ltb, get_elem?, if◌then◌else◌, arith, Bool-cases, inl, inr,
}
use snjs.Prelude.Sort.{sort-perm, IsSorted, sort-IsSorted, is_negative, sub_ℕ, pos, negsuc}
use mathlib.Core.List.{Perm}
use snjs.Sync.Priority.{Payload, priority_of, compare_payloads, sort_payloads}

-- The first place of a type in the list, or the list's length if it has none.
pub record IsFirst (types : List ℕ) (type priority : ℕ) : Type 0 where
  pub at_most : priority ≤ length types
  pub here : priority < length types → get_elem? types priority ≡ some type
  pub not_before : (i : ℕ) → i < priority → get_elem? types i ≢ some type

-- A payload may stand before another: its type has the lower priority, or the same and it is not older.
pub record IsBefore (types : List ℕ) (a b : Payload) : Type 0 where
  pub by_priority : priority_of types a.content_type ≤ priority_of types b.content_type
  pub by_date :
      priority_of types a.content_type ≡ priority_of types b.content_type
      → b.server_updated_at ≤ a.server_updated_at

priority_lem :
    (x : ℕ) (types : List ℕ) (type : ℕ)
    → priority_of (x ∷ types) type ≡ (if x == type then 0 else suc (priority_of types type))
unfolding priority_of
priority_lem x types type = ground arith

found-IsFirst :
    (x : ℕ) (types : List ℕ) (type : ℕ) → (x == type) ≡ true → IsFirst (x ∷ types) type 0
found-IsFirst x types type same = record {
  at_most = omega arith;
  here = λ there. ap some ((==_iff x type).0 same);
  not_before = λ i before. ground arith;
}

not_before_lem :
    (x : ℕ) (types : List ℕ) (type priority : ℕ)
    → (x == type) ≡ false
    → IsFirst types type priority
    → (i : ℕ) → i < suc priority
    → get_elem? (x ∷ types) i ≢ some type
not_before_lem x types type priority differs first zero before =
    λ same. ground (arith, ==_iff x type)
not_before_lem x types type priority differs first (suc i) before = first.not_before i (omega arith)

later-IsFirst :
    (x : ℕ) (types : List ℕ) (type priority : ℕ)
    → (x == type) ≡ false
    → IsFirst types type priority
    → IsFirst (x ∷ types) type (suc priority)
later-IsFirst x types type priority differs first = record {
  at_most = omega (arith, first.at_most);
  here = λ there. first.here (omega arith);
  not_before = not_before_lem x types type priority differs first;
}

priority_of-IsFirst : (types : List ℕ) (type : ℕ) → IsFirst types type (priority_of types type)
unfolding priority_of
priority_of-IsFirst [] type = record {
  at_most = omega arith;
  here = λ some_left. ground arith;
  not_before = λ i before. ground arith;
}
priority_of-IsFirst (x ∷ types) type =
    subst (IsFirst (x ∷ types) type) (sym (priority_lem x types type))
      (elim (Bool-cases (x == type)) [
        | inl same ↦ rw same (found-IsFirst x types type same)
        | inr differs ↦
            rw differs (later-IsFirst x types type _ differs (priority_of-IsFirst types type))
      ])

sign_lem :
    (p q d e : ℕ)
    → (let sign = is_negative (if p == q then sub_ℕ e d else if ltb p q then negsuc 0 else pos 1) in
        (sign ≡ true → (p ≤ q) × (p ≡ q → e ≤ d)) × (sign ≡ false → (q ≤ p) × (q ≡ p → d ≤ e)))
sign_lem p q d e =
    (λ negative. ground (arith, ==_iff p q), λ not_negative. ground (arith, ==_iff p q))

compare_lem :
    (types : List ℕ) (a b : Payload)
    → (is_negative (compare_payloads types a b) ≡ true → IsBefore types a b)
      × (is_negative (compare_payloads types a b) ≡ false → IsBefore types b a)
unfolding compare_payloads
compare_lem types a b =
    let (below, above) =
      sign_lem (priority_of types a.content_type) (priority_of types b.content_type)
        a.server_updated_at b.server_updated_at in
    (
      λ negative. record { by_priority = (below negative).0; by_date = (below negative).1 },
      λ not_negative. record {
        by_priority = (above not_negative).0;
        by_date = (above not_negative).1;
      },
    )

-- Sorting gives the same payloads, each as often. Every payload stands before all later ones: its
-- type comes first in the priority list, where a type that is missing comes after all that are
-- listed, and among payloads of the same priority the one updated last comes first.
pub sort_payloads-IsSorted :
    (payloads : List Payload) (types : List ℕ)
    → Perm (sort_payloads payloads types) payloads
      × IsSorted (compare_payloads types) (IsBefore types) (sort_payloads payloads types)
      × ((type : ℕ) → IsFirst types type (priority_of types type))
unfolding sort_payloads
sort_payloads-IsSorted payloads types = (
  sort-perm (compare_payloads types) payloads,
  sort-IsSorted (compare_payloads types) (IsBefore types) (λ x y. (compare_lem types x y).0)
      (λ x y. (compare_lem types x y).1)
      (λ x y z before after. record {
        by_priority = omega (arith, before.by_priority, after.by_priority);
        by_date = λ same.
            ground (arith, before.by_priority, after.by_priority, before.by_date, after.by_date);
      })
      payloads,
  priority_of-IsFirst types,
)
