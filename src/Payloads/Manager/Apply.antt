-- ===== src/Payloads/Manager/Apply.antt =====
-- Applying payloads writes each one under its uuid, the last one for a uuid winning.
use snjs.Prelude.{
  ℕ, suc, ◌+◌, ◌≤◌, String, ◌≡◌, refl, ◌∙◌, not, Option, none, some, List, [], ◌∷◌, length, filter,
  length-append, arith, if◌then◌else◌, str_eq, ap,
}
use snjs.Prelude.Sort.{IsSorted, sort-IsSorted, sort-perm}
use mathlib.Core.List.{Perm}
use snjs.Payloads.Models.{PayloadModels}
use snjs.Payloads.Manager.{
  Observer, Applied, is_corrupt, is_discarded, apply_payload, apply_from, apply_payloads,
  compare_priority, ordered_observers,
}

module _ (m : PayloadModels) where
  open m use {Payload, uuid, Collection, lookup, lookup-store, lookup-discard}

  -- What the payloads say of a uuid, where `known` was known before.
  pub last_write : List Payload → String → Option Payload → Option Payload
  last_write [] u known = known
  last_write (p ∷ ps) u known = last_write ps u (
      if is_corrupt m p
      then known
      else if str_eq (uuid p) u
      then (if is_discarded m p then none else some p)
      else known)

  lookup-apply_payload :
      (a : Applied m) (p : Payload) (u : String)
      → lookup (apply_payload m a p).collection u ≡ (
          if is_corrupt m p
          then lookup a.collection u
          else if str_eq (uuid p) u
          then (if is_discarded m p then none else some p)
          else lookup a.collection u)
  unfolding apply_payload
  lookup-apply_payload a p u =
      ground (arith, lookup-store a.collection p u, lookup-discard a.collection p u)

  lookup-apply_from :
      (a : Applied m) (ps : List Payload) (u : String)
      → lookup (apply_from m a ps).collection u ≡ last_write ps u (lookup a.collection u)
  unfolding apply_from last_write
  lookup-apply_from a [] u = refl
  lookup-apply_from a (p ∷ ps) u =
      lookup-apply_from (apply_payload m a p) ps u
      ∙ ap (last_write ps u) (lookup-apply_payload a p u)

  -- After payloads are applied to a collection, the payload found under a uuid is the last one with
  -- this uuid among those that have a uuid and a content type, or none if that one is deleted and
  -- discardable; with no such payload, it is the one found before.
  pub lookup-apply_payloads :
      (c : Collection) (ps : List Payload) (u : String)
      → lookup (apply_payloads m c ps).collection u ≡ last_write ps u (lookup c u)
  unfolding apply_payloads
  lookup-apply_payloads c ps u = lookup-apply_from _ ps u

  abbrev sorted_out : Applied m → ℕ
  sorted_out a = length a.changed + length a.inserted + length a.discarded

  counts-apply_payload :
      (a : Applied m) (p : Payload)
      → (sorted_out (apply_payload m a p)
          ≡ (if is_corrupt m p then sorted_out a else suc (sorted_out a)))
        × (length a.unerrored ≤ length a.changed
            → length (apply_payload m a p).unerrored ≤ length (apply_payload m a p).changed)
  unfolding apply_payload
  counts-apply_payload a p = ground (
    arith,
    length-append a.changed (p ∷ []),
    length-append a.inserted (p ∷ []),
    length-append a.discarded (p ∷ []),
    length-append a.unerrored (p ∷ []),
  )

  abbrev pub sound : List Payload → List Payload
  sound ps = filter (λ p. not (is_corrupt m p)) ps

  counts-apply_from :
      (a : Applied m) (ps : List Payload)
      → (sorted_out (apply_from m a ps) ≡ sorted_out a + length (sound ps))
        × (length a.unerrored ≤ length a.changed
            → length (apply_from m a ps).unerrored ≤ length (apply_from m a ps).changed)
  unfolding apply_from
  counts-apply_from a [] = (omega arith, λ h. h)
  counts-apply_from a (p ∷ ps) =
      let (one, kept) = counts-apply_payload a p in
      let (rest, kept') = counts-apply_from (apply_payload m a p) ps in
      (ground arith, λ h. kept' (kept h))

  -- Of the payloads applied, each one with a uuid and a content type is counted once among the
  -- changed, the inserted and the discarded, the others nowhere, and there are at most as many
  -- unerrored payloads as changed ones.
  pub counts-apply_payloads :
      (c : Collection) (ps : List Payload)
      → (length (apply_payloads m c ps).changed
            + length (apply_payloads m c ps).inserted
            + length (apply_payloads m c ps).discarded
          ≡ length (sound ps))
        × (length (apply_payloads m c ps).unerrored ≤ length (apply_payloads m c ps).changed)
  unfolding apply_payloads
  counts-apply_payloads c ps =
      let (all, most) = counts-apply_from _ ps in (omega (arith, all), most (omega arith))

-- The observers in the order in which they are called: all of them, and one with a lower priority
-- number before one with a higher.
pub ordered_observers-IsSorted :
    (observers : List Observer)
    → Perm (ordered_observers observers) observers
      × IsSorted compare_priority (λ a b. a.priority ≤ b.priority) (ordered_observers observers)
unfolding ordered_observers
ordered_observers-IsSorted observers = (
  sort-perm compare_priority observers,
  sort-IsSorted compare_priority (λ a b. a.priority ≤ b.priority) (λ a b h. ground arith)
      (λ a b h. ground arith) (λ a b c h k. omega arith) observers,
)
