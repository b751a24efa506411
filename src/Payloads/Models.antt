-- ===== src/Payloads/Models.antt =====
-- What the services use of @standardnotes/models: payloads, their tests, and the collection of
-- payloads by uuid.
use snjs.Prelude.{String, ◌≡◌, Bool, Option, none, some, if◌then◌else◌, str_eq}

pub record PayloadModels : Type 1 where
  pub Payload : Type 0
  pub uuid : Payload → String
  pub content_type : Payload → String
  pub is_deleted : Payload → Bool
  pub is_discardable : Payload → Bool
  pub is_encrypted : Payload → Bool
  pub is_decrypted : Payload → Bool
  -- ContentType.Any
  pub any_type : String
  pub Collection : Type 0
  pub empty : Collection
  pub lookup : Collection → String → Option Payload
  pub store : Collection → Payload → Collection
  pub discard : Collection → Payload → Collection
  pub lookup-empty : (u : String) → lookup empty u ≡ none
  pub lookup-store :
      (c : Collection) (p : Payload) (u : String)
      → lookup (store c p) u ≡ (if str_eq (uuid p) u then some p else lookup c u)
  pub lookup-discard :
      (c : Collection) (p : Payload) (u : String)
      → lookup (discard c p) u ≡ (if str_eq (uuid p) u then none else lookup c u)
