-- ===== src/Storage/Saving.antt =====
-- How payloads reach the database of the device (`savePayloads` of packages/snjs/lib/Services/
-- Storage/DiskStorageService.ts). The splits of payloads and their encryption belong to
-- @standardnotes/models and @standardnotes/encryption and are parameters; a row is what one of the
-- three makers of local payloads is given. A payload is known by its uuid to be deleted.
use mathlib.Core.List.{Perm}
use mathlib.Core.List.Perm
use snjs.Prelude.{
  ◌≡◌, refl, String, Bool, true, false, Option, List, [], ◌∷◌, ◌++◌, map, append-nil, Result, ok,
  throw, or_else, if◌then◌else◌,
}
use snjs.Storage.{
  PersistencePolicy, default_persistence, ephemeral, EncryptionPolicy, default_encryption, disabled,
}

pub data Row (Payload : Type 0) : Type 0 where
  encrypted_row decrypted_row deleted_row : Payload → Row Payload

-- CreatePayloadSplitWithDiscardables
pub record Split (Payload : Type 0) : Type 0 where
  pub encrypted : List Payload
  pub decrypted : List Payload
  pub deleted : List Payload
  pub discardable : List Payload

-- SplitPayloadsByEncryptionType: each part is there or is not.
pub record TypeSplit (Payload : Type 0) : Type 0 where
  pub items_key_encryption : Option (List Payload)
  pub root_key_encryption : Option (List Payload)

-- The calls of the device.
pub record Database (Payload : Type 0) : Type 0 where
  pub removed : List String
  pub saved : List (List (Row Payload))

module _ {Payload : Type 0} (uuid : Payload → String) (split : List Payload → Split Payload)
    (split_by_type : List Payload → TypeSplit Payload)
    (encrypt_split : TypeSplit Payload → Result (List Payload)) where
  -- `encryptable` and `unencryptable`
  unfoldable pub route : EncryptionPolicy → Bool → List Payload → List Payload × List Payload
  route default_encryption root_key_available ps =
      let s = split_by_type ps in
      let items = or_else s.items_key_encryption [] in
      let root = or_else s.root_key_encryption [] in
      if root_key_available then (items ++ root, []) else (items, root)
  route disabled root_key_available ps = ([], ps)

  unfoldable pub delete_payloads : List Payload → Database Payload → Database Payload
  delete_payloads ps db = record db { removed = db.removed ++ map uuid ps }

  abbrev pub rows_of : List Payload → List Payload → List Payload → List (Row Payload)
  rows_of encrypted plain deleted =
      map encrypted_row encrypted ++ (map decrypted_row plain ++ map deleted_row deleted)

  -- The error, where encryption throws, comes with what was done before.
  unfoldable pub save_payloads :
      PersistencePolicy
      → EncryptionPolicy
      → Bool
      → List Payload
      → Database Payload
      → Result (Database Payload) × Database Payload
  unfolding route delete_payloads
  save_payloads ephemeral policy root_key_available ps db = (ok db, db)
  save_payloads default_persistence policy root_key_available ps db =
      let s = split ps in
      let routes = route policy root_key_available s.decrypted in
      let db' = delete_payloads s.discardable db in
      elim (encrypt_split (split_by_type routes.0)) [
        | throw e ↦ (throw e, db')
        | ok results ↦
            let db'' : Database Payload = record db' {
              saved = db'.saved ++ rows_of (s.encrypted ++ results) routes.1 s.deleted ∷ [];
            } in
            (ok db'', db'')
      ]

  -- The parts of the split by type are there for all payloads, each once.
  unfoldable pub IsPartition : Type 0
  IsPartition =
      (ps : List Payload)
      → Perm
          (or_else (split_by_type ps).items_key_encryption []
            ++ or_else (split_by_type ps).root_key_encryption [])
          ps

  abbrev pub all_routed : EncryptionPolicy → Bool → List Payload → List Payload
  all_routed policy available ps = let routes = route policy available ps in routes.0 ++ routes.1

  route-complete :
      IsPartition
      → (policy : EncryptionPolicy) (available : Bool) (ps : List Payload)
      → Perm (all_routed policy available ps) ps
  unfolding IsPartition route
  route-complete partition default_encryption true ps = rw append-nil (partition ps)
  route-complete partition default_encryption false ps = partition ps
  route-complete partition disabled available ps = Perm.refl ps

  route-secret : (ps : List Payload) → (route default_encryption true ps).1 ≡ []
  unfolding route
  route-secret ps = refl

  -- What saving leaves, where `encryptable` was encrypted as `results`.
  pub record IsSaved (ps results encryptable plain : List Payload) (db db' : Database Payload)
      : Type 0 where
    pub removed : db'.removed ≡ db.removed ++ map uuid (split ps).discardable
    pub saved :
        db'.saved
        ≡ db.saved ++ rows_of ((split ps).encrypted ++ results) plain (split ps).deleted ∷ []
    pub complete : Perm (encryptable ++ plain) (split ps).decrypted

  -- Outside an ephemeral session, saving payloads removes the discardable ones from the database
  -- and, where their encryption succeeds, writes one batch: what was encrypted before, the results,
  -- what is not encrypted, and what is deleted. Each decrypted payload is either encrypted or
  -- written as it is, once, and none is written as it is while storage encryption is on and there
  -- is a root key. Where encryption throws, so does saving, and nothing is written.
  pub save_payloads-IsSaved :
      IsPartition
      → (policy : EncryptionPolicy) (available : Bool) (ps : List Payload) (db : Database Payload)
      → (let routes = route policy available (split ps).decrypted in
          let answer = encrypt_split (split_by_type routes.0) in
          let done = save_payloads default_persistence policy available ps db in
          ((results : List Payload)
            → answer ≡ ok results
            → (done.0 ≡ ok done.1) × IsSaved ps results routes.0 routes.1 db done.1)
          × ((e : String) → answer ≡ throw e → (done.0 ≡ throw e) × (done.1.saved ≡ db.saved))
          × (policy ≡ default_encryption → available ≡ true → routes.1 ≡ []))
  unfolding save_payloads delete_payloads
  save_payloads-IsSaved partition policy available ps db = (
    λ results encrypted. (
      rw (save_payloads, encrypted) refl,
      record {
        removed = rw (save_payloads, encrypted) refl;
        saved = rw (save_payloads, encrypted) refl;
        complete = route-complete partition policy available (split ps).decrypted;
      },
    ),
    λ e failed. (rw (save_payloads, failed) refl, rw (save_payloads, failed) refl),
    λ on there. rw (on, there) (route-secret (split ps).decrypted),
  )
