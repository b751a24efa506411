-- ===== src/Lib.antt =====
-- snjs: the services of the Standard Notes client library, packages/snjs/lib.
--
-- The program. An application owns a set of services. The payload manager holds every item as a
-- payload and tells its observers what changed; the sync service sends what is dirty to the server
-- and applies what comes back; the disk storage service keeps values and payloads on the device,
-- encrypted where it can; the protection service asks the user before protected actions; and the
-- application group chooses which workspace of a device is started. Payloads, encryption, the array
-- functions and the device are other packages (@standardnotes/models, encryption, utils, services):
-- they are parameters, with the documented laws that the code relies on as hypotheses.
--
-- Files and the code that they model:
--   Sync/OpStatus      Services/Sync/SyncOpStatus.ts, the status of a sync and its timing monitor
--   Sync/Response      Services/Sync/Account/Response.ts, Utilities.ts, what the server answers
--   Sync/Operation     Services/Sync/Account/Operation.ts, Signals.ts, the rounds of one operation
--   Sync/Service       Services/Sync/SyncService.ts: locks, queues, deferred requests, spawned syncs
--   Sync/Service/World the same service with calls of `sync` that interleave at their awaits: a call
--                      is a task with the stage where it waits, and a move starts or resumes one
--   Sync/Priority      Services/Sync/Utils.ts, the order in which payloads are loaded
--   Sync/Loading       Services/Sync/SyncService.ts, the loading of the device's payloads in batches
--   Payloads/Manager   Services/Payloads/PayloadManager.ts, Types.ts
--   Protection         Services/Protection/ProtectionService.ts: sessions, factors, biometrics
--   Storage            Services/Storage/DiskStorageService.ts: values, policies, saving of payloads
--   History            Services/History/HistoryManager.ts: entries of notes, and which of them are kept
--   Challenge          Services/Challenge/: the operations that gather a user's answers, and their service
--   Migrations         Version.ts, Migrations/Migration.ts, Services/Migration/MigrationService.ts
--   Items              Services/Items/ItemManager.ts: the hierarchy of tags
--   Singleton          Services/Singleton/SingletonManager.ts, and the deletion of items of ItemManager.ts
--   Features           Services/Features/FeaturesService.ts: roles, statuses, the items of native features
--   User               Services/User/UserService.ts: accounts, passcodes, credentials. A world decides, by what was
--                      called so far, which awaited call throws and which response has an error
--   KeyRecovery        Services/KeyRecovery/KeyRecoveryService.ts: the queue of keys that could not be decrypted
--   ItemGroup          Client/ItemGroupController.ts, the controllers of the open items
--   Group              ApplicationGroup/ApplicationGroup.ts, the descriptors of the workspaces
-- Functions and fields keep the names of the code, in snake case. State is a record that each
-- operation takes and returns; what throws returns a result with the message of the error; events,
-- notifications and calls of the device are logs in the state. Times are seconds or numbers that the
-- caller passes in; seconds on the local clock are added by a function of the environment. A Date that is stored
-- comes back from the device's text as its ISO text. Promises are numbers. The theorems stand in the child modules named for what they
-- prove, and each component has a module Examples with concrete runs.
--
-- Fuel. `run` of an operation takes a number of rounds, and `none` means that they ran out. A round
-- uploads at most 150 payloads, so that one round for every 150 payloads and one for each further page
-- that the server announces are enough. `pop_queue` takes rounds in the same way; it needs one for each queued element
-- and for each that observers add. The loops that follow the parents of a tag take rounds too, and need one
-- for each parent and one more. The queue of key recovery takes one for each key and one for each attempt
-- up to the last that fails; there the user is taken to cancel a request for the passcode, which
-- the code repeats, only finitely often.
--
-- Not modelled: the requests themselves, encryption and keys, the mapping of server payloads into
-- deltas, integrity checks, sessions, the repositories of features, components, the mutation of items
-- other than tags, what each migration changes, and preferences. What is said of interleaving holds for the moves of
-- the sync service; the other services are modelled call by call, so that writes to the device which
-- overlap are not.
pub mod Challenge
pub mod Features
pub mod Group
pub mod History
pub mod ItemGroup
pub mod Items
pub mod KeyRecovery
pub mod Migrations
pub mod Payloads
pub mod Prelude
pub mod Protection
pub mod Samples
pub mod Singleton
pub mod Storage
pub mod Sync
pub mod User
