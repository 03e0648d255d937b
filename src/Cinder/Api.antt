-- ===== src/Cinder/Api.antt =====
-- The data of pkg/csi/cinder and the requests that it makes. Cinder and Nova are the parameter
-- `Cinder`. Sizes are not negative, and a size in bytes stays below 2^63.
use cloud_provider_openstack.Prelude.Int.{ℤ}
use cloud_provider_openstack.Prelude.{◌≡◌, ℕ, Bool, List, refl, String, arith}
use cloud_provider_openstack.Go.{not_found, Exec, ok, Error, err, Result}

-- volumes.Attachment and volumes.Volume
pub record Attachment : Type 0 where
  pub server_id : String
  pub device : String

pub record Volume : Type 0 where
  pub id : String
  pub name : String
  pub size : ℕ
  pub status : String
  pub availability_zone : String
  pub snapshot_id : String
  pub source_vol_id : String
  pub multiattach : Bool
  pub attachments : List Attachment

-- snapshots.Snapshot, without its time
pub record Snapshot : Type 0 where
  pub id : String
  pub name : String
  pub volume_id : String
  pub size : ℕ
  pub status : String

-- volumes.CreateOpts
pub record VolumeCreate : Type 0 where
  pub name : String
  pub size : ℕ
  pub volume_type : String
  pub availability_zone : String
  pub description : String
  pub snapshot_id : String
  pub source_vol_id : String
  pub metadata : List (String × String)

-- snapshots.CreateOpts
pub record SnapshotCreate : Type 0 where
  pub volume_id : String
  pub name : String
  pub description : String
  pub force : Bool
  pub metadata : List (String × String)

-- snapshots.ListOpts; an empty text is no filter, and a limit of 0 no limit.
pub record SnapshotFilter : Type 0 where
  pub name : String
  pub status : String
  pub volume_id : String
  pub limit : ℤ
  pub marker : String

-- A request that takes a flag is made with a newer microversion if the flag is set. A list of pages
-- is its first page with the marker of the next one, which is empty at the end.
pub record Cinder (W : Type 0) : Type 0 where
  -- wait.ExponentialBackoff of so many steps
  pub exponential_backoff : ℕ → Exec W Bool → Exec W Unit
  pub block_storage_client : Exec W Unit
  pub compute_client : Exec W Unit
  pub volumes_create : VolumeCreate → Exec W Volume
  pub volumes_page : ℤ → String → Exec W (List Volume × String)
  pub volumes_named : Bool → String → Exec W (List Volume)
  pub volumes_get : String → Exec W Volume
  pub volumes_delete : String → Exec W Unit
  pub volumes_extend : Bool → String → ℕ → Exec W Unit
  pub volume_attach : Bool → String → String → Exec W Unit
  pub volume_detach : String → String → Exec W Unit
  pub servers_get : String → Exec W Unit
  pub snapshots_create : SnapshotCreate → Exec W Snapshot
  pub snapshots_page : SnapshotFilter → Exec W (List Snapshot × String)
  pub snapshots_get : String → Exec W Snapshot
  pub snapshots_delete : String → Exec W Unit

-- the options of the driver that are read: BlockStorageOpts, and the driver's cluster and mode
pub record Driver : Type 0 where
  pub cluster : String
  pub ignore_volume_az : Bool
  pub ignore_volume_microversion : Bool
  pub access_mode : ℕ

-- codes.Code of gRPC
pub data Code : Type 0 where
  code_invalid_argument code_already_exists code_not_found : Code
  code_internal code_aborted code_out_of_range code_unimplemented : Code

-- What a method of a server answers.
pub data Reply (A : Type 0) : Type 0 where
  reply : A → Reply A
  refused : Code → Reply A

pub refused≢reply : {A : Type 0} {c : Code} {a : A} → ¬ (refused c ≡ reply a)
refused≢reply h = absurd (ground (arith, h))

abbrev pub Call : Type 0 → Type 0 → Type 0
Call W A = W → Reply A × W

module _ {W : Type 0} {A : Type 0} where
  abbrev pub answer : A → Call W A
  answer a w = (reply a, w)

  abbrev pub refuse : Code → Call W A
  refuse c w = (refused c, w)

module _ {W : Type 0} {A B : Type 0} where
  abbrev pub on_result : Result A → (Error → Call W B) → (A → Call W B) → Call W B
  on_result (ok a) bad good = good a
  on_result (err e) bad good = bad e

  -- a request, and what follows its error or its result
  abbrev pub ask : Exec W A → (Error → Call W B) → (A → Call W B) → Call W B
  ask m bad good w = let (r, w') = m w in on_result r bad good w'

  -- A postcondition of `ask` follows from one for each answer.
  pub ask_rule :
      (Q : Reply B × W → Type 0) (m : Exec W A) (bad : Error → Call W B) (good : A → Call W B)
      (w : W)
      → ((a : A) → (m w).0 ≡ ok a → Q (good a (m w).1))
      → ((e : Error) → (m w).0 ≡ err e → Q (bad e (m w).1))
      → Q (ask m bad good w)
  ask_rule Q m bad good w h k = by_answer (m w).0 h k
    where
      by_answer :
          (r : Result A)
          → ((a : A) → r ≡ ok a → Q (good a (m w).1))
          → ((e : Error) → r ≡ err e → Q (bad e (m w).1))
          → Q (on_result r bad good (m w).1)
      by_answer (ok a) h k = h a refl
      by_answer (err e) h k = k e refl

-- `if cpoerrors.IsNotFound(err) { NotFound } ; Internal`
abbrev pub missing_or_internal : Error → Code
missing_or_internal not_found = code_not_found
missing_or_internal _ = code_internal

-- 1024 * 1024 * 1024
abbrev pub gib : ℕ
gib = 1073741824
