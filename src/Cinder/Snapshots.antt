-- ===== src/Cinder/Snapshots.antt =====
-- The methods of the controller server on snapshots, of pkg/csi/cinder/controllerserver.go. The times
-- of creation are left out; they are valid in what Cinder answers.
use cloud_provider_openstack.Prelude.Int.{pos, ℤ}
use cloud_provider_openstack.Prelude.{
  ℕ, not, true, Bool, List, ◌∷◌, ◌==◌, map, [], ◌*◌, String, if◌then◌else◌,
}
use cloud_provider_openstack.Go.{not_found, Error}
use cloud_provider_openstack.Cinder.Volumes.{pick, cluster_key, done_if_missing}
use cloud_provider_openstack.Cinder.Requests.{wait_snapshot_ready, create_snapshot_request}
use cloud_provider_openstack.Cinder.Api.{
  Call, code_invalid_argument, code_already_exists, Snapshot, refuse, code_internal, ask, Cinder,
  Driver, SnapshotFilter, answer, gib,
}

-- csi.Snapshot
pub record SnapshotReply : Type 0 where
  pub snapshot_id : String
  pub size_bytes : ℕ
  pub source_volume_id : String
  pub ready_to_use : Bool

abbrev pub ready_reply : Snapshot → SnapshotReply
ready_reply s = record {
  snapshot_id = s.id;
  size_bytes = s.size * gib;
  source_volume_id = s.volume_id;
  ready_to_use = true;
}

abbrev pub no_filter : SnapshotFilter
no_filter = record { name = ""; status = ""; volume_id = ""; limit = pos 0; marker = "" }

abbrev pub snapshot_tags : List String
snapshot_tags =
    "csi.storage.k8s.io/volumesnapshot/name" ∷ "csi.storage.k8s.io/volumesnapshot/namespace"
    ∷ "csi.storage.k8s.io/volumesnapshotcontent/name" ∷ "force-create" ∷ []

-- with the id of a volume the page's limit and marker are left out
abbrev pub filter_for : String → ℤ → String → SnapshotFilter
filter_for source_volume_id max_entries starting_token =
    if not (source_volume_id == "")
    then record no_filter { status = "available"; volume_id = source_volume_id }
    else record no_filter { status = "available"; limit = max_entries; marker = starting_token }

module _ {W : Type 0} (cinder : Cinder W) (driver : Driver) where
  unfoldable pub when_ready : Snapshot → Call W SnapshotReply
  unfolding wait_snapshot_ready
  when_ready snap =
      ask (wait_snapshot_ready cinder driver snap.id) (λ e. refuse code_internal)
        (λ _. answer (ready_reply snap))

  -- what is there under the name decides
  unfoldable pub snapshot_among :
      String → String → List (String × String) → List Snapshot → Call W SnapshotReply
  unfolding when_ready create_snapshot_request pick
  snapshot_among name volume_id parameters [] =
      ask
        (create_snapshot_request cinder driver name volume_id
          ((cluster_key, driver.cluster) ∷ pick snapshot_tags parameters))
        (λ e. refuse code_internal) when_ready
  snapshot_among name volume_id parameters (snap ∷ []) =
      if not (snap.volume_id == volume_id) then refuse code_already_exists else when_ready snap
  snapshot_among name volume_id parameters (snap ∷ other ∷ more) = refuse code_internal

  unfoldable pub create_snapshot : String → String → List (String × String) → Call W SnapshotReply
  unfolding snapshot_among
  create_snapshot name volume_id parameters =
      if name == ""
      then refuse code_invalid_argument
      else if volume_id == ""
      then refuse code_invalid_argument
      else ask (cinder.snapshots_page (record no_filter { name = name }))
          (λ e. refuse code_internal) (λ page. snapshot_among name volume_id parameters page.0)

  unfoldable pub delete_snapshot : String → Call W Unit
  delete_snapshot id =
      if id == ""
      then refuse code_invalid_argument
      else ask (cinder.snapshots_delete id) done_if_missing answer

  abbrev pub no_snapshots : Error → Call W (List SnapshotReply × String)
  no_snapshots not_found = answer ([], "")
  no_snapshots _ = refuse code_internal

  unfoldable pub list_snapshots :
      String → String → ℤ → String → Call W (List SnapshotReply × String)
  list_snapshots snapshot_id source_volume_id max_entries starting_token =
      if not (snapshot_id == "")
      then ask (cinder.snapshots_get snapshot_id) no_snapshots
          (λ snap. answer (ready_reply snap ∷ [], ""))
      else ask (cinder.snapshots_page (filter_for source_volume_id max_entries starting_token))
          (λ e. refuse code_internal) (λ page. answer (map ready_reply page.0, page.1))
