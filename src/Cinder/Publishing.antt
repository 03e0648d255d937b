-- ===== src/Cinder/Publishing.antt =====
-- ControllerPublishVolume of pkg/csi/cinder/controllerserver.go
use cloud_provider_openstack.Prelude.{
  ◌<◌, ◌≡◌, some, String, suc, ℕ, false, Bool, true, ◌==◌, eq_iff, arith, ◌∙◌, ap, refl, zero, inl,
  inr, Bool-cases,
}
use cloud_provider_openstack.Go.{ok, poll, Exec, Result}
use cloud_provider_openstack.Cinder.Waits.{looks, poll_in_time, first_place}
use cloud_provider_openstack.Cinder.Requests.{
  wait_disk_attached, disk_attach_steps, attach_volume, get_attachment_disk_path, device_of,
  sees_attached, disk_is_attached, is_attached_to,
}
use cloud_provider_openstack.Cinder.Attaching.{controller_publish_volume, publish_attached}
use cloud_provider_openstack.Cinder.Api.{Driver, Cinder, reply, Volume, Reply}

module _ {W : Type 0} (cinder : Cinder W) (driver : Driver) where
  -- Behind the request to attach and the wait, both of which succeed, the volume is read once more,
  -- as the last request: it is in use, and attached to the instance with that device.
  abbrev pub IsLastRead : String → String → W → String → W → Type 0
  IsLastRead instance_id id w d end =
      let w2 = (cinder.servers_get instance_id (cinder.volumes_get id w).1).1 in
      let w3 = (attach_volume cinder driver instance_id id w2).1 in
      let w4 = (wait_disk_attached cinder driver instance_id id w3).1 in
      (attached : String) × (v : Volume) × ((attach_volume cinder driver instance_id id w2).0
        ≡ ok attached)
      × ((wait_disk_attached cinder driver instance_id id w3).0 ≡ ok tt)
      × ((cinder.volumes_get id w4).0 ≡ ok v)
      × (v.status ≡ "in-use")
      × (device_of instance_id v.attachments ≡ some d)
      × (end ≡ (cinder.volumes_get id w4).1)

  abbrev WasRead : String → String → W → Reply String × W → Type 0
  WasRead instance_id id w o = (d : String) → o.0 ≡ reply d → IsLastRead instance_id id w d o.1

  abbrev IsPath : String → String → W → Result String × W → Type 0
  IsPath instance_id id u o =
      (d : String)
      → o.0 ≡ ok d
      → (v : Volume) × ((cinder.volumes_get id u).0 ≡ ok v)
        × (v.status ≡ "in-use")
        × (device_of instance_id v.attachments ≡ some d)
        × (o.1 ≡ (cinder.volumes_get id u).1)

module _ {W : Type 0} (cinder : Cinder W) (driver : Driver)
    (polls : (n : ℕ) (c : Exec W Bool) (u : W) → cinder.exponential_backoff n c u ≡ poll n c u)
    (instance_id id : String) (state : W → Volume)
    (reads : (u : W) → (cinder.volumes_get id u).0 ≡ ok (state u))
    (serves : (u : W) → (cinder.servers_get instance_id u).0 ≡ ok tt)
    (has_client : (u : W) → (cinder.compute_client u).0 ≡ ok tt)
    (accepts : (b : Bool) (v : String) (u : W)
      → (cinder.volume_attach b instance_id v u).0 ≡ ok tt) where
  abbrev read : Exec W Volume
  read = cinder.volumes_get id

  abbrev look : Exec W Bool
  look = sees_attached cinder driver instance_id id

  look_reads :
      (u : W) → look u ≡ (ok (is_attached_to instance_id (state u).attachments), (read u).1)
  unfolding disk_is_attached
  look_reads u = rw (reads u) refl

  same_looks : (j : ℕ) (u : W) → looks j look u ≡ looks j read u
  same_looks zero u = refl
  same_looks (suc j) u =
      ap (λ v. looks j look v) (ap (λ o. o.1) (look_reads u)) ∙ same_looks j (read u).1

  attaches : (u : W) → (a : String) × ((attach_volume cinder driver instance_id id u).0 ≡ ok a)
  unfolding attach_volume
  attaches u =
      let v = state u in
      let u' = (read u).1 in
      elim (Bool-cases (is_attached_to instance_id v.attachments)) [
        | inl there ↦ (v.id, rw (reads u) (rw there refl))
        | inr free ↦ elim (Bool-cases v.multiattach) [
          | inl many ↦ (
            v.id,
            rw (reads u) (
                rw free (
                  rw many (
                    rw (has_client u')
                      (rw (accepts true v.id (cinder.compute_client u').1) refl)))),
          )
          | inr one ↦ (v.id, rw (reads u) (rw free (rw one (rw (accepts false v.id u') refl))))
        ]
      ]

  path_found :
      (u : W) (d : String)
      → (state u).status ≡ "in-use"
      → device_of instance_id (state u).attachments ≡ some d
      → (get_attachment_disk_path cinder driver instance_id id u).0 ≡ ok d
  unfolding get_attachment_disk_path
  path_found u d used device =
      ground (arith, reads u, used, device, eq_iff (state u).status "in-use")

  -- Where Cinder and Nova answer every read and take the request to attach, and where an attachment
  -- that shows once shows at the next read with the volume in use and a device: if the attachment
  -- shows at one of the 15 looks of the wait, ControllerPublishVolume succeeds with that device.
  pub controller_publish_volume_in_time :
      (w : W) (d : String) (k : ℕ)
      → (id == "") ≡ false
      → (instance_id == "") ≡ false
      → let start =
          (attach_volume cinder driver instance_id id
            (cinder.servers_get instance_id (cinder.volumes_get id w).1).1).1 in
        ((j : ℕ)
          → is_attached_to instance_id (state (looks j (cinder.volumes_get id) start)).attachments
            ≡ true
          → ((state (looks (suc j) (cinder.volumes_get id) start)).status ≡ "in-use")
            × (device_of instance_id
                  (state (looks (suc j) (cinder.volumes_get id) start)).attachments
                ≡ some d))
        → k < 15
        → is_attached_to instance_id (state (looks k (cinder.volumes_get id) start)).attachments
          ≡ true
        → (controller_publish_volume cinder driver instance_id id true w).0 ≡ reply d
  unfolding controller_publish_volume publish_attached wait_disk_attached
  controller_publish_volume_in_time w d k has_id has_instance stays early shows =
      let w1 = (cinder.volumes_get id w).1 in
      let w2 = (cinder.servers_get instance_id w1).1 in
      let start = (attach_volume cinder driver instance_id id w2).1 in
      let seen : ℕ → Bool =
        λ j. is_attached_to instance_id (state (looks j read start)).attachments in
      let (j, below, at, before) = first_place seen k shows in
      let answer_at : (i : ℕ) → (look (looks i look start)).0 ≡ ok (seen i) = λ i.
        ap (λ u. (look u).0) (same_looks i start)
        ∙ ap (λ o. o.0) (look_reads (looks i read start)) in
      let waited =
        polls disk_attach_steps look start
        ∙ poll_in_time disk_attach_steps j look start (omega (arith, below, early))
            (λ i less. answer_at i ∙ ap ok (before i less)) (answer_at j ∙ ap ok at) in
      let (used, device) = stays j at in
      let path =
        ap (λ u. (get_attachment_disk_path cinder driver instance_id id u).0)
          (same_looks (suc j) start)
        ∙ path_found (looks (suc j) read start) d used device in
      ground (arith, has_id, has_instance, reads w, serves w1, (attaches w2).1, waited, path)
