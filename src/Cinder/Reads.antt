-- ===== src/Cinder/Reads.antt =====
-- How often ControllerPublishVolume of pkg/csi/cinder/controllerserver.go reads a volume.
use cloud_provider_openstack.Prelude.{
  zero, arith, Option, ◌≡◌, Bool, some, ◌==◌, ◌+◌, suc, ◌≤◌, true, none, false, not, String, ℕ,
  if◌then◌else◌,
}
use cloud_provider_openstack.Go.{
  pure, poll, Exec, ◌>>=◌, Error, bind_rule, if_rule, message, reworded,
}
use cloud_provider_openstack.Cinder.Requests.{
  sees_attached, is_attached_to, device_of, disk_is_attached, get_attachment_disk_path,
  or_not_attached, wait_disk_attached, attach_volume,
}
use cloud_provider_openstack.Cinder.Attaching.{controller_publish_volume, publish_attached}
use cloud_provider_openstack.Cinder.Api.{
  missing_or_internal, ask, Cinder, Call, ask_rule, Code, code_invalid_argument, Driver,
  code_internal, refuse,
}

-- A call adds at most so many to a count that is kept in the world.
abbrev pub AddsAtMost : {W X : Type 0} → (W → ℕ) → ℕ → (W → X × W) → Type 0
AddsAtMost {W = W} count n m = (w : W) → count (m w).1 ≤ count w + n

module _ {W : Type 0} (count : W → ℕ) where
  adds_bind :
      {A B : Type 0} (a b : ℕ) (m : Exec W A) (f : A → Exec W B)
      → AddsAtMost count a m
      → ((x : A) → AddsAtMost count b (f x))
      → AddsAtMost count (a + b) (m >>= f)
  adds_bind a b m f hm hf w =
      bind_rule (λ o. count o.1 ≤ count w + (a + b)) m f w
        (λ x h. omega (arith, hm w, hf x (m w).1)) (λ e. omega (arith, hm w))

  adds_ask :
      {A B : Type 0} (a b : ℕ) (m : Exec W A) (bad : Error → Call W B) (good : A → Call W B)
      → AddsAtMost count a m
      → ((e : Error) → AddsAtMost count 0 (bad e))
      → ((x : A) → AddsAtMost count b (good x))
      → AddsAtMost count (a + b) (ask m bad good)
  adds_ask a b m bad good hm hbad hgood w =
      ask_rule (λ o. count o.1 ≤ count w + (a + b)) m bad good w
        (λ x h. omega (arith, hm w, hgood x (m w).1)) (λ e h. omega (arith, hm w, hbad e (m w).1))

  adds_if :
      {X : Type 0} (n : ℕ) (b : Bool) (x y : W → X × W)
      → AddsAtMost count n x
      → AddsAtMost count n y
      → AddsAtMost count n (if b then x else y)
  adds_if n true x y hx hy = hx
  adds_if n false x y hx hy = hy

  adds_poll : (n : ℕ) (c : Exec W Bool) → AddsAtMost count 1 c → AddsAtMost count n (poll n c)
  unfolding poll
  adds_poll zero c h w = omega arith
  adds_poll (suc n) c h w =
      bind_rule (λ o. count o.1 ≤ count w + suc n) c _ w
        (λ done k.
          if_rule (λ o. count o.1 ≤ count w + suc n) done _ _ (c w).1 (λ _. omega (arith, h w))
            (λ _. omega (arith, h w, adds_poll n c h (c w).1)))
        (λ e. omega (arith, h w))

module _ {W : Type 0} (cinder : Cinder W) (driver : Driver) (count : W → ℕ)
    (polls : (n : ℕ) (c : Exec W Bool) (u : W) → cinder.exponential_backoff n c u ≡ poll n c u)
    (counts : (id : String) → AddsAtMost count 1 (cinder.volumes_get id))
    (servers : (id : String) → AddsAtMost count 0 (cinder.servers_get id))
    (client : AddsAtMost count 0 cinder.compute_client)
    (attaches : (b : Bool) (server id : String)
      → AddsAtMost count 0 (cinder.volume_attach b server id)) where
  adds_attached :
      (instance_id id : String) → AddsAtMost count 1 (disk_is_attached cinder driver instance_id id)
  unfolding disk_is_attached
  adds_attached instance_id id =
      adds_bind count 1 0 (cinder.volumes_get id) _ (counts id) (λ v w. omega arith)

  adds_wait :
      (instance_id id : String)
      → AddsAtMost count 15 (wait_disk_attached cinder driver instance_id id)
  unfolding wait_disk_attached
  adds_wait instance_id id w =
      let look = sees_attached cinder driver instance_id id in
      rw (polls 15 look w) (adds_poll count 15 look (adds_attached instance_id id) w)

  adds_attach :
      (instance_id id : String) → AddsAtMost count 1 (attach_volume cinder driver instance_id id)
  unfolding attach_volume
  adds_attach instance_id id = adds_bind count 1 0 (cinder.volumes_get id) _ (counts id) (λ v.
      adds_if count 0 (is_attached_to instance_id v.attachments) _ _ (λ w. omega arith)
        (adds_bind count 0 0 (if v.multiattach then cinder.compute_client else pure tt) _
          (adds_if count 0 v.multiattach cinder.compute_client (pure tt) client (λ w. omega arith))
          (λ t.
            adds_bind count 0 0
              (reworded (message "failed to attach volume to compute")
                (cinder.volume_attach v.multiattach instance_id v.id))
              (λ _. pure v.id) (attaches v.multiattach instance_id v.id) (λ a w. omega arith))))

  adds_path :
      (instance_id id : String)
      → AddsAtMost count 1 (get_attachment_disk_path cinder driver instance_id id)
  unfolding get_attachment_disk_path
  adds_path instance_id id = adds_bind count 1 0 (cinder.volumes_get id) _ (counts id) (λ v.
      adds_if count 0 (not (v.status == "in-use")) _ _ (λ w. omega arith)
        (found_or_not (device_of instance_id v.attachments)))
    where
      found_or_not : (o : Option String) → AddsAtMost count 0 (or_not_attached cinder driver o)
      found_or_not none = λ w. omega arith
      found_or_not (some d) = λ w. omega arith

  -- If wait.ExponentialBackoff asks its condition at most as often as its steps say, a
  -- ControllerPublishVolume ends after at most 18 reads of the volume, whatever the answers are: one
  -- at its start, one for the request to attach, 15 in the wait, and one for the device.
  pub controller_publish_volume_bounded :
      (instance_id id : String) (able : Bool) (w : W)
      → count (controller_publish_volume cinder driver instance_id id able w).1 ≤ count w + 18
  unfolding controller_publish_volume publish_attached
  controller_publish_volume_bounded instance_id id able =
      let refusal : (c : Code) → AddsAtMost count 18 (refuse {W = W} {A = String} c) =
        λ c w. omega arith in
      let none_more : (c : Code) → AddsAtMost count 0 (refuse {W = W} {A = String} c) =
        λ c w. omega arith in
      adds_if count 18 (id == "") _ _ (refusal code_invalid_argument) (
        adds_if count 18 (instance_id == "") _ _ (refusal code_invalid_argument) (
          adds_if count 18 (not able) _ _ (refusal code_invalid_argument) (
            adds_ask count 1 17 (cinder.volumes_get id) _ _ (counts id)
              (λ e. none_more (missing_or_internal e))
              (λ v.
                adds_ask count 0 17 (cinder.servers_get instance_id) _ _ (servers instance_id)
                  (λ e. none_more (missing_or_internal e))
                  (λ s.
                    adds_ask count 1 16 (attach_volume cinder driver instance_id id) _ _
                      (adds_attach instance_id id) (λ e. none_more code_internal)
                      (λ a.
                        adds_ask count 15 1 (wait_disk_attached cinder driver instance_id id) _ _
                          (adds_wait instance_id id) (λ e. none_more code_internal)
                          (λ t.
                            adds_ask count 1 0
                              (get_attachment_disk_path cinder driver instance_id id) _ _
                              (adds_path instance_id id) (λ e. none_more code_internal)
                              (λ d w. omega arith))))))))
