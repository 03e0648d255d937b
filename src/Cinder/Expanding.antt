-- ===== src/Cinder/Expanding.antt =====
-- ControllerExpandVolume of pkg/csi/cinder/controllerserver.go
use native.Mathlib.Nat.{div-add-mod', mod-lt}
use cloud_provider_openstack.Util.Basic.{round_up_size, round_up_size-least}
use cloud_provider_openstack.Prelude.{
  false, ◌≡◌, true, ◌<◌, ◌≤◌, ◌*◌, some, ◌⊎◌, ◌&&◌, ◌==◌, String, ℕ, ltb, leb, ap, inr, arith, ◌%◌,
  inl,
}
use cloud_provider_openstack.Go.{ok, is_ok, if_rule}
use cloud_provider_openstack.Cinder.Requests.{wait_volume_target_status, expand_volume_request}
use cloud_provider_openstack.Cinder.Attaching.{
  target_status, expand_from, controller_expand_volume, CapacityRange,
}
use cloud_provider_openstack.Cinder.Api.{
  reply, Driver, Reply, ask_rule, refused≢reply, Cinder, gib, Volume,
}

abbrev pub asked_gib : CapacityRange → ℕ
unfolding round_up_size
asked_gib range = round_up_size range.required_bytes gib

gib_positive : 0 < gib
gib_positive = omega arith

-- the bytes, and no more
abbrev pub exactly : ℕ → CapacityRange
exactly bytes = record { required_bytes = bytes; limit_bytes = bytes }

above : (bytes : ℕ) → 0 < bytes % gib → bytes < asked_gib (exactly bytes) * gib
unfolding round_up_size
above bytes rest =
    let parts = div-add-mod' bytes gib in
    let below = mod-lt bytes gib_positive in
    let more : ltb 0 (bytes % gib) ≡ true = ground (arith, rest) in
    rw more (omega (arith, parts, below, rest))

module _ {W : Type 0} (cinder : Cinder W) (driver : Driver) where
  -- The capacity was there, or a request to extend to the least size that holds it was taken.
  abbrev pub IsEnough : String → CapacityRange → W → ℕ → Type 0
  IsEnough id range w c =
      let w1 = (cinder.volumes_get id w).1 in
      let size = asked_gib range in
      (range.required_bytes ≤ c)
      × (v : Volume) × ((cinder.volumes_get id w).0 ≡ ok v)
      × (((size ≤ v.size) × (c ≡ v.size * gib))
          ⊎ ((c ≡ range.required_bytes)
              × (v.size < size)
              × (is_ok (expand_volume_request cinder driver id v.status size w1).0 ≡ true)))

  abbrev WasExpanded : String → CapacityRange → W → Reply ℕ × W → Type 0
  WasExpanded id range w o = (c : ℕ) → o.0 ≡ reply c → IsEnough id range w c

  controller_expand_volume-WasExpanded :
      (id : String) (range : CapacityRange) (w : W)
      → WasExpanded id range w (controller_expand_volume cinder driver id (some range) w)
  unfolding controller_expand_volume expand_from
  controller_expand_volume-WasExpanded id range w =
      let Q = WasExpanded id range w in
      let w1 = (cinder.volumes_get id w).1 in
      let size = asked_gib range in
      let request = (λ (v : Volume). expand_volume_request cinder driver id v.status size) in
      let wait = wait_volume_target_status cinder driver id target_status in
      if_rule Q (id == "") _ _ w (λ _ c k. absurd (refused≢reply k))
        (λ _.
          if_rule Q (ltb 0 range.limit_bytes && ltb range.limit_bytes range.required_bytes) _ _ w
            (λ _ c k. absurd (refused≢reply k))
            (λ _.
              ask_rule Q (cinder.volumes_get id) _ _ w
                (λ v h.
                  if_rule Q (leb size v.size) _ _ w1
                    (λ e c k.
                      let big : size ≤ v.size = ground (arith, e) in
                      let least = round_up_size-least range.required_bytes gib gib_positive in
                      let same : c ≡ v.size * gib = ground (arith, k) in
                      (omega (arith, least.0, big, same), v, h, inl (big, same)))
                    (λ e.
                      ask_rule Q (request v) _ _ w1
                        (λ t g.
                          ask_rule Q wait _ _ (request v w1).1
                            (λ t f c k.
                              let same : c ≡ range.required_bytes = ground (arith, k) in
                              (
                                omega (arith, same),
                                v,
                                h,
                                inr (same, ground (arith, e), ap is_ok g),
                              ))
                            (λ e f c k. absurd (refused≢reply k)))
                        (λ e g c k. absurd (refused≢reply k))))
                (λ e h c k. absurd (refused≢reply k))))

  -- A ControllerExpandVolume that succeeds answers at least the required bytes; either the volume
  -- that was read had the size already, or Cinder took the request to extend it to the required
  -- bytes rounded up to whole GiB.
  pub controller_expand_volume-IsEnough :
      (id : String) (range : CapacityRange) (w : W) (c : ℕ)
      → (controller_expand_volume cinder driver id (some range) w).0 ≡ reply c
      → IsEnough id range w c
  controller_expand_volume-IsEnough = controller_expand_volume-WasExpanded

  -- The limit of the range is compared with the bytes before they are rounded up: with bytes that
  -- are no whole GiB, and are the limit too, the size that Cinder is asked for is above the limit,
  -- and if it takes the request and the wait ends well, the reply says the bytes.
  pub controller_expand_volume_over_limit :
      (id : String) (bytes : ℕ) (w : W) (v : Volume)
      → (id == "") ≡ false
      → 0 < bytes % gib
      → (cinder.volumes_get id w).0 ≡ ok v
      → v.size < asked_gib (exactly bytes)
      → let w1 = (cinder.volumes_get id w).1 in
        let request = expand_volume_request cinder driver id v.status (asked_gib (exactly bytes)) in
        (request w1).0 ≡ ok tt
        → (wait_volume_target_status cinder driver id target_status (request w1).1).0 ≡ ok tt
        → ((controller_expand_volume cinder driver id (some (exactly bytes)) w).0 ≡ reply bytes)
          × ((exactly bytes).limit_bytes < asked_gib (exactly bytes) * gib)
  unfolding controller_expand_volume expand_from
  controller_expand_volume_over_limit id bytes w v has_id rest there smaller taken waited =
      let range = exactly bytes in
      let small : leb (asked_gib range) v.size ≡ false = ground (arith, smaller) in
      let fits : (ltb 0 bytes && ltb bytes bytes) ≡ false = ground arith in
      (ground (arith, has_id, fits, there, small, taken, waited), above bytes rest)
