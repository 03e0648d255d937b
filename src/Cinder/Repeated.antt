-- ===== src/Cinder/Repeated.antt =====
-- CreateVolume of pkg/csi/cinder/controllerserver.go, called again.
use cloud_provider_openstack.Cinder.GetOrCreate.{
  create_volume-GetOrCreate, get_volumes_by_name-IsListing,
}
use cloud_provider_openstack.Prelude.{
  ◌≡◌, ◌∷◌, refl, ◌==◌, [], false, true, List, eq_iff, arith, not, eqb_iff, sym, ap, ◌∙◌,
}
use cloud_provider_openstack.Go.{ok, is_ok, is_ok_value, if_rule}
use cloud_provider_openstack.Cinder.Volumes.{
  size_of, CreateReply, create_volume, CreateRequest, get_create_volume_response, create_among,
}
use cloud_provider_openstack.Cinder.Store.{Stores, named, found, GetOrCreate, created}
use cloud_provider_openstack.Cinder.Requests.{get_volumes_by_name}
use cloud_provider_openstack.Cinder.Api.{Driver, Cinder, reply, Volume, refused≢reply}

-- What a success leaves: one volume of the name, of the asked size, and it is the one answered.
GetOrCreate-reply :
    {W : Type 0} {cinder : Cinder W} {driver : Driver} {volumes : W → List Volume}
    {req : CreateRequest} {w : W} {after : List Volume} {r : CreateReply}
    → GetOrCreate cinder driver volumes req w (reply r) after
    → (v : Volume) × (named req.name after ≡ v ∷ [])
      × (v.size ≡ size_of req)
      × (r ≡ get_create_volume_response v driver.ignore_volume_az req.topology)
GetOrCreate-reply (found v l h s) = (v, h, s, refl)
GetOrCreate-reply {req = req} (created v l h s c a) =
    (v, ground (arith, a.0, a.1, h, eq_iff v.name req.name), a.2, refl)

module _ {W : Type 0} {cinder : Cinder W} {volumes : W → List Volume} (l : Stores cinder volumes)
    (driver : Driver) (req : CreateRequest) where
  -- a request that is answered has a name and capabilities
  create_volume_valid :
      (w : W) (r : CreateReply)
      → (create_volume cinder driver req w).0 ≡ reply r
      → ((req.name == "") ≡ false) × (req.has_capabilities ≡ true)
  unfolding create_volume
  create_volume_valid w r h =
      if_rule (λ o. o.0 ≡ reply r → ((req.name == "") ≡ false) × (req.has_capabilities ≡ true))
        (req.name == "") _ _ w (λ e k. absurd (refused≢reply k))
        (λ e.
          if_rule (λ o. o.0 ≡ reply r → ((req.name == "") ≡ false) × (req.has_capabilities ≡ true))
            (not req.has_capabilities) _ _ w (λ bare k. absurd (refused≢reply k))
            (λ able k. (e, ground (arith, able))))
        h

  create_volume_found :
      (w : W) (v : Volume)
      → (req.name == "") ≡ false
      → req.has_capabilities ≡ true
      → (get_volumes_by_name cinder driver req.name w).0 ≡ ok (v ∷ [])
      → v.size ≡ size_of req
      → create_volume cinder driver req w ≡ (
        reply (get_create_volume_response v driver.ignore_volume_az req.topology),
        (get_volumes_by_name cinder driver req.name w).1,
      )
  unfolding create_volume create_among
  create_volume_found w v named_ok able there same =
      ground (arith, named_ok, able, there, same, eqb_iff (size_of req) v.size)

  -- With a list that filters by name, a CreateVolume that succeeded can be called again: when Cinder
  -- answers the list of the name, the second call has the same reply and leaves the volumes as they
  -- are.
  pub create_volume_repeated :
      driver.ignore_volume_microversion ≡ false
      → (w : W) (r : CreateReply) → (create_volume cinder driver req w).0 ≡ reply r
      → let w' = (create_volume cinder driver req w).1 in
        is_ok (get_volumes_by_name cinder driver req.name w').0 ≡ true
        → ((create_volume cinder driver req w').0 ≡ reply r)
          × (volumes (create_volume cinder driver req w').1 ≡ volumes w')
  create_volume_repeated filters w r h answered =
      let w' = (create_volume cinder driver req w).1 in
      let valid = create_volume_valid w r h in
      let outcome = create_volume-GetOrCreate l driver req w filters in
      let once = GetOrCreate-reply (rw h at outcome) in
      let listing = get_volumes_by_name-IsListing l driver filters req.name w' in
      let answered_with = is_ok_value (get_volumes_by_name cinder driver req.name w').0 answered in
      let there = answered_with.1 ∙ ap ok (listing.0 answered_with.0 answered_with.1 ∙ once.1) in
      let again = create_volume_found w' once.0 valid.0 valid.1 there once.2 in
      (ap (λ o. o.0) again ∙ ap reply (sym once.3), ap (λ o. volumes o.1) again ∙ listing.1)
