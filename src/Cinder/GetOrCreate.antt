-- ===== src/Cinder/GetOrCreate.antt =====
-- CreateVolume of pkg/csi/cinder/controllerserver.go, against its specification.
use mathlib.Core.Path.{subst}
use cloud_provider_openstack.Prelude.Maps.{get_header}
use cloud_provider_openstack.Prelude.{
  inr, inl, sym, [], arith, some, none, ◌≡◌, ◌∷◌, List, ◌⊎◌, false, refl, Option, eqb, eqb_iff,
  Bool-cases, String, eq_iff, ◌∙◌, ◌==◌, not, ◌≢◌, ap,
}
use cloud_provider_openstack.Go.{not_found, Error, ok, Result, bind_rule, if_rule}
use cloud_provider_openstack.Cinder.Volumes.{
  volume_tags, CreateReply, check_source, cluster_key, pick, source_vol_id_of, Source, size_of,
  snapshot_id_of, create_new, create_volume, availability_of, from_volume, from_snapshot,
  create_among, CreateRequest,
}
use cloud_provider_openstack.Cinder.Store.{
  Stores, named, GetOrCreate, clash, ambiguous, create_failed, created, invalid, found, first_list,
  IsSourceThere, source_world, unlisted, IsListed, source_failed, SourceFails, source_missing,
  IsValid,
}
use cloud_provider_openstack.Cinder.Requests.{create_volume_request, get_volumes_by_name}
use cloud_provider_openstack.Cinder.Api.{
  missing_or_internal, ask_rule, code_internal, Volume, refuse, Reply, Driver, Cinder, Call,
}

missing_or_internal_cases :
    (e : Error) → (e ≡ not_found) ⊎ ((e ≢ not_found) × (missing_or_internal e ≡ code_internal))
missing_or_internal_cases e =
    elim e as (λ k. (k ≡ not_found) ⊎ ((k ≢ not_found) × (missing_or_internal k ≡ code_internal))) [
      | not_found ↦ inl refl
      | _ ↦ inr ((λ h. absurd (ground (arith, h))), refl)
    ]

module _ {W : Type 0} {cinder : Cinder W} {volumes : W → List Volume} (l : Stores cinder volumes)
    (driver : Driver) where
  -- What the list by name does: it has the volumes of the name, and keeps them.
  abbrev pub IsListing : String → W → Result (List Volume) × W → Type 0
  IsListing name w o =
      ((vs : List Volume) → o.0 ≡ ok vs → vs ≡ named name (volumes w)) × (volumes o.1 ≡ volumes w)

  pub get_volumes_by_name-IsListing :
      driver.ignore_volume_microversion ≡ false
      → (name : String) (w : W) → IsListing name w (get_volumes_by_name cinder driver name w)
  unfolding get_volumes_by_name
  get_volumes_by_name-IsListing filters name w = rw filters (
      bind_rule (IsListing name w) cinder.block_storage_client _ w
        (λ a h.
          let u = (cinder.block_storage_client w).1 in
          (
            λ vs e. rw (← l.client_keeps w) (l.lists name u vs e),
            l.list_keeps name u ∙ l.client_keeps w,
          ))
        (λ e. (λ vs h. ground (arith, h), l.client_keeps w)))

  module _ (req : CreateRequest) (w : W) where
    abbrev Kept : Reply CreateReply × W → Type 0
    Kept o = GetOrCreate cinder driver volumes req w o.0 (volumes o.1)

    abbrev list : Result (List Volume) × W
    list = first_list cinder driver volumes req w

    -- The check of the source goes on where it is there, and else refuses.
    check_source_rule :
        (Q : Reply CreateReply × W → Type 0) (s : Option Source) (next : Call W CreateReply)
        → (IsSourceThere cinder driver volumes req w s
            → Q (next (source_world cinder driver volumes req w s)))
        → ((e : Error)
            → SourceFails cinder driver volumes req w s e
            → Q (refuse (missing_or_internal e) (source_world cinder driver volumes req w s)))
        → Q (check_source cinder driver s next list.1)
    unfolding check_source
    check_source_rule Q none next good bad = good tt
    check_source_rule Q (some (from_snapshot id)) next good bad =
        ask_rule Q (cinder.snapshots_get id) _ (λ _. next) list.1 (λ a h. good (a, h)) bad
    check_source_rule Q (some (from_volume id)) next good bad =
        ask_rule Q (cinder.volumes_get id) _ (λ _. next) list.1 (λ a h. good (a, h)) bad

    source_keeps :
        (s : Option Source)
        → volumes list.1 ≡ volumes w
        → volumes (source_world cinder driver volumes req w s) ≡ volumes w
    source_keeps none same = same
    source_keeps (some (from_snapshot id)) same = l.snapshot_keeps id list.1 ∙ same
    source_keeps (some (from_volume id)) same = l.get_keeps id list.1 ∙ same

    refused_source :
        (e : Error) (u : W)
        → IsListed cinder driver volumes req w
        → named req.name (volumes w) ≡ []
        → SourceFails cinder driver volumes req w req.source e
        → volumes u ≡ volumes w
        → Kept (refuse (missing_or_internal e) u)
    refused_source e u there fresh fails same = elim (missing_or_internal_cases e) [
      | inl gone ↦ rw gone (
          rw same (
            source_missing there fresh
              (subst (SourceFails cinder driver volumes req w req.source) gone fails)))
      | inr (other, code) ↦ rw code (rw same (source_failed e there fresh other fails))
    ]

    create_new-GetOrCreate :
        IsListed cinder driver volumes req w
        → volumes list.1 ≡ volumes w
        → named req.name (volumes w) ≡ []
        → Kept (create_new cinder driver req list.1)
    unfolding create_new create_volume_request
    create_new-GetOrCreate there same fresh =
        let start = source_world cinder driver volumes req w req.source in
        let kept = source_keeps req.source same in
        check_source_rule Kept req.source _
          (λ source.
            ask_rule Kept
              (create_volume_request cinder driver req.name (size_of req)
                (get_header "type" req.parameters) (availability_of req) (snapshot_id_of req.source)
                (source_vol_id_of req.source)
                ((cluster_key, driver.cluster) ∷ pick volume_tags req.parameters))
              _ _ start
              (λ v h. created v there fresh source h (rw (← kept) (l.creates _ start v h)))
              (λ e h.
                create_failed e there fresh source h (rw (← kept) (l.create_fails _ start e h))))
          (λ e fails. refused_source e start there fresh fails kept)

    create_among-GetOrCreate :
        (vs : List Volume)
        → IsListed cinder driver volumes req w
        → volumes list.1 ≡ volumes w
        → named req.name (volumes w) ≡ vs
        → Kept (create_among cinder driver req vs list.1)
    unfolding create_among
    create_among-GetOrCreate [] there same h = create_new-GetOrCreate there same h
    create_among-GetOrCreate (v ∷ []) there same h = elim (Bool-cases (eqb (size_of req) v.size)) [
      | inl e ↦ rw e (rw same (found v there h (sym ((eqb_iff (size_of req) v.size).0 e))))
      | inr e ↦ rw e (
          rw same (
            clash v there h
              (λ equal. absurd (ground (arith, equal, e, eqb_iff (size_of req) v.size)))))
    ]
    create_among-GetOrCreate (v ∷ u ∷ more) there same h = rw same (ambiguous v u more there h)

    -- With a list that filters by name, CreateVolume looks a volume up by its name or makes it: it
    -- answers the one volume of the name if its size is the asked one rounded up, and makes one of
    -- that name and size if there is none. Else it refuses: a request without a name or capabilities
    -- as invalid, another size as already existing, a source that is missing as not found, and
    -- several volumes of the name, or a list, a source or a creation that fail, as internal. Only a
    -- creation that fails may leave a new volume.
    pub create_volume-GetOrCreate :
        driver.ignore_volume_microversion ≡ false
        → GetOrCreate cinder driver volumes req w
            (create_volume cinder driver req w).0
            (volumes (create_volume cinder driver req w).1)
    unfolding create_volume get_volumes_by_name
    create_volume-GetOrCreate filters =
        let (lists, same) = get_volumes_by_name-IsListing filters req.name w in
        if_rule Kept (req.name == "") _ _ w (λ e. invalid (inl ((eq_iff req.name "").0 e)))
          (λ has_name.
            if_rule Kept (not req.has_capabilities) _ _ w
              (λ bare. invalid (inr (ground (arith, bare))))
              (λ able.
                let named_ok : req.name ≢ "" =
                  λ e. absurd (ground (arith, has_name, (eq_iff req.name "").1 e)) in
                let valid : IsValid cinder driver volumes req w =
                  (named_ok, ground (arith, able)) in
                ask_rule Kept (get_volumes_by_name cinder driver req.name) _ _ w
                  (λ vs h.
                    let these = lists vs h in
                    create_among-GetOrCreate vs (valid, h ∙ ap ok these) same (sym these))
                  (λ e h. rw same (unlisted e valid h))))
