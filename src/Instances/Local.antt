-- ===== src/Instances/Local.antt =====
-- readInstanceID and OpenStack.InstanceID of pkg/openstack/instances.go: the id of the server that
-- the program runs on.
use cloud_provider_openstack.Prelude.Strings.{codes, Text, trim_space, text_eq}
use cloud_provider_openstack.Prelude.{
  not, [], ◌&&◌, ◌≡◌, false, eqb, if◌then◌else◌, length, Bool, true, refl, arith,
}
use cloud_provider_openstack.Go.{Exec, err, ok, Result, ok-injective}

-- metadata.Get with its UUID, and the file that cloud-init writes
pub record Local (W : Type 0) : Type 0 where
  pub metadata_uuid : Exec W Text
  pub instance_id_file : Exec W Text

abbrev no_datasource : Text
no_datasource = codes "iid-datasource-none"

module _ {W : Type 0} (machine : Local W) where
  -- A text that is no id falls through to `return "", err`, where the error of the file is nil.
  abbrev pub id_in_file : Result Text → Result Text
  id_in_file (err e) = err e
  id_in_file (ok text) =
      let id = trim_space text in
      if not (text_eq id []) && not (text_eq id no_datasource) then ok id else ok []

  unfoldable pub read_instance_id : Exec W Text
  unfolding trim_space text_eq
  read_instance_id w =
      let (r, u) = machine.metadata_uuid w in
      let (file, v) = machine.instance_id_file u in
      elim r [ ok id ↦ (ok id, u) | err e ↦ (id_in_file file, v) ]

  abbrev pub remember : Text → Result Text × W → Result Text × (Text × W)
  remember before (ok id, w) = (ok id, (id, w))
  remember before (err e, w) = (err e, (before, w))

  -- `os.localInstanceID` is kept beside the world.
  unfoldable pub local_instance_id : Exec (Text × W) Text
  unfolding read_instance_id
  local_instance_id (before, w) =
      if eqb (length before) 0
      then remember before (read_instance_id w)
      else (ok before, (before, w))

  remembered :
      (before id : Text) (answer : Result Text × W)
      → (remember before answer).0 ≡ ok id
      → (remember before answer).1.0 ≡ id
  remembered before id (ok found, w) h = ok-injective h
  remembered before id (err e, w) h = absurd (ground (arith, h))

  kept :
      (is_empty : Bool) (before id : Text) (w : W) (answer : Result Text × W)
      → (if◌then◌else◌ {A = Result Text × (Text × W)} is_empty
          (remember before answer)
          (ok before, (before, w))).0
        ≡ ok id
      → (if◌then◌else◌ {A = Result Text × (Text × W)} is_empty
          (remember before answer)
          (ok before, (before, w))).1.0
        ≡ id
  kept true before id w answer h = remembered before id answer h
  kept false before id w answer h = ok-injective h

  -- An id that was answered once, and is not empty, is answered again without a look at the machine.
  pub local_instance_id_again :
      (before : Text) (w : W) (id : Text)
      → eqb (length id) 0 ≡ false
      → (local_instance_id (before, w)).0 ≡ ok id
      → (u : W) → local_instance_id ((local_instance_id (before, w)).1.0, u) ≡ (ok id, (id, u))
  unfolding local_instance_id
  local_instance_id_again before w id some_id h u =
      rw (kept (eqb (length before) 0) before id w (read_instance_id w) h) (rw some_id refl)
