-- ===== src/Cinder/Tests.antt =====
-- The theorems on the methods of the controller server at concrete inputs.
use cloud_provider_openstack.Cinder.Reads.{controller_publish_volume_bounded}
use mathlib.Core.Bool.{false≢true}
use cloud_provider_openstack.Prelude.Maps.{find_entry}
use cloud_provider_openstack.Util.Basic.{round_up_size}
use cloud_provider_openstack.Prelude.{
  arith, true, none, refl, ◌∷◌, some, ◌≡◌, false, List, [], length, ℕ, ◌<◌, ◌*◌, inl, suc, inr,
  zero, ◌+◌, ltb, Bool-cases, if◌then◌else◌, ◌≤◌,
}
use cloud_provider_openstack.Go.{is_ok, ok, poll, pure}
use cloud_provider_openstack.Cinder.Waits.{looks}
use cloud_provider_openstack.Cinder.Volumes.{
  size_of, create_new, create_volume, create_among, get_create_volume_response, check_source,
  availability_of, CreateReply,
}
use cloud_provider_openstack.Cinder.Uniqueness.{
  at_start, Reach-IsUnique, one_more, IsUnique, call_create,
}
use cloud_provider_openstack.Cinder.Store.{GetOrCreate}
use cloud_provider_openstack.Cinder.Samples.{
  test_volume, test-Others, test-Stores, test_driver, test_request, test_cinder, made, attached_to,
  itself, test_snapshot,
}
use cloud_provider_openstack.Cinder.Requests.{
  wait_volume_target_status, get_volumes_by_name, create_volume_request, attach_volume, device_of,
  expand_volume_request, is_attached_to,
}
use cloud_provider_openstack.Cinder.Repeated.{create_volume_repeated}
use cloud_provider_openstack.Cinder.Publishing.{controller_publish_volume_in_time}
use cloud_provider_openstack.Cinder.GetOrCreate.{create_volume-GetOrCreate}
use cloud_provider_openstack.Cinder.Expanding.{
  exactly, asked_gib, controller_expand_volume_over_limit, controller_expand_volume-IsEnough,
  IsEnough,
}
use cloud_provider_openstack.Cinder.Attaching.{
  controller_publish_volume, controller_expand_volume, expand_from,
}
use cloud_provider_openstack.Cinder.Api.{reply, Volume, Reply, gib, Cinder}

abbrev test_world : List Volume
test_world = test_volume ∷ []

abbrev create_test : List Volume → Reply CreateReply × List Volume
create_test = create_volume test_cinder test_driver test_request

two_there : length (create_test test_world).1 ≡ 2
unfolding create_volume create_among create_new create_volume_request size_of round_up_size
    get_volumes_by_name check_source
two_there = refl

create_volume-GetOrCreate_example :
    GetOrCreate test_cinder test_driver itself test_request test_world
      (create_test test_world).0
      (create_test test_world).1
create_volume-GetOrCreate_example =
    create_volume-GetOrCreate test-Stores test_driver test_request test_world refl

abbrev test_reply : CreateReply
test_reply =
    get_create_volume_response
      (made (record {
        name = "pvc-1";
        size = 2;
        volume_type = "ssd";
        availability_zone = "";
        description = "";
        snapshot_id = "";
        source_vol_id = "";
        metadata = [];
      }))
      false none

create_test_answers : (create_test test_world).0 ≡ reply test_reply
unfolding create_volume create_among create_new create_volume_request size_of round_up_size
    get_volumes_by_name check_source get_create_volume_response availability_of find_entry
create_test_answers = refl

listed_again :
    is_ok (get_volumes_by_name test_cinder test_driver "pvc-1" (create_test test_world).1).0 ≡ true
unfolding get_volumes_by_name
listed_again = refl

create_volume_repeated_example :
    ((create_test (create_test test_world).1).0 ≡ reply test_reply)
    × ((create_test (create_test test_world).1).1 ≡ (create_test test_world).1)
create_volume_repeated_example =
    create_volume_repeated test-Stores test_driver test_request refl test_world test_reply
      create_test_answers listed_again

test_world-IsUnique : IsUnique test_world
test_world-IsUnique name = ground arith

abbrev created_twice : List Volume
created_twice = (create_test (create_test test_world).1).1

Reach-IsUnique_example : IsUnique created_twice
Reach-IsUnique_example =
    Reach-IsUnique test-Stores test-Others test_driver refl
      (one_more (one_more at_start (call_create test_request)) (call_create test_request))
      test_world-IsUnique

controller_expand_volume-IsEnough_example :
    IsEnough test_cinder test_driver "vol-1" (exactly 1500000000) test_world 1500000000
unfolding controller_expand_volume expand_from expand_volume_request round_up_size
    wait_volume_target_status poll
controller_expand_volume-IsEnough_example =
    controller_expand_volume-IsEnough test_cinder test_driver "vol-1" (exactly 1500000000)
      test_world 1500000000 refl

-- a Cinder that counts its reads, and shows the attachment from the fourth one on
abbrev slow_state : ℕ → Volume
slow_state n = if ltb n 4 then test_volume else attached_to "server" test_volume

abbrev slow_cinder : Cinder ℕ
slow_cinder = record {
  exponential_backoff = poll;
  block_storage_client = pure tt;
  compute_client = pure tt;
  volumes_create = λ o. pure test_volume;
  volumes_page = λ limit marker. pure ([], "");
  volumes_named = λ new name. pure [];
  volumes_get = λ id n. (ok (slow_state n), suc n);
  volumes_delete = λ id. pure tt;
  volumes_extend = λ new id size. pure tt;
  volume_attach = λ new server id. pure tt;
  volume_detach = λ server id. pure tt;
  servers_get = λ id. pure tt;
  snapshots_create = λ o. pure test_snapshot;
  snapshots_page = λ f. pure ([], "");
  snapshots_get = λ id. pure test_snapshot;
  snapshots_delete = λ id. pure tt;
}

slow_reads : (j n : ℕ) → looks j (slow_cinder.volumes_get "vol-1") n ≡ j + n
slow_reads zero n = omega arith
slow_reads (suc j) n = omega (arith, slow_reads j (suc n))

slow_stays :
    (j : ℕ)
    → is_attached_to "server" (slow_state (j + 2)).attachments ≡ true
    → ((slow_state (suc j + 2)).status ≡ "in-use")
      × (device_of "server" (slow_state (suc j + 2)).attachments ≡ some "/dev/vdb")
unfolding device_of
slow_stays j h = elim (Bool-cases (ltb (j + 2) 4)) [
  | inl early ↦ absurd (false≢true (rw early at h))
  | inr late ↦ let still : ltb (suc j + 2) 4 ≡ false = ground (arith, late) in rw still (refl, refl)
]

controller_publish_volume_in_time_example :
    (controller_publish_volume slow_cinder test_driver "server" "vol-1" true 0).0 ≡ reply "/dev/vdb"
unfolding attach_volume
controller_publish_volume_in_time_example =
    controller_publish_volume_in_time slow_cinder test_driver (λ n c w. refl) "server" "vol-1"
      slow_state (λ u. refl) (λ u. refl) (λ u. refl) (λ b v u. refl) 0 "/dev/vdb" 2 refl refl
      (λ j. rw (slow_reads j 2, slow_reads (suc j) 2) (slow_stays j)) (omega arith) refl

controller_expand_volume_over_limit_example :
    ((controller_expand_volume test_cinder test_driver "vol-1"
        (some (exactly 1500000000))
        test_world).0
      ≡ reply 1500000000)
    × (1500000000 < asked_gib (exactly 1500000000) * gib)
unfolding expand_volume_request round_up_size wait_volume_target_status poll
controller_expand_volume_over_limit_example =
    controller_expand_volume_over_limit test_cinder test_driver "vol-1" 1500000000 test_world
      test_volume refl (omega arith) refl (omega arith) refl refl

controller_publish_volume_bounded_example :
    (controller_publish_volume slow_cinder test_driver "server" "vol-1" true 0).1 ≤ 0 + 18
controller_publish_volume_bounded_example =
    controller_publish_volume_bounded slow_cinder test_driver (λ n. n) (λ n c w. refl)
      (λ id n. omega arith) (λ id n. omega arith) (λ n. omega arith) (λ b server id n. omega arith)
      "server" "vol-1" true 0
