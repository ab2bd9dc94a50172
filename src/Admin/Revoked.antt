-- ===== src/Admin/Revoked.antt =====
-- What revoking a device does.
use docker_mobile.Base.{
  ◌≡◌, refl, sym, ap, ◌∙◌, ◌≢◌, Option, none, some, List, arith, if◌then◌else◌, Text, ◌==◌, nat_eq,
  text_eq, ==_iff, ==_refl, lookup, lookup-delete, Result, ok, err, split_if,
}
use docker_mobile.Conns.{Registry, open_of, open_count, close_device}
use docker_mobile.State.Dir.{Faults}
use docker_mobile.State.Devices.{Device, Devices, Library, remove}
use docker_mobile.State.Devices.Access.{lookup-remove, remove_failed}
use docker_mobile.Admin.{
  RevokeAnswer, revoked, no_device, not_stored, info_of, close_revoked, handle_revoke,
}

-- How a revocation ends. The device is gone, and with it its requests, and every other device is as it
-- was, with its requests; or there is none; or the removal was not stored, and every device is paired
-- as before and keeps its requests.
pub data Revokes (id : Text) (s : Devices) (c : Registry)
    : Devices × Registry × RevokeAnswer → Type 0 where
  is_revoked :
      {x : Devices × Registry × RevokeAnswer} (d : Device)
      → lookup id s.by_id ≡ some d
      → x.2 ≡ revoked (info_of d) (open_count c id)
      → ((j : Text) → lookup j x.0.by_id ≡ (if id == j then none else lookup j s.by_id))
      → open_count x.1 id ≡ 0
      → ((j : Text) → id ≢ j → open_of x.1 j ≡ open_of c j)
      → Revokes id s c x
  is_unknown :
      {x : Devices × Registry × RevokeAnswer}
      → lookup id s.by_id ≡ none
      → x.2 ≡ no_device
      → x.1 ≡ c
      → ((j : Text) → lookup j x.0.by_id ≡ lookup j s.by_id)
      → Revokes id s c x
  is_kept :
      {x : Devices × Registry × RevokeAnswer} (e : Text)
      → x.2 ≡ not_stored e
      → x.1 ≡ c
      → ((j : Text) → lookup j x.0.by_id ≡ lookup j s.by_id)
      → Revokes id s c x

open_of-close_device :
    (c : Registry) (id j : Text) → id ≢ j → open_of (close_device c id).0 j ≡ open_of c j
unfolding close_device
open_of-close_device c id j ne = ground (arith, lookup-delete id j c.open_requests, ==_iff id j)

open_count-close_device : (c : Registry) (id : Text) → open_count (close_device c id).0 id ≡ 0
unfolding close_device open_count
open_count-close_device c id = ground (arith, lookup-delete id id c.open_requests, ==_refl id)

count-close_device : (c : Registry) (id : Text) → (close_device c id).1 ≡ open_count c id
unfolding close_device open_count
count-close_device c id = refl

still_there :
    (id j : Text) (m : List (Text × Device))
    → lookup id m ≡ none
    → (if id == j then none else lookup j m) ≡ lookup j m
still_there id j m h =
    split_if (λ x. x ≡ lookup j m) (id == j) none (lookup j m)
      (λ e. sym h ∙ ap (λ k. lookup k m) ((==_iff id j).0 e)) (λ e. refl)

close_revoked-Revokes :
    (lib : Library) (os : Faults) (id : Text) (s : Devices) (c : Registry)
    (x : Devices × Result Text (Option Device))
    → remove lib os id s ≡ x
    → Revokes id s c (close_revoked id c x)
unfolding close_revoked
close_revoked-Revokes lib os id s c (s', err e) h =
    is_kept e refl refl
      (λ j. ap (λ y. lookup j y.0.by_id) (sym h) ∙ remove_failed lib os id e j s (ap (λ y. y.1) h))
close_revoked-Revokes lib os id s c (s', ok none) h =
    let k = λ (j : Text). lookup-remove lib os id j none s (ap (λ y. y.1) h) in
    is_unknown (sym (k id).0) refl refl (λ j.
      ap (λ y. lookup j y.0.by_id) (sym h) ∙ (k j).1 ∙ still_there id j s.by_id (sym (k id).0))
close_revoked-Revokes lib os id s c (s', ok (some d)) h =
    let k = λ (j : Text). lookup-remove lib os id j (some d) s (ap (λ y. y.1) h) in
    is_revoked d (sym (k id).0) (ap (revoked (info_of d)) (count-close_device c id))
      (λ j. ap (λ y. lookup j y.0.by_id) (sym h) ∙ (k j).1) (open_count-close_device c id)
      (open_of-close_device c id)

-- `handleRevoke` on every branch: the device and its requests are gone, the answer counts those, and
-- every other device keeps its entry and its requests; or no device has the id, and nothing changes; or
-- the removal was not stored, and every device is paired as before and keeps its requests.
pub handle_revoke-Revokes :
    (lib : Library) (os : Faults) (id : Text) (s : Devices) (c : Registry)
    → Revokes id s c (handle_revoke lib os id s c)
unfolding handle_revoke
handle_revoke-Revokes lib os id s c = close_revoked-Revokes lib os id s c (remove lib os id s) refl
