-- ===== src/Command.antt =====
-- agent/cmd/agent/admin_commands.go and commands.go: what the commands say, and how they end.
pub mod Told
mod Tests
use docker_mobile.Base.{
  ℕ, ◌+◌, ◌-◌, ◌/◌, Bool, true, false, ◌&&◌, ◌||◌, not, Option, none, some, List, [], ◌∷◌, ◌++◌,
  if◌then◌else◌, Text, codes, ◌==◌, text_eq, Result, ok, err,
}
use docker_mobile.Admin.{Event, event_started, DeviceInfo}
use docker_mobile.Admin.Client.{ClientError, cancelled, stopped, Exchange, ask, pair}
use docker_mobile.Config.Address.{join_host_port}

-- `accessLabel`.
unfoldable pub access_label : Text → Text
access_label role = if role == codes "readonly" then codes "read-only" else codes "full control"

-- What the callback of `cmdPair` keeps: the event that ended the pairing, and whether a code was shown.
pub record Seen : Type 0 where
  pub end : Option Event
  pub shown : Bool

unfoldable pub on_event : Event → Seen → Seen
on_event e s =
    if not (e.event == event_started) then record s { end = some e } else record s { shown = true }

pub on_events : List Event → Seen → Seen
on_events [] s = s
on_events (e ∷ es) s = on_events es (on_event e s)

-- The errors of the command.
pub data CommandError : Type 0 where
  as_client : ClientError → CommandError
  cancelled_before_code cancelled_after_code stopped_after_code : CommandError
  paired_without_device code_expired code_replaced code_voided : CommandError
  not_stored ended_as : Text → CommandError

interrupted : Option ClientError → Bool
interrupted (some cancelled) = true
interrupted e = false

has_stopped : Option ClientError → Bool
has_stopped none = true
has_stopped (some stopped) = true
has_stopped e = false

client_or_stopped : Option ClientError → CommandError
client_or_stopped none = as_client stopped
client_or_stopped (some e) = as_client e

-- `pairEnding` where no event ended the pairing.
unfoldable pub no_ending : Option ClientError → Bool → CommandError
unfolding interrupted has_stopped client_or_stopped
no_ending e shown =
    if not (interrupted e) && not (has_stopped e)
    then client_or_stopped e
    else if not shown
    then (if interrupted e then cancelled_before_code else as_client stopped)
    else if interrupted e
    then cancelled_after_code
    else stopped_after_code

-- The line for a phone that was paired.
pub paired_line : DeviceInfo → Text
paired_line d =
    codes "Paired: "
    ++ (d.name
        ++ (codes " (id "
            ++ (d.id ++ (codes ", " ++ (access_label d.role ++ (codes ")" ++ 10 ∷ []))))))

paired_with : Option DeviceInfo → Result CommandError Text
paired_with none = err paired_without_device
paired_with (some d) = ok (paired_line d)

unfoldable pub of_ending : Event → Result CommandError Text
unfolding paired_with
of_ending e =
    if e.event == codes "paired"
    then paired_with e.device
    else if e.event == codes "expired"
    then err code_expired
    else if e.event == codes "replaced"
    then err code_replaced
    else if e.event == codes "voided"
    then err code_voided
    else if e.event == codes "failed"
    then err (not_stored e.error)
    else err (ended_as e.event)

-- `pairEnding`: what is printed, or the error that the command ends with.
unfoldable pub pair_ending : Option Event → Option ClientError → Bool → Result CommandError Text
pair_ending none e shown = err (no_ending e shown)
pair_ending (some event) e shown = of_ending event

-- The end of `cmdPair`, from what the client hands over.
unfoldable pub cmd_pair :
    (Text → Option Event) → Bool → Text → Exchange (List Text) → Result CommandError Text
unfolding on_events
cmd_pair decode ctx_over path x =
    let (events, e) = pair decode ctx_over path x in
    let s = on_events events (record { end = none; shown = false }) in pair_ending s.end e s.shown

pub data RevokeError : Type 0 where
  one_id_wanted : RevokeError
  refused : ClientError → RevokeError

told_revoked : Result ClientError (DeviceInfo × ℕ) → Result RevokeError (Text × Text × ℕ)
told_revoked (err e) = err (refused e)
told_revoked (ok (d, closed)) = ok (d.name, d.id, closed)

-- `cmdRevoke` with its arguments: the name, the id and the count of its line.
unfoldable pub cmd_revoke :
    Text
    → (Text → Exchange (Option (DeviceInfo × ℕ)))
    → List Text
    → Result RevokeError (Text × Text × ℕ)
unfolding told_revoked
cmd_revoke path send [] = err one_id_wanted
cmd_revoke path send ([] ∷ args) = err one_id_wanted
cmd_revoke path send ((c ∷ id) ∷ []) = told_revoked (ask path (send (c ∷ id)))
cmd_revoke path send ((c ∷ id) ∷ a ∷ args) = err one_id_wanted

-- The address that `cmdHealthcheck` asks: `unspecified` is `ParseIP` with `IsUnspecified`.
unfoldable pub health_address : (Text → Bool) → Bool → Text × Text → Text
health_address unspecified insecure (host, port) =
    let h = if host == [] || unspecified host then codes "127.0.0.1" else host in
    let scheme = if insecure then codes "http" else codes "https" in
    scheme ++ (codes "://" ++ (join_host_port h port ++ codes "/healthz"))
