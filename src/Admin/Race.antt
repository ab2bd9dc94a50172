-- ===== src/Admin/Race.antt =====
-- A device that is revoked while one of its requests is let in: agent/internal/auth/auth.go (serve) against
-- agent/internal/admin/admin.go (handleRevoke). Each takes its steps in turn, with others between them.
pub mod Kept
pub mod Stages
pub mod Safe
use docker_mobile.Base.{ℕ, ◌-◌, Bool, Option, none, some, List, [], ◌∷◌, Text, Result, ok, err}
use docker_mobile.Throttle.{Limiter}
use docker_mobile.Conns.{Registry, track}
use docker_mobile.Conns.History
use docker_mobile.Conns.History.{System, Call, tracks, closes_device}
use docker_mobile.State.Dir.{Faults}
use docker_mobile.State.Devices.{Device, Devices, authenticate, remove}
use docker_mobile.Auth
use docker_mobile.Auth.{Agent, Request, Outside, Answer, ended_by_registry, look_up_again, hand_on}

-- How far the request has come.
pub data Stage : Type 0 where
  waiting : Stage
  tracked : Option ℕ → Stage
  looked : Option ℕ → Bool → Stage
  answered : Option Answer → Stage

-- How far the revocation has come.
pub data Revoking : Type 0 where
  not_begun taken_out closed_off : Revoking

pub record Race : Type 0 where
  pub limiter : Option Limiter
  pub devices : Devices
  pub system : System
  pub stage : Stage
  pub revoking : Revoking

-- The request takes its next step, the revocation does, or someone else does something.
pub data Turn : Type 0 where
  asks : Turn
  revokes : Faults → Turn
  registers : Call → Turn
  authenticates : Faults → ℕ → Text → Turn

abbrev pub agent_of : Race → Agent
agent_of s = record { limiter = s.limiter; devices = s.devices; conns = some s.system.registry }

abbrev pub registry_or : Registry → Option Registry → Registry
registry_or c none = c
registry_or c (some r) = r

-- The request of the device `d`, which came with `token`, and was let in by the first lookup.
module _ (setup : Auth.Setup) (o : Outside) (r : Request) (d : Device) (token : Text) where
  answer_request : Race → Agent × Option Answer → Race
  answer_request s (a, answer) = record s {
    devices = a.devices;
    system = record s.system { registry = registry_or s.system.registry a.conns };
    stage = answered answer;
  }

  -- The steps of `serve`: the request is tracked, its context is looked at, and the device is looked up
  -- again.
  ask : Stage → Race → Race
  unfolding answer_request
  ask waiting s = record s {
    system = History.step s.system (tracks d.id r.ctx);
    stage = tracked (track s.system.registry d.id r.ctx).1;
  }
  ask (tracked n) s = record s { stage = looked n (ended_by_registry r (some s.system.registry)) }
  ask (looked n ended) s =
      answer_request s (hand_on r d n ended (look_up_again setup o (some token) d (agent_of s)))
  ask (answered x) s = s

  take_out : Race → Devices × Result Text (Option Device) → Race
  take_out s (devices, err e) = record s { devices = devices }
  take_out s (devices, ok none) = record s { devices = devices }
  take_out s (devices, ok (some gone)) = record s { devices = devices; revoking = taken_out }

  -- The steps of `handleRevoke` for the device: it is removed, and its requests are closed.
  revoke : Faults → Revoking → Race → Race
  unfolding take_out
  revoke os not_begun s = take_out s (remove setup.lib os d.id s.devices)
  revoke os taken_out s = record s {
    system = History.step s.system (closes_device d.id);
    revoking = closed_off;
  }
  revoke os closed_off s = s

  unfoldable pub step : Race → Turn → Race
  unfolding ask revoke
  step s asks = ask s.stage s
  step s (revokes os) = revoke os s.revoking s
  step s (registers c) = record s { system = History.step s.system c }
  step s (authenticates os now other) = record s {
    devices = (authenticate setup.lib os now other s.devices).0;
  }

  unfoldable pub run : Race → List Turn → Race
  run s [] = s
  run s (t ∷ ts) = run (step s t) ts
