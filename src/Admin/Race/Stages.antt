-- ===== src/Admin/Race/Stages.antt =====
-- What is known of the registry at each stage of a request.
use docker_mobile.Base.{ℕ, suc, ◌≡◌, none, some, nat_eq, text_eq}
use docker_mobile.Conns.History
use docker_mobile.Conns.History.{
  Handle, System, Call, tracks, releases, closes_device, closes_all, note_handle, In,
  In-append_left, In-append_right, Held, Accounts,
}
use docker_mobile.Conns.Close.{step-Lasts}
use docker_mobile.State.Devices.{Device}
use docker_mobile.Auth.{Request, Answer, handed_on, shutting_down, too_many, unauthorized}
use docker_mobile.Admin.Race.{Stage, waiting, tracked, looked, answered, Revoking, closed_off}
use docker_mobile.Admin.Race.Kept.{Kept, step-Kept, close-ends, Room, step-Room, less-Room}

module _ (r : Request) (d : Device) where
  unfoldable pub Live : ℕ → System → Type 0
  Live k y = Room k y × Kept d.id r.ctx y

  pub step-Live : (k : ℕ) (y : System) (c : Call) → Live (suc k) y → Live k (History.step y c)
  unfolding Live
  step-Live k y c (a, h) = (step-Room k y c a, step-Kept d.id r.ctx y c h)

  pub less-Live : (k : ℕ) (y : System) → Live (suc k) y → Live k y
  unfolding Live
  less-Live k y (a, h) = (less-Room k y a, h)

  unfoldable pub Ended : Revoking → System → Type 0
  Ended v y = v ≡ closed_off → In r.ctx y.registry.ended

  unfoldable pub AtAnswer : ℕ → System → Revoking → Answer → Type 0
  AtAnswer k y v (handed_on dev n) = Live k y × Ended v y
  AtAnswer k y v shutting_down = Unit
  AtAnswer k y v (too_many left) = Unit
  AtAnswer k y v unauthorized = Unit

  unfoldable pub AtStage : ℕ → System → Revoking → Stage → Type 0
  AtStage k y v waiting = Room k y
  AtStage k y v (tracked n) = Live k y
  AtStage k y v (looked n ended) = Live k y
  AtStage k y v (answered none) = Unit
  AtStage k y v (answered (some x)) = AtAnswer k y v x

  -- A call of the registry, by anyone.
  pub stage-step :
      (k : ℕ) (y : System) (v : Revoking) (st : Stage) (c : Call)
      → AtStage (suc k) y v st
      → AtStage k (History.step y c) v st
  unfolding AtStage AtAnswer Ended
  stage-step k y v waiting c h = step-Room k y c h
  stage-step k y v (tracked n) c h = step-Live k y c h
  stage-step k y v (looked n ended) c h = step-Live k y c h
  stage-step k y v (answered none) c h = tt
  stage-step k y v (answered (some (handed_on dev n))) c (l, e) =
      (step-Live k y c l, λ q. (step-Lasts y c).ended r.ctx (e q))
  stage-step k y v (answered (some shutting_down)) c h = tt
  stage-step k y v (answered (some (too_many left))) c h = tt
  stage-step k y v (answered (some unauthorized)) c h = tt

  -- Nothing happens to the registry, and the revocation has not closed the requests yet.
  pub stage-less :
      (k : ℕ) (y : System) (v v' : Revoking) (st : Stage)
      → (Ended v y → Ended v' y)
      → AtStage (suc k) y v st
      → AtStage k y v' st
  unfolding AtStage AtAnswer
  stage-less k y v v' waiting f h = less-Room k y h
  stage-less k y v v' (tracked n) f h = less-Live k y h
  stage-less k y v v' (looked n ended) f h = less-Live k y h
  stage-less k y v v' (answered none) f h = tt
  stage-less k y v v' (answered (some (handed_on dev n))) f (l, e) = (less-Live k y l, f e)
  stage-less k y v v' (answered (some shutting_down)) f h = tt
  stage-less k y v v' (answered (some (too_many left))) f h = tt
  stage-less k y v v' (answered (some unauthorized)) f h = tt

  -- The requests of the device are closed.
  pub stage-closed :
      (k : ℕ) (y : System) (v : Revoking) (st : Stage)
      → AtStage (suc k) y v st
      → AtStage k (History.step y (closes_device d.id)) closed_off st
  unfolding AtStage AtAnswer Ended Live Room
  stage-closed k y v waiting h = step-Room k y (closes_device d.id) h
  stage-closed k y v (tracked n) h = step-Live k y (closes_device d.id) h
  stage-closed k y v (looked n ended) h = step-Live k y (closes_device d.id) h
  stage-closed k y v (answered none) h = tt
  stage-closed k y v (answered (some (handed_on dev n))) (l, e) =
      (step-Live k y (closes_device d.id) l, λ q. close-ends d.id r.ctx y l.0.0 l.1)
  stage-closed k y v (answered (some shutting_down)) h = tt
  stage-closed k y v (answered (some (too_many left))) h = tt
  stage-closed k y v (answered (some unauthorized)) h = tt
