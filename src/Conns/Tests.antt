-- ===== src/Conns/Tests.antt =====
-- Runs of the registry, and each theorem at an input that meets its hypotheses.
use docker_mobile.Base.{
  ◌≡◌, refl, ◌≢◌, ◌⊎◌, none, List, [], ◌∷◌, ◌++◌, arith, Text, codes, All, nat_eq, text_eq,
  ne_of_==, lookup, insert, delete,
}
use docker_mobile.Conns.{open_of, open_count, track, release, close_device, close_all}
use docker_mobile.Conns.History.{start, Call, tracks, releases, closes_all, step, run, In}
use docker_mobile.Conns.Close.{close_device_ends, shutdown_ends}

abbrev phone : Text
phone = codes "a1"

abbrev tablet : Text
tablet = codes "b2"

abbrev calls : List Call
calls = tracks phone 100 ∷ tracks tablet 200 ∷ tracks phone 300 ∷ releases 0 ∷ []

open_after : open_of (run start calls).registry phone ≡ (1, 100) ∷ []
unfolding run step track release lookup insert delete
open_after = refl

ended_after : (run start calls).registry.ended ≡ 300 ∷ []
unfolding run step track release lookup insert delete
ended_after = refl

refused_after : (track (run start (calls ++ closes_all ∷ [])).registry phone 400).1 ≡ none
unfolding run step track release close_all lookup insert delete
refused_after = refl

close_device_ends_example :
    let s = run start calls in
    let r = close_device s.registry phone in
    All (λ h. In h.ctx r.0.ended ⊎ (h.device ≢ phone)) s.handles
    × (open_count r.0 phone ≡ 0)
    × (r.1 ≡ open_count s.registry phone)
    × (open_of r.0 tablet ≡ open_of s.registry tablet)
close_device_ends_example =
    close_device_ends calls phone tablet (omega arith) (ne_of_== phone tablet refl)

shutdown_ends_example :
    let s = run start calls in
    let t = run (step s closes_all) (tracks tablet 500 ∷ []) in
    All (λ h. In h.ctx t.registry.ended) s.handles
    × In 600 (track t.registry phone 600).0.ended
    × ((track t.registry phone 600).1 ≡ none)
shutdown_ends_example = shutdown_ends calls (tracks tablet 500 ∷ []) phone 600 (omega arith)
