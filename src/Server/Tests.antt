-- ===== src/Server/Tests.antt =====
-- Requests at the gates, and a log of failures.
use docker_mobile.Base.{
  ℕ, ◌≤◌, ◌≡◌, refl, Bool, true, [], ◌∷◌, arith, nat_beq, codes, length, nat_eq, text_eq, lookup,
  insert, delete, ne_of_==, ok, cut_prefix, has_prefix, split, contains_byte,
}
use docker_mobile.State.Names.{trim_left, trim_right}
use docker_mobile.State.Devices.{role_read_only, role_full}
use docker_mobile.Policy.{
  matches, listed, after_version, unversioned, has_double_slash, has_dot_segment, is_ambiguous,
  allowed_read_only,
}
use docker_mobile.Server.{
  header_values, upgrade, connection, is_upgrade, join, set_connection, drop_upgrade, Request,
  role_gate, FailureLog, max_failure_addrs, kept_tokens,
}
use docker_mobile.Server.Gates
use docker_mobile.Server.Gates.{NoUpgrade}
use docker_mobile.Server.Failures
use docker_mobile.Server.Failures.{note_all}

space : ℕ → Bool
space c = nat_beq c 32

abbrev asking : Request
asking = record {
  role = role_read_only;
  method = codes "GET";
  path = codes "/info";
  headers = (upgrade, codes "tcp" ∷ []) ∷ (connection, codes "keep-alive, UPGRADE" ∷ []) ∷ [];
}

abbrev plain : Request
plain = record asking { headers = (connection, codes "keep-alive" ∷ []) ∷ [] }

runs : Unit {0}
unfolding trim_left trim_right header_values role_gate drop_upgrade set_connection kept_tokens
    is_upgrade join space allowed_read_only matches listed after_version unversioned
    has_double_slash has_dot_segment is_ambiguous contains_byte has_prefix cut_prefix split lookup
    insert delete
runs = tt

asking_passes : role_gate space asking ≡ ok plain
unfolding runs
asking_passes = refl

role_gate-NoUpgrade_example :
    (allowed_read_only plain.method plain.path ≡ true)
    × NoUpgrade space plain.headers
    × (plain ≡ record asking { headers = plain.headers })
unfolding space
role_gate-NoUpgrade_example =
    Gates.role_gate-NoUpgrade space asking plain refl (ne_of_== role_read_only role_full refl)
      asking_passes

abbrev silent : FailureLog
silent = record { last = []; lines = [] }

note_all_bounded_example :
    length (note_all silent ((codes "a", 1) ∷ (codes "b", 2) ∷ (codes "a", 3) ∷ [])).last
    ≤ max_failure_addrs
note_all_bounded_example =
    Failures.note_all_bounded silent ((codes "a", 1) ∷ (codes "b", 2) ∷ (codes "a", 3) ∷ [])
      (omega arith)
