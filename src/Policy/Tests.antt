-- ===== src/Policy/Tests.antt =====
-- Requests that pass and requests that do not.
use docker_mobile.Base.{
  [], ◌++◌, ◌≡◌, refl, ◌⊎◌, true, false, Text, codes, nat_eq, text_eq, cut_prefix, has_prefix,
  split, contains_byte,
}
use docker_mobile.Policy.{
  between, letter_or_digit, id_rest, read_only, matches, listed, after_version, unversioned,
  has_double_slash, has_dot_segment, is_ambiguous, allowed_read_only,
}
use docker_mobile.Policy.Allowed
use docker_mobile.Policy.Clear.{IsClear}
use docker_mobile.Policy.Version.{IsVersion}
use docker_mobile.Policy.Allowed.{AnyDescribes}

abbrev get : Text
get = codes "GET"

abbrev logs : Text
logs = codes "/v1.43/containers/web.1/logs"

runs : Unit {0}
unfolding between letter_or_digit id_rest allowed_read_only matches listed after_version unversioned
    has_double_slash has_dot_segment is_ambiguous contains_byte has_prefix cut_prefix split
runs = tt

logs_pass : allowed_read_only get logs ≡ true
unfolding runs
logs_pass = refl

only_reads : allowed_read_only (codes "POST") logs ≡ false
unfolding runs
only_reads = refl

no_dots : allowed_read_only get (codes "/images/a/../../containers/b/json") ≡ false
unfolding runs
no_dots = refl

bare_version : allowed_read_only get (codes "/v1.43") ≡ false
unfolding runs
bare_version = refl

allowed_read_only-Describes_example :
    ((get ≡ codes "GET") ⊎ (get ≡ codes "HEAD"))
    × IsClear logs
    × ((v : Text) × (p : Text) × (logs ≡ v ++ p)
        × ((v ≡ []) ⊎ IsVersion v)
        × AnyDescribes read_only p)
allowed_read_only-Describes_example = Allowed.allowed_read_only-Describes get logs logs_pass
