-- ===== src/Server/Gates.antt =====
-- What passes the gates.
use docker_mobile.Base.{
  ℕ, ◌≡◌, refl, ◌∙◌, subst, ◌≢◌, ◌⊎◌, inl, inr, Bool, true, none, some, List, [], ◌∷◌, arith,
  Bool-cases, Text, All, ◌==◌, nat_eq, text_eq, ==_iff, lookup, delete, lookup-insert,
  lookup-delete, Result, ok, err, split,
}
use docker_mobile.State.Devices.{role_full}
use docker_mobile.Policy.{allowed_read_only}
use docker_mobile.Server.{
  Headers, upgrade, connection, join, set_connection, drop_upgrade, Request, Refusal,
  read_only_access, role_gate,
}
use docker_mobile.Server.Tokens.{Plain, Kept, kept_tokens-Kept, join-Plain}

-- The headers ask for no upgrade: there is no Upgrade header, and no Connection header either, or it
-- has one value, of which no piece between commas, without the white space around it, is `upgrade`.
pub record NoUpgrade (space : ℕ → Bool) (h : Headers) : Type 0 where
  pub no_header : lookup upgrade h ≡ none
  pub left :
      (lookup connection h ≡ none)
      ⊎ ((v : Text) × (lookup connection h ≡ some (v ∷ [])) × All (Plain space) (split b',' v))

set_connection-NoUpgrade :
    (space : ℕ → Bool) (kept : List Text) (h : Headers)
    → space 32 ≡ true
    → All (Kept space) kept
    → lookup upgrade h ≡ none
    → NoUpgrade space (set_connection kept h)
unfolding set_connection
set_connection-NoUpgrade space [] h sp p n = record {
  no_header = lookup-delete connection upgrade h ∙ n;
  left = inl (lookup-delete connection connection h);
}
set_connection-NoUpgrade space (t ∷ ts) h sp p n = record {
  no_header = lookup-insert connection upgrade (join (t ∷ ts) ∷ []) h ∙ n;
  left = inr (
    join (t ∷ ts),
    lookup-insert connection connection (join (t ∷ ts) ∷ []) h,
    join-Plain space t ts sp p,
  );
}

drop_upgrade-NoUpgrade :
    (space : ℕ → Bool) (h : Headers) → space 32 ≡ true → NoUpgrade space (drop_upgrade space h)
unfolding drop_upgrade
drop_upgrade-NoUpgrade space h sp =
    set_connection-NoUpgrade space _ (delete upgrade h) sp (kept_tokens-Kept space _)
      (lookup-delete upgrade upgrade h)

-- Behind the gate, a request of a device that does not have full access is one of the listed reads,
-- unchanged but for its headers, and asks for no protocol upgrade: it has no Upgrade header, and no
-- piece between the commas of its Connection header is `upgrade`, in whatever case and with whatever
-- white space around it. The blank counts as white space.
pub role_gate-NoUpgrade :
    (space : ℕ → Bool) (r r' : Request)
    → space 32 ≡ true
    → r.role ≢ role_full
    → role_gate space r ≡ ok r'
    → (allowed_read_only r'.method r'.path ≡ true)
      × NoUpgrade space r'.headers
      × (r' ≡ record r { headers = r'.headers })
unfolding role_gate
role_gate-NoUpgrade space r r' sp ne h = elim (Bool-cases (r.role == role_full)) [
  | inl e ↦ absurd (ne ((==_iff r.role role_full).0 e))
  | inr e ↦
      let h₁ = rw (e, role_gate) at h in
      elim (Bool-cases (allowed_read_only r.method r.path)) [
        | inr d ↦ absurd (refused r' (rw d at h₁))
        | inl d ↦
            let same = ok-inv _ r' (rw d at h₁) in
            (
              subst (λ x. allowed_read_only x.method x.path ≡ true) same d,
              subst (λ x. NoUpgrade space x.headers) same
                  (drop_upgrade-NoUpgrade space r.headers sp),
              subst (λ x. x ≡ record r { headers = x.headers }) same refl,
            )
      ]
]
  where
    refused : (x : Request) → err read_only_access ≢ ok x
    refused x q = ground (q, arith)

    ok-inv : (x y : Request) → Path (Result Refusal Request) (ok x) (ok y) → x ≡ y
    ok-inv x y q = ground (q, arith)
