-- ===== src/Pairing/Manager/Guesses.antt =====
-- How many guesses a code allows.
use docker_mobile.Base.{
  ℕ, suc, ◌+◌, ◌≤◌, ◌<◌, ◌≡◌, refl, ap, ◌∙◌, subst, ◌⊎◌, inl, inr, false, none, some, List, [], ◌∷◌,
  arith, leb, Bool-cases, length, All, nat_eq, text_eq,
}
use docker_mobile.Pairing.Proof.{Crypto}
use docker_mobile.Pairing.Manager.{
  voided, expired, Pending, Manager, max_tries, redeem, redeem_pending, count_try, drop_expired,
  is_over, Attempt, Create, proves,
}
use docker_mobile.Pairing.Manager.Channels.{cur-end_pairing}

-- Attempts one after the other.
pub redeem_all : {W D : Type 0} → Crypto → Create W D → Manager D × W → List Attempt → Manager D × W
redeem_all c create x [] = x
redeem_all c create (m, w) (a ∷ more) =
    let (m', w', answer) = redeem c create a m w in redeem_all c create (m', w') more

-- Nothing is pending, or the pairing `p` is, with so many tries.
abbrev pub Counted : {D : Type 0} → Pending → ℕ → Manager D → Type 0
Counted p n m = (m.cur ≡ none) ⊎ ((m.cur ≡ some (record p { tries = n })) × (n < max_tries))

drop_expired-Counted :
    {D : Type 0} (now : ℕ) (p : Pending) (n : ℕ) (m : Manager D)
    → Counted p n m
    → Counted p n (drop_expired now m)
unfolding drop_expired
drop_expired-Counted now p n m h = elim (Bool-cases (is_over now m.cur)) [
  | inl o ↦ rw o (inl (cur-end_pairing expired m))
  | inr o ↦ rw o h
]

count_try-Counted :
    {D : Type 0} (p : Pending) (n : ℕ) (m : Manager D)
    → n < max_tries
    → Counted p (suc n) (count_try (record p { tries = n }) m)
unfolding count_try
count_try-Counted p n m l =
    let m' = record m { cur = some (record p { tries = suc n }) } in
    elim (Bool-cases (leb max_tries (suc n))) [
      | inl o ↦ rw o (inl (cur-end_pairing voided m'))
      | inr o ↦ rw o (inr (refl, ground (o, arith)))
    ]

redeem_pending-Counted :
    {W D : Type 0} (c : Crypto) (create : Create W D) (a : Attempt) (p : Pending) (n : ℕ)
    (m : Manager D) (w : W)
    → proves c a p ≡ false
    → Counted p n m
    → Counted p (suc n) (redeem_pending c create a m w m.cur).0
      × ((redeem_pending c create a m w m.cur).1 ≡ w)
unfolding redeem_pending proves count_try
redeem_pending-Counted c create a p n m w t (inl e) = rw e (inl refl, refl)
redeem_pending-Counted c create a p n m w t (inr (e, l)) =
    rw (e, t) (count_try-Counted p n m l, refl)

redeem-Counted :
    {W D : Type 0} (c : Crypto) (create : Create W D) (a : Attempt) (p : Pending) (n : ℕ)
    (m : Manager D) (w : W)
    → proves c a p ≡ false
    → Counted p n m
    → Counted p (suc n) (redeem c create a m w).0 × ((redeem c create a m w).1 ≡ w)
unfolding redeem
redeem-Counted c create a p n m w t h =
    redeem_pending-Counted c create a p n (drop_expired a.now m) w t
      (drop_expired-Counted a.now p n m h)

redeem_all-Counted :
    {W D : Type 0} (c : Crypto) (create : Create W D) (p : Pending) (n : ℕ) (m : Manager D) (w : W)
    (more : List Attempt)
    → All (λ a. proves c a p ≡ false) more
    → Counted p n m
    → Counted p (n + length more) (redeem_all c create (m, w) more).0
      × ((redeem_all c create (m, w) more).1 ≡ w)
unfolding redeem_all
redeem_all-Counted c create p n m w [] ts h = (subst (λ k. Counted p k m) (omega arith) h, refl)
redeem_all-Counted c create p n m w (a ∷ more) (t, ts) h =
    let (counted, same) = redeem-Counted c create a p n m w t h in
    let (counts, sames) = redeem_all-Counted c create p (suc n) _ _ more ts counted in
    (
      subst (λ k. Counted p k (redeem_all c create (m, w) (a ∷ more)).0) (omega arith) counts,
      sames ∙ same,
    )

fresh : (p : Pending) → p.tries ≡ 0 → p ≡ record p { tries = 0 }
fresh p z = ap (λ k. record p { tries = k }) z

-- After five attempts or more with wrong proofs, one after the other, a pairing that had no tries is
-- no longer pending, and nothing was created.
pub redeem_all-wrong :
    {W D : Type 0} (c : Crypto) (create : Create W D) (p : Pending) (m : Manager D) (w : W)
    (more : List Attempt)
    → m.cur ≡ some p
    → p.tries ≡ 0
    → All (λ a. proves c a p ≡ false) more
    → 5 ≤ length more
    → ((redeem_all c create (m, w) more).0.cur ≡ none) × ((redeem_all c create (m, w) more).1 ≡ w)
redeem_all-wrong c create p m w more e z ts l =
    let (counted, same) =
      redeem_all-Counted c create p 0 m w more ts (inr (e ∙ ap some (fresh p z), omega arith)) in
    elim counted [ inl gone ↦ (gone, same) | inr (still, few) ↦ absurd (omega (l, few, arith)) ]
