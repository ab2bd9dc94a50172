-- ===== src/Pairing/Proof/Message.antt =====
-- What the two proofs authenticate can be read back, and the sides cannot be confused.
use docker_mobile.Base.{
  ℕ, ◌%◌, ◌<◌, ◌≡◌, refl, sym, ap, List, [], ◌∷◌, ◌++◌, arith, Text, length, nat_eq, text_eq,
}
use docker_mobile.Pairing.Proof.{Side, phone, agent, label, message, concat, proof_context}

++-injective : (a b c d : Text) → length a ≡ length b → a ++ c ≡ b ++ d → (a ≡ b) × (c ≡ d)
++-injective [] [] c d n e = (refl, e)
++-injective [] (y ∷ b) c d n e = absurd (omega arith)
++-injective (x ∷ a) [] c d n e = absurd (omega arith)
++-injective (x ∷ a) (y ∷ b) c d n e = ground (arith, ++-injective a b c d)

label_apart : (a b : Text) → label phone ++ a ≡ label agent ++ b → ⊥
label_apart a b e = ground arith

rest-inv :
    (n n' : ℕ) (fp fp' c c' : Text)
    → n ≡ length fp
    → n' ≡ length fp'
    → 0 ∷ n ∷ (fp ++ c) ≡ 0 ∷ n' ∷ (fp' ++ c')
    → (fp ≡ fp') × (c ≡ c')
rest-inv n n' fp fp' c c' l l' e = grind (arith, ++-injective fp fp' c c')

label-inv :
    (who who' : Side) (a b : Text)
    → label who ++ (0 ∷ a) ≡ label who' ++ (0 ∷ b)
    → (who ≡ who') × (a ≡ b)
label-inv phone phone a b e = ground arith
label-inv phone agent a b e = absurd (label_apart (0 ∷ a) (0 ∷ b) e)
label-inv agent phone a b e = absurd (label_apart (0 ∷ b) (0 ∷ a) (sym e))
label-inv agent agent a b e = ground arith

-- Two messages are equal only if they come from the same side, for the same fingerprint and with
-- the same nonces one after the other, where a fingerprint has fewer than 256 bytes.
pub message_injective :
    (who who' : Side) (fp fp' : Text) (nonces nonces' : List Text)
    → length fp < 256
    → length fp' < 256
    → message who fp nonces ≡ message who' fp' nonces'
    → (who ≡ who') × (fp ≡ fp') × (concat nonces ≡ concat nonces')
unfolding message
message_injective who who' fp fp' nonces nonces' n n' e =
    let t : Text = (length fp % 256) ∷ (fp ++ concat nonces) in
    let t' : Text = (length fp' % 256) ∷ (fp' ++ concat nonces') in
    let after : 0 ∷ (label who ++ (0 ∷ t)) ≡ 0 ∷ (label who' ++ (0 ∷ t')) =
      (++-injective proof_context proof_context _ _ refl e).1 in
    let halves = label-inv who who' t t' (ground (arith, after)) in
    let pieces =
      rest-inv _ _ fp fp' _ _ (omega (n, arith)) (omega (n', arith)) (ap (λ u. 0 ∷ u) (halves.1)) in
    (halves.0, pieces.0, pieces.1)
