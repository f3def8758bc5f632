-- ===== src/Cipher/Chain/Stream.antt =====
-- Messages that are encrypted one after the other on one side of a channel and decrypted in the
-- same order on the other, where each side carries a state from one message to the next.
use meanwhile.Base.{◌≡◌, refl, ap, List, [], ◌∷◌, All, map}
use meanwhile.Buffer.Opaque.{Opaque, opaque_bytes}
use meanwhile.Cipher.Chain.Laws.{IsData}

unfoldable pub send_all {ℓ} :
    {S : Type ℓ} → (S → Opaque → S × Opaque) → S → List Opaque → List Opaque
send_all f s [] = []
send_all f s (o ∷ os) = let out = f s o in out.1 ∷ send_all f out.0 os

module _ {S T : Type 0} (f : S → Opaque → S × Opaque) (g : T → Opaque → T × Opaque) where
  -- `R` relates the states of the two sides while they agree.
  pub record Agrees (R : S → T → Type 0) : Type 0 where
    pub next : (s : S) (t : T) (o : Opaque) → R s t → IsData o → R (f s o).0 (g t (f s o).1).0
    pub same :
        (s : S) (t : T) (o : Opaque)
        → R s t
        → IsData o
        → opaque_bytes (g t (f s o).1).1 ≡ opaque_bytes o

  pub send_all_twice :
      {R : S → T → Type 0} (s : S) (t : T) (os : List Opaque)
      → Agrees R
      → R s t
      → All IsData os
      → map opaque_bytes (send_all g t (send_all f s os)) ≡ map opaque_bytes os
  unfolding send_all
  send_all_twice s t [] a r h = refl
  send_all_twice s t (o ∷ os) a r h = rw (a.same s t o r h.0) (
      ap (◌∷◌ (opaque_bytes o))
        (send_all_twice (f s o).0 (g t (f s o).1).0 os a (a.next s t o r h.0) h.1))
