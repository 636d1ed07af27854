-- ===== src/Actions.antt =====
-- Code that reads and writes a state of any type and may raise: sequence, and the shared steps.
use vapivoiceassistant.Prelude.{◌≡◌, refl, ap, sym, Bool, true, false, if◌then◌else◌}
use vapivoiceassistant.Errors.{Error, Result, ok, err, Action}

module _ {S : Type 0} where
  infixl 5 ◌>>=◌ ◌>>◌
  abbrev pub ◌>>=◌ : {A B : Type 0} → Action S A → (A → Action S B) → Action S B
  ◌>>=◌ m f w = let (r, w') = m w in elim r [ ok a ↦ f a w' | err e ↦ (err e, w') ]

  abbrev pub ◌>>◌ : {A B : Type 0} → Action S A → Action S B → Action S B
  m >> k = m >>= λ _. k

  abbrev pub raise_when : Bool → Error → Action S (Unit {0})
  raise_when c e w = (if c then err e else ok tt, w)

  abbrev pub update : (S → S) → Action S (Unit {0})
  update f w = (ok tt, f w)

  returned_from :
      {A B : Type 0} (x : Result A × S) (f : A → Action S B) (v : S) {b : B} {w' : S}
      → ((λ (_ : S). x) >>= f) v ≡ (ok b, w')
      → (a : A) × (u : S) × (x ≡ (ok a, u)) × (f a u ≡ (ok b, w'))
  returned_from (ok a, u) f v h = (a, u, refl, h)
  returned_from (err e, u) f v h = absurd (cc (ap (λ y. y.0) h))

  -- A sequence that returns has both parts return.
  pub >>=-returned :
      {A B : Type 0} (m : Action S A) (f : A → Action S B) (w : S) {b : B} {w' : S}
      → (m >>= f) w ≡ (ok b, w')
      → (a : A) × (u : S) × (m w ≡ (ok a, u)) × (f a u ≡ (ok b, w'))
  >>=-returned m f w h = returned_from (m w) f w h

  pub raise_when-returned :
      (c : Bool) (e : Error) (w : S) {a : Unit {0}} {u : S}
      → raise_when c e w ≡ (ok a, u)
      → (c ≡ false) × (u ≡ w)
  raise_when-returned true e w h = absurd (cc (ap (λ y. y.0) h))
  raise_when-returned false e w h = (refl, ap (λ y. y.1) (sym h))
