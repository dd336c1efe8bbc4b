-- ===== src/State/Inversion.antt =====
-- What a composed action that returned says of its parts.
use live_photo_llm.Prelude.{◌≡◌, refl, ap}
use live_photo_llm.State.{catch}
use live_photo_llm.State.{World, Exec, Result, ok, err, Error, ◌>>=◌}

module _ {A B : Type 0} where
  pub bind-ok :
      (m : Exec A) (f : A → Exec B) (s : World) {b : B} {s'' : World}
      → (m >>= f) s ≡ (ok b, s'')
      → (a : A) × (s' : World) × (m s ≡ (ok a, s')) × (f a s' ≡ (ok b, s''))
  bind-ok m f s {b} {s''} h = go (m s) refl h
    where
      go :
          (r : Result A × World)
          → m s ≡ r
          → Path (Result B × World) (elim r.0 [ ok a ↦ f a r.1 | err e ↦ (err e, r.1) ]) (ok b, s'')
          → (a : A) × (s' : World) × (m s ≡ (ok a, s')) × (f a s' ≡ (ok b, s''))
      go (ok a, s') e k = (a, s', e, k)
      go (err x, s') e k = absurd (cc k)

  pub bind-from :
      (m : Exec A) (f : A → Exec B) (s : World) {a : A} {s' : World}
      → m s ≡ (ok a, s')
      → (m >>= f) s ≡ f a s'
  bind-from m f s e =
      ap
        (λ (p : Result A × World). elim p.0 as (λ _. Result B × World) [
          | ok a ↦ f a p.1
          | err x ↦ (err x, p.1)
        ])
        e

  pub bind-err :
      (m : Exec A) (f : A → Exec B) (s : World) {x : Error} {s' : World}
      → m s ≡ (err x, s')
      → (m >>= f) s ≡ (err x, s')
  bind-err m f s e =
      ap
        (λ (p : Result A × World). elim p.0 as (λ _. Result B × World) [
          | ok a ↦ f a p.1
          | err x ↦ (err x, p.1)
        ])
        e

module _ {A : Type 0} (m : Exec A) (k : Error → Exec A) (s : World) where
  abbrev handled : Result A × World → Result A × World
  handled p = elim p.0 as (λ _. Result A × World) [ ok a ↦ (ok a, p.1) | err e ↦ k e p.1 ]

  -- An action under a handler, by what it ends in.
  pub catch-ok : {a : A} {s' : World} → m s ≡ (ok a, s') → catch m k s ≡ (ok a, s')
  catch-ok e = ap handled e

  pub catch-err : {x : Error} {s' : World} → m s ≡ (err x, s') → catch m k s ≡ k x s'
  catch-err e = ap handled e
