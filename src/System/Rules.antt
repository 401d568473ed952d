-- ===== src/System/Rules.antt =====
-- How a property of an action follows from its parts.
use bacs_legacy.Base.{◌≡◌, refl, sym, subst}
use bacs_legacy.System.{Os, Server, M, Outcome, returned, crashed, ◌>>=◌}

-- Every outcome is a value or a crash.
pub Outcome-cases :
    {A : Type 0} {os : Os} (P : Outcome A × Server os → Type 0) (r : Outcome A × Server os)
    → ((a : A) (s : Server os) → r ≡ (returned a, s) → P (returned a, s))
    → ((s : Server os) → r ≡ (crashed, s) → P (crashed, s))
    → P r
Outcome-cases P (returned a, s) f g = f a s refl
Outcome-cases P (crashed, s) f g = g s refl

module _ {os : Os} {A B : Type 0} where
  -- A property of `m >>= f` follows from `f` at what `m` returns, and from a crash of `m`.
  pub bind_cases :
      (P : Outcome B × Server os → Type 0) (m : M os A) (f : A → M os B) (s : Server os)
      → ((a : A) (s' : Server os) → m s ≡ (returned a, s') → P (f a s'))
      → ((s' : Server os) → m s ≡ (crashed, s') → P (crashed, s'))
      → P ((m >>= f) s)
  bind_cases P m f s ok bad = go (m s) refl
    where
      go :
          (r : Outcome A × Server os)
          → m s ≡ r
          → P (elim r.0 [ returned a ↦ f a r.1 | crashed ↦ (crashed, r.1) ])
      go (returned a, s') e = ok a s' e
      go (crashed, s') e = bad s' e

  -- Where `m` returns, `m >>= f` goes on with `f`.
  pub bind_returned :
      (P : Outcome B × Server os → Type 0) (m : M os A) (f : A → M os B) (s : Server os) (a : A)
      → (m s).0 ≡ returned a
      → P (f a (m s).1)
      → P ((m >>= f) s)
  bind_returned P m f s a e p =
      subst (λ r. P (elim r [ returned x ↦ f x (m s).1 | crashed ↦ (crashed, (m s).1) ])) (sym e) p
