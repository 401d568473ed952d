-- ===== src/System/Triples.antt =====
-- Triples: what holds of the world before an action, and what holds of it and of the result where
-- the action returns.
use bacs_legacy.Base.{◌≡◌, refl, subst, Bool, true, false, Option, none, some, if◌then◌else◌}
use bacs_legacy.System.{
  Os, Server, M, Outcome, returned, crashed, ◌>>=◌, run_os, try_os, throwing, when,
}

-- What a triple is about: whether there is a connection to the database, and the world.
abbrev pub View : Os → Type 0
View os = Bool × os.World

module _ (os : Os) where
  abbrev pub view : Server os → View os
  view s = (s.connected, s.world)

  -- The postcondition at an outcome; of a crash it says nothing.
  abbrev pub After : {A : Type 0} → (A → View os → Type 0) → Outcome A × Server os → Type 0
  After Q (returned a, s) = Q a (view s)
  After Q (crashed, s) = Unit {0}

  abbrev pub Triple : {A : Type 0} → (View os → Type 0) → M os A → (A → View os → Type 0) → Type 0
  Triple P m Q = (s : Server os) → P (view s) → After Q (m s)

  -- A property of the world that an action keeps.
  abbrev pub Keeps : {A : Type 0} → (View os → Type 0) → M os A → Type 0
  Keeps P m = Triple P m (λ _. P)

module _ (os : Os) {A B : Type 0} where
  pub bind-Triple :
      (P : View os → Type 0) (Q : A → View os → Type 0) (R : B → View os → Type 0) (m : M os A)
      (f : A → M os B)
      → Triple os P m Q
      → ((a : A) → Triple os (Q a) (f a) R)
      → Triple os P (m >>= f) R
  bind-Triple P Q R m f h k s p = go (m s) (h s p)
    where
      go :
          (r : Outcome A × Server os)
          → After os Q r
          → After os R (elim r.0 [ returned a ↦ f a r.1 | crashed ↦ (crashed, r.1) ])
      go (returned a, s') q = k a s' q
      go (crashed, s') q = tt

  pub bind-Keeps :
      (P : View os → Type 0) (m : M os A) (f : A → M os B)
      → Keeps os P m
      → ((a : A) → Keeps os P (f a))
      → Keeps os P (m >>= f)
  bind-Keeps P m f h k = bind-Triple P (λ _. P) (λ _. P) m f h k

module _ (os : Os) {A : Type 0} where
  pub if-Triple :
      (P : View os → Type 0) (Q : A → View os → Type 0) (b : Bool) (m n : M os A)
      → (b ≡ true → Triple os P m Q)
      → (b ≡ false → Triple os P n Q)
      → Triple os P (if b then m else n) Q
  if-Triple P Q true m n h k = h refl
  if-Triple P Q false m n h k = k refl

  pub if-Keeps :
      (P : View os → Type 0) (b : Bool) (m n : M os A)
      → Keeps os P m
      → Keeps os P n
      → Keeps os P (if b then m else n)
  if-Keeps P b m n h k = if-Triple P (λ _. P) b m n (λ _. h) (λ _. k)

  pub Option-Keeps :
      {B : Type 0} (P : View os → Type 0) (o : Option B) (m : M os A) (f : B → M os A)
      → Keeps os P m
      → ((b : B) → Keeps os P (f b))
      → Keeps os P (elim o [ none ↦ m | some b ↦ f b ])
  Option-Keeps P none m f h k = h
  Option-Keeps P (some b) m f h k = k b

  -- A weaker postcondition.
  pub After-weaken :
      (Q R : A → View os → Type 0) (r : Outcome A × Server os)
      → ((a : A) (w : View os) → Q a w → R a w)
      → After os Q r
      → After os R r
  After-weaken Q R (returned a, s) f q = f a (view os s) q
  After-weaken Q R (crashed, s) f q = tt

  pub After-always :
      (Q : A → View os → Type 0) (r : Outcome A × Server os)
      → ((a : A) (w : View os) → Q a w)
      → After os Q r
  After-always Q (returned a, s) f = f a (view os s)
  After-always Q (crashed, s) f = tt

  pub After-intro :
      (Q : A → View os → Type 0) (r : Outcome A × Server os)
      → ((a : A) → r.0 ≡ returned a → Q a (view os r.1))
      → After os Q r
  After-intro Q (returned a, s) f = f a refl
  After-intro Q (crashed, s) f = tt

  pub After-returned :
      (Q : A → View os → Type 0) (r : Outcome A × Server os) (a : A)
      → After os Q r
      → r.0 ≡ returned a
      → Q a (view os r.1)
  After-returned Q (returned b, s) a q e = let f : b ≡ a = cc in subst (λ x. Q x (view os s)) f q
  After-returned Q (crashed, s) a q e = absurd (cc)

  pub run_os-Keeps :
      (P : View os → Type 0) (f : os.World → A × os.World)
      → ((v : View os) → P v → P (v.0, (f v.1).1))
      → Keeps os P (run_os f)
  run_os-Keeps P f h s p = h (view os s) p

module _ (os : Os) where
  pub try_os-Keeps :
      (P : View os → Type 0) (f : os.World → Option os.World)
      → ((v : View os) (w : os.World) → f v.1 ≡ some w → P v → P (v.0, w))
      → Keeps os P (try_os f)
  try_os-Keeps P f h s p = go (f s.world) refl
    where
      go :
          (o : Option os.World)
          → f s.world ≡ o
          → After os {A = Bool}
              (λ _. P)
              (elim o [
                | none ↦ (returned false, s)
                | some w ↦ (returned true, record s { world = w })
              ])
      go none e = p
      go (some w) e = h (view os s) w e p

  pub throwing-Keeps :
      (P : View os → Type 0) (f : os.World → Option os.World)
      → ((v : View os) (w : os.World) → f v.1 ≡ some w → P v → P (v.0, w))
      → Keeps os P (throwing f)
  throwing-Keeps P f h s p = go (f s.world) refl
    where
      go :
          (o : Option os.World)
          → f s.world ≡ o
          → After os {A = Unit {0}}
              (λ _. P)
              (elim o [ none ↦ (crashed, s) | some w ↦ (returned tt, record s { world = w }) ])
      go none e = tt
      go (some w) e = h (view os s) w e p

  pub when-Keeps :
      (P : View os → Type 0) (b : Bool) (m : M os (Unit {0})) → Keeps os P m → Keeps os P (when b m)
  when-Keeps P true m h = h
  when-Keeps P false m h = λ s p. p
