-- ===== src/Base/Text.antt =====
-- `std::string` as its list of bytes, with the searches that the program makes in it.
use Prim.Native.Nat.{ℕ, suc}
use Prim.Native.Char.{code}
use Prim.Native.String.{String}
use mathlib.Core.Path.{◌≡◌, refl}
use mathlib.Core.Logic.{◌↔◌}
use mathlib.Core.Bool.{Bool, true, false}
use mathlib.Core.List.{List, [], ◌∷◌}
use mathlib.Core.Option.{Option, none, some}
use native.Mathlib.Omega.{arith}
use bacs_legacy.Base.Tests.{◌==◌, if◌then◌else◌}
use bacs_legacy.Base.Lists.{take, drop}

abbrev pub Bytes : Type 0
Bytes = List ℕ

-- The bytes of an ASCII literal.
abbrev pub codes : String → Bytes
codes String.[] = []
codes (String.◌∷◌ c s) = code c ∷ codes s

infix 50 ◌=ₛ◌
abbrev pub ◌=ₛ◌ : Bytes → Bytes → Bool
[] =ₛ [] = true
(a ∷ s) =ₛ (b ∷ t) = if a == b then s =ₛ t else false
_ =ₛ _ = false

pub =ₛ_iff : (s t : Bytes) → ((s =ₛ t) ≡ true) ↔ (s ≡ t)
=ₛ_iff [] [] = ground arith
=ₛ_iff [] (b ∷ t) = ground arith
=ₛ_iff (a ∷ s) [] = ground arith
=ₛ_iff (a ∷ s) (b ∷ t) = ground (arith, =ₛ_iff s t)

pub =ₛ_refl : (s : Bytes) → (s =ₛ s) ≡ true
=ₛ_refl s = (=ₛ_iff s s).1 refl

-- s.substr(from, count)
abbrev pub substr : Bytes → ℕ → ℕ → Bytes
substr s from count = take count (drop from s)

-- s.find(c)
abbrev pub find_byte : ℕ → Bytes → Option ℕ
find_byte c [] = none
find_byte c (a ∷ s) =
    if a == c then some 0 else elim (find_byte c s) [ none ↦ none | some k ↦ some (suc k) ]

-- s.find_last_of(c)
abbrev pub find_last_byte : ℕ → Bytes → Option ℕ
find_last_byte c [] = none
find_last_byte c (a ∷ s) = elim (find_last_byte c s) [
  | some k ↦ some (suc k)
  | none ↦ if a == c then some 0 else none
]

-- Does `s` begin with `t`?
abbrev pub begins : Bytes → Bytes → Bool
begins s [] = true
begins [] (b ∷ t) = false
begins (a ∷ s) (b ∷ t) = if a == b then begins s t else false

-- s.find(t)
abbrev pub find_bytes : Bytes → Bytes → Option ℕ
find_bytes t [] = if begins [] t then some 0 else none
find_bytes t (a ∷ s) =
    if begins (a ∷ s) t
    then some 0
    else elim (find_bytes t s) [ none ↦ none | some k ↦ some (suc k) ]
