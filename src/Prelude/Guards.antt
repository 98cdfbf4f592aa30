-- ===== src/Prelude/Guards.antt =====
-- What a constructor of the program returns: the value, an error by its text, or a panic.
use Prim.Native.Nat.{ℕ, zero, suc}
use mathlib.Core.Bool.{Bool, true, false}
use mathlib.Core.List.{List}
use anilibria_torznab.Prelude.Tests.{if◌then◌else◌}
use anilibria_torznab.Prelude.Int.{ℤ, pos, negsuc}

pub data Constructed (A : Type 0) : Type 0 where
  constructed : A → Constructed A
  refused : List ℕ → Constructed A
  panicked : Constructed A

-- A guard of a constructor
unfoldable pub ensuring : {A : Type 0} → Bool → List ℕ → Constructed A → Constructed A
ensuring holds message next = if holds then next else refused message

unfoldable pub is_positive : ℤ → Bool
is_positive (pos zero) = false
is_positive (pos (suc n)) = true
is_positive (negsuc n) = false

-- A guard that asks for a positive number, and goes on with it
unfoldable pub positive : {A : Type 0} → ℤ → List ℕ → (ℕ → Constructed A) → Constructed A
positive (pos zero) message next = refused message
positive (pos (suc n)) message next = next (suc n)
positive (negsuc n) message next = refused message
