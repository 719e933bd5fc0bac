-- ===== src/Base/Text/Laws.antt =====
-- Prefixes of texts.
use Prim.Native.Char.{code}
use Prim.Native.String.{String, [], ◌∷◌}
use mathlib.Core.Path.{◌≡◌, refl}
use mathlib.Core.Bool.{true}
use native.Mathlib.Omega.{arith}
use aibom_webhook_service.Base.Tests.{nat_eq_iff}
use aibom_webhook_service.Base.Text.{starts_with}

pub starts_with_refl : (s : String) → starts_with s s ≡ true
unfolding starts_with
starts_with_refl [] = refl
starts_with_refl (c ∷ s) = ground (arith, nat_eq_iff (code c) (code c), starts_with_refl s)
