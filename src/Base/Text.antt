-- ===== src/Base/Text.antt =====
-- Whole texts are compared as native strings.
use Prim.Native.String.{String}
use mathlib.Core.Path.{◌≡◌}
use mathlib.Core.Bool.{Bool, true}
use text.Mathlib.Text.{◌==◌}
use text.Mathlib.TextEquality.{eq_iff}
use text.Mathlib.TextPositions.{eq_refl}
use native.Mathlib.Omega.{arith}

-- `left === right` on texts.
abbrev pub same_text : String → String → Bool
same_text s t = s == t

pub same_text_refl : (s : String) → same_text s s ≡ true
same_text_refl s = eq_refl s

pub same_text-eq : (s t : String) → same_text s t ≡ true → s ≡ t
same_text-eq s t h = ground (arith, eq_iff s t)
