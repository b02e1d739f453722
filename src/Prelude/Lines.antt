-- ===== src/Prelude/Lines.antt =====
-- What Python's `str` methods `strip`, `rstrip`, `splitlines`, `startswith` and `endswith` do to a text.
use Prim.Native.Nat.{ℕ}
use mathlib.Core.Bool.{Bool, true, false, not, ◌&&◌, ◌||◌}
use mathlib.Core.List.{List, [], ◌∷◌, ◌++◌, reverse}
use geopilot_hvac.Prelude.Tests.{leb, eqb, if◌then◌else◌}
use geopilot_hvac.Prelude.Strings.{Text, is_space}

-- `text.startswith(start)`
unfoldable pub starts_with : Text → Text → Bool
starts_with [] s = true
starts_with (c ∷ p) [] = false
starts_with (c ∷ p) (d ∷ s) = eqb c d && starts_with p s

-- `text.endswith(end)`
unfoldable pub ends_with : Text → Text → Bool
unfolding starts_with
ends_with end s = starts_with (reverse end) (reverse s)

-- `text.lstrip()`
unfoldable pub strip_left : Text → Text
unfolding is_space
strip_left [] = []
strip_left (c ∷ s) = if is_space c then strip_left s else c ∷ s

-- `text.rstrip()`
unfoldable pub strip_right : Text → Text
unfolding strip_left
strip_right s = reverse (strip_left (reverse s))

-- `text.strip()`
unfoldable pub strip : Text → Text
unfolding strip_left strip_right
strip s = strip_right (strip_left s)

-- The code points that `splitlines` breaks at, besides CR LF, which is one break.
unfoldable pub is_break : ℕ → Bool
is_break c =
    (leb 10 c && leb c 13)
    || (leb 0x1c c && leb c 0x1e)
    || eqb c 0x85
    || eqb c 0x2028
    || eqb c 0x2029

-- `text.splitlines()` from a line begun, right after a CR or not; a break at the end begins no line
unfoldable pub lines_from : Text → Bool → Text → List Text
unfolding is_break
lines_from [] after_cr [] = []
lines_from (d ∷ line) after_cr [] = (d ∷ line) ∷ []
lines_from line after_cr (c ∷ s) =
    let skipped = after_cr && eqb c 10 in
    let ends = is_break c && not skipped in
    let rest = lines_from (if is_break c then [] else line ++ c ∷ []) (eqb c 13) s in
    if ends then line ∷ rest else rest

-- `text.splitlines()`
unfoldable pub split_lines : Text → List Text
unfolding lines_from
split_lines s = lines_from [] false s
