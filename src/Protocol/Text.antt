-- ===== src/Protocol/Text.antt =====
-- What the source uses of Go's package strings on whole texts.
use Prim.Native.Char.{code}
use Prim.Native.String.{[], ◌∷◌}
use xgoal.Prelude.{ℕ, String, Bool, true, ◌||◌, ◌&&◌, ◌==◌, nat_eq, leb}

-- unicode.IsSpace
unfoldable pub is_space : ℕ → Bool
is_space c =
    (leb 9 c && leb c 13)
    || c == 32
    || c == 0x85
    || c == 0xa0
    || c == 0x1680
    || (leb 0x2000 c && leb c 0x200a)
    || c == 0x2028
    || c == 0x2029
    || c == 0x202f
    || c == 0x205f
    || c == 0x3000

-- strings.TrimSpace(s) == ""
unfoldable pub is_blank : String → Bool
unfolding is_space
is_blank [] = true
is_blank (c ∷ s) = is_space (code c) && is_blank s
