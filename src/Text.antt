-- ===== src/Text.antt =====
-- Texts as lists of UTF-16 code units, with what the program uses of its languages' string
-- libraries: `split` at a newline, `trim`, and equality.
pub mod Split
pub mod Lines
use kubecast.Common.{
  ℕ, Bool, true, false, ◌&&◌, ◌||◌, List, [], ◌∷◌, ◌++◌, ltb, ◌==◌, if◌then◌else◌, not,
}
use mathlib.Core.List.{reverse}
use Prim.Native.String.{String}
use Prim.Native.Char.{code}

abbrev pub Str : Type 0
Str = List ℕ

-- The code units of a literal.
abbrev pub codes : String → Str
codes String.[] = []
codes (String.◌∷◌ c s) = code c ∷ codes s

abbrev pub newline : ℕ
newline = 10

-- `==` on strings.
unfoldable pub str_eq : Str → Str → Bool
str_eq [] [] = true
str_eq [] (y ∷ ys) = false
str_eq (x ∷ xs) [] = false
str_eq (x ∷ xs) (y ∷ ys) = x == y && str_eq xs ys

-- The white space and line terminators that JavaScript's `trim` removes.
unfoldable pub is_space : ℕ → Bool
is_space c =
    (not (ltb c 9) && ltb c 14)
    || c == 32
    || c == 160
    || c == 0x1680
    || (not (ltb c 0x2000) && ltb c 0x200b)
    || c == 0x2028
    || c == 0x2029
    || c == 0x202f
    || c == 0x205f
    || c == 0x3000
    || c == 0xfeff

unfoldable pub trim_left : Str → Str
unfolding is_space
trim_left [] = []
trim_left (c ∷ cs) = if is_space c then trim_left cs else c ∷ cs

unfoldable pub trim : Str → Str
unfolding trim_left
trim s = reverse (trim_left (reverse (trim_left s)))

-- The head of a split gets one more unit.
abbrev pub push_head : ℕ → List Str → List Str
push_head c [] = (c ∷ []) ∷ []
push_head c (l ∷ ls) = (c ∷ l) ∷ ls

-- `split` at one code unit; the empty string has one part.
unfoldable pub split : ℕ → Str → List Str
split sep [] = [] ∷ []
split sep (c ∷ cs) = let parts = split sep cs in if c == sep then [] ∷ parts else push_head c parts
