-- ===== src/Text/Lines.antt =====
-- Texts made of lines, each ended by a newline, and how `trim` and `split` take them apart.
use kubecast.Common.{ℕ, false, List, [], ◌∷◌, ◌++◌, All, ◌≡◌, refl, ap, ◌∙◌, sym, append_assoc}
use mathlib.Core.List.{reverse, reverse-reverse, reverse-append}
use kubecast.Text.{Str, newline, is_space, trim_left, trim, split}
use kubecast.Text.Split.{IsLine, split-append, split_line}

-- The lines with newlines between them, and with one after each.
abbrev pub join_lines : Str → List Str → Str
join_lines l [] = l
join_lines l (m ∷ ls) = l ++ newline ∷ join_lines m ls

abbrev pub unlines : List Str → Str
unlines [] = []
unlines (l ∷ ls) = l ++ newline ∷ unlines ls

-- The last unit is there and is no white space.
pub record IsEnded (s : Str) : Type 0 where
  pub front : Str
  pub last : ℕ
  pub no_space : is_space last ≡ false
  pub whole : s ≡ front ++ last ∷ []

pub IsEnded-append : (s t : Str) → IsEnded t → IsEnded (s ++ t)
IsEnded-append s t h = record {
  front = s ++ h.front;
  last = h.last;
  no_space = h.no_space;
  whole = ap (λ u. s ++ u) h.whole ∙ sym (append_assoc s h.front (h.last ∷ []));
}

trim_left_keeps : (c : ℕ) (s : Str) → is_space c ≡ false → trim_left (c ∷ s) ≡ c ∷ s
unfolding trim_left
trim_left_keeps c s h = rw h refl

trim_left-newline : (s : Str) → trim_left (newline ∷ s) ≡ trim_left s
unfolding trim_left is_space
trim_left-newline s = refl

reverse-IsEnded : (s : Str) (h : IsEnded s) → reverse s ≡ h.last ∷ reverse h.front
reverse-IsEnded s h = ap reverse h.whole ∙ reverse-append h.front (h.last ∷ [])

pub trim-newline :
    (c : ℕ) (s : Str) → is_space c ≡ false → IsEnded (c ∷ s) → trim (c ∷ s ++ newline ∷ []) ≡ c ∷ s
unfolding trim
trim-newline c s hc h =
    let ends = reverse-IsEnded (c ∷ s) h in
    let kept : trim_left (reverse (c ∷ s)) ≡ reverse (c ∷ s) =
      rw ends (trim_left_keeps h.last (reverse h.front) h.no_space) in
    rw
      (
        trim_left_keeps c (s ++ newline ∷ []) hc,
        reverse-append (c ∷ s) (newline ∷ []),
        trim_left-newline (reverse (c ∷ s)),
        kept,
      )
      (reverse-reverse (c ∷ s))

pub split-join_lines :
    (l : Str) (ls : List Str)
    → All (IsLine newline) (l ∷ ls)
    → split newline (join_lines l ls) ≡ l ∷ ls
split-join_lines l [] h = split_line newline l h.0
split-join_lines l (m ∷ ls) h =
    split-append newline l (join_lines m ls) h.0 ∙ ap (λ u. l ∷ u) (split-join_lines m ls h.1)

pub unlines-join_lines :
    (l : Str) (ls : List Str) → unlines (l ∷ ls) ≡ join_lines l ls ++ newline ∷ []
unlines-join_lines l [] = refl
unlines-join_lines l (m ∷ ls) =
    ap (λ u. l ++ newline ∷ u) (unlines-join_lines m ls)
    ∙ sym (append_assoc l (newline ∷ join_lines m ls) (newline ∷ []))
