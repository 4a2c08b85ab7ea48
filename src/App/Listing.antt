-- ===== src/App/Listing.antt =====
-- The server's list message (cmd/server/main.go) as the page's `split` and `trim` see it
-- (ui/dist/Main.js, `_dippynark$elm$Cast_Update$update`).
use kubecast.Common.{
  ℕ, ◌+◌, ◌%◌, false, List, [], ◌∷◌, ◌++◌, All, All-append, ◌≡◌, refl, ap, ◌∙◌, sym, append_assoc,
  append-nil, arith, map, subst,
}
use kubecast.Text.{Str, newline, codes, is_space, split, trim}
use kubecast.Text.Split.{IsLine}
use kubecast.Text.Lines.{
  join_lines, unlines, IsEnded, IsEnded-append, trim-newline, split-join_lines, unlines-join_lines,
}
use kubecast.Server.{join_labels, list_message}
use kubecast.App.Helpers.{odd_elements, even_elements, odd_elements_, even_elements_}
use kubecast.App.Riffle.{odd_step, odd_skip, even_step, even_skip}

-- A session that the listing can name: a path that does not begin with white space, and labels,
-- at least one; none holds a newline.
pub record IsEntry (entry : Str × List Str) : Type 0 where
  pub first : ℕ
  pub rest : Str
  pub no_space : is_space first ≡ false
  pub path : entry.0 ≡ first ∷ rest
  pub path_line : IsLine newline entry.0
  pub label : Str
  pub labels : List Str
  pub some_label : entry.1 ≡ label ∷ labels
  pub label_lines : All (IsLine newline) entry.1

abbrev pub label_text : Str × List Str → Str
label_text entry = join_labels [] entry.1

abbrev pub lines_of : List (Str × List Str) → List Str
lines_of [] = []
lines_of (entry ∷ entries) = entry.0 ∷ label_text entry ∷ lines_of entries

dot-IsEnded : IsEnded (codes ".")
unfolding is_space
dot-IsEnded = record { front = []; last = 46; no_space = refl; whole = refl }

join_labels-IsEnded :
    (acc : Str) (labels : List Str) → IsEnded acc → IsEnded (join_labels acc labels)
unfolding join_labels
join_labels-IsEnded acc [] h = h
join_labels-IsEnded acc (l ∷ ls) h =
    join_labels-IsEnded (acc ++ l ++ codes ".") ls
      (IsEnded-append (acc ++ l) (codes ".") dot-IsEnded)

join_labels-IsLine :
    (acc : Str) (labels : List Str)
    → IsLine newline acc
    → All (IsLine newline) labels
    → IsLine newline (join_labels acc labels)
unfolding join_labels
join_labels-IsLine acc [] h hs = h
join_labels-IsLine acc (l ∷ ls) h hs =
    join_labels-IsLine (acc ++ l ++ codes ".") ls
      (All-append _ (acc ++ l) (codes ".") (All-append _ acc l h hs.0) (refl, tt)) hs.1

entry_text :
    (file labels rest : Str)
    → (file ++ newline ∷ [] ++ labels ++ newline ∷ []) ++ rest
      ≡ file ++ newline ∷ (labels ++ newline ∷ rest)
entry_text file labels rest =
    append_assoc (file ++ newline ∷ [] ++ labels) (newline ∷ []) rest
    ∙ append_assoc (file ++ newline ∷ []) labels (newline ∷ rest)
    ∙ append_assoc file (newline ∷ []) (labels ++ newline ∷ rest)

list_message-unlines :
    (acc : Str) (entries : List (Str × List Str))
    → list_message acc entries ≡ acc ++ unlines (lines_of entries)
unfolding list_message
list_message-unlines acc [] = sym (append-nil acc)
list_message-unlines acc (e ∷ es) =
    list_message-unlines _ es
    ∙ append_assoc acc _ (unlines (lines_of es))
    ∙ ap (λ u. acc ++ u) (entry_text e.0 (label_text e) (unlines (lines_of es)))

-- All of the message but its last newline.
abbrev pub text_of : Str × List Str → List (Str × List Str) → Str
text_of e es = join_lines e.0 (label_text e ∷ lines_of es)

label_text-IsEnded : (e : Str × List Str) → IsEntry e → IsEnded (label_text e)
unfolding join_labels
label_text-IsEnded e h =
    subst (λ ls. IsEnded (join_labels [] ls)) (sym h.some_label)
      (join_labels-IsEnded (h.label ++ codes ".") h.labels
        (IsEnded-append h.label (codes ".") dot-IsEnded))

text_of-IsEnded :
    (e : Str × List Str) (es : List (Str × List Str))
    → All IsEntry (e ∷ es)
    → IsEnded (text_of e es)
text_of-IsEnded e [] h =
    IsEnded-append e.0 _ (IsEnded-append (newline ∷ []) (label_text e) (label_text-IsEnded e h.0))
text_of-IsEnded e (f ∷ es) h = IsEnded-append e.0 _ (
    IsEnded-append (newline ∷ label_text e) (newline ∷ text_of f es)
      (IsEnded-append (newline ∷ []) (text_of f es) (text_of-IsEnded f es h.1)))

lines_of-IsLine :
    (entries : List (Str × List Str))
    → All IsEntry entries
    → All (IsLine newline) (lines_of entries)
lines_of-IsLine [] h = tt
lines_of-IsLine (e ∷ es) h =
    (h.0.path_line, (join_labels-IsLine [] e.1 tt h.0.label_lines, lines_of-IsLine es h.1))

odd_elements-lines_of_ :
    (entries : List (Str × List Str)) (index : ℕ)
    → index % 2 ≡ 1
    → odd_elements_ (lines_of entries) index ≡ map (λ e. e.0) entries
unfolding odd_elements_
odd_elements-lines_of_ [] index h = refl
odd_elements-lines_of_ (e ∷ es) index h =
    rw
      (
        odd_step e.0 (label_text e ∷ lines_of es) index h,
        odd_skip (label_text e) (lines_of es) (index + 1) (omega arith),
        odd_elements-lines_of_ es (index + 1 + 1) (omega arith),
      )
      refl

even_elements-lines_of_ :
    (entries : List (Str × List Str)) (index : ℕ)
    → index % 2 ≡ 1
    → even_elements_ (lines_of entries) index ≡ map label_text entries
unfolding even_elements_
even_elements-lines_of_ [] index h = refl
even_elements-lines_of_ (e ∷ es) index h =
    rw
      (
        even_skip e.0 (label_text e ∷ lines_of es) index h,
        even_step (label_text e) (lines_of es) (index + 1) (omega arith),
        even_elements-lines_of_ es (index + 1 + 1) (omega arith),
      )
      refl

pub odd_elements-lines_of :
    (entries : List (Str × List Str)) → odd_elements (lines_of entries) ≡ map (λ e. e.0) entries
unfolding odd_elements
odd_elements-lines_of entries = odd_elements-lines_of_ entries 1 refl

pub even_elements-lines_of :
    (entries : List (Str × List Str)) → even_elements (lines_of entries) ≡ map label_text entries
unfolding even_elements
even_elements-lines_of entries = even_elements-lines_of_ entries 1 refl

pub split-trim-list_message :
    (e : Str × List Str) (es : List (Str × List Str))
    → All IsEntry (e ∷ es)
    → split newline (trim (list_message [] (e ∷ es))) ≡ lines_of (e ∷ es)
split-trim-list_message e es h =
    let whole : list_message [] (e ∷ es) ≡ text_of e es ++ newline ∷ [] =
      list_message-unlines [] (e ∷ es) ∙ unlines-join_lines e.0 (label_text e ∷ lines_of es) in
    let begins : text_of e es
        ≡ h.0.first ∷ (h.0.rest ++ newline ∷ join_lines (label_text e) (lines_of es)) =
      ap (λ u. u ++ newline ∷ join_lines (label_text e) (lines_of es)) h.0.path in
    let ended = subst IsEnded begins (text_of-IsEnded e es h) in
    rw (whole, begins, trim-newline h.0.first _ h.0.no_space ended, sym begins)
      (split-join_lines e.0 (label_text e ∷ lines_of es) (lines_of-IsLine (e ∷ es) h))
