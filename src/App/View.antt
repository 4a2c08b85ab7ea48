-- ===== src/App/View.antt =====
-- ui/dist/Main.js, `_dippynark$elm$Cast_View$…`: the page as a tree of HTML, with the functions on
-- strings that it calls: `toString` of a string, and `unquote`.
use kubecast.Common.{
  ℕ, Bool, true, false, ◌&&◌, List, [], ◌∷◌, ◌++◌, ◌==◌, if◌then◌else◌, length, drop,
}
use mathlib.Core.List.{reverse}
use kubecast.Text.{Str, codes}
use kubecast.App.Model.{Model, Msg, display_cast}

-- `replace` with a regular expression that is one character, for all its occurrences.
unfoldable pub replace : ℕ → Str → Str → Str
replace c by [] = []
replace c by (d ∷ s) = (if d == c then by else d ∷ []) ++ replace c by s

-- A character after a backslash.
abbrev pub slashed : ℕ → Str
slashed c = 92 ∷ c ∷ []

-- `addSlashes` of a string: backslashes, newlines, tabs, returns, vertical tabs, zeros, and quotes.
unfoldable pub add_slashes : Str → Str
unfolding replace
add_slashes s = replace 34 (slashed 34) (
    replace 0 (slashed 48) (
      replace 11 (slashed 118) (
        replace 13 (slashed 114)
          (replace 9 (slashed 116) (replace 10 (slashed 110) (replace 92 (slashed 92) s))))))

-- `toString` of a string.
unfoldable pub to_string : Str → Str
unfolding add_slashes
to_string s = 34 ∷ (add_slashes s ++ 34 ∷ [])

-- A prefix; `indexOf` finds it at 0.
unfoldable pub starts_with : Str → Str → Bool
starts_with [] s = true
starts_with (c ∷ cs) [] = false
starts_with (c ∷ cs) (d ∷ s) = c == d && starts_with cs s

unfoldable pub ends_with : Str → Str → Bool
unfolding starts_with
ends_with sub s = starts_with (reverse sub) (reverse s)

abbrev drop_left : ℕ → Str → Str
drop_left n s = drop n s

abbrev drop_right : ℕ → Str → Str
drop_right n s = reverse (drop n (reverse s))

unfoldable pub unsurround : Str → Str → Str
unfolding starts_with ends_with
unsurround wrap s =
    if starts_with wrap s && ends_with wrap s
    then drop_right (length wrap) (drop_left (length wrap) s)
    else s

unfoldable pub unquote : Str → Str
unfolding unsurround
unquote s = unsurround (34 ∷ []) s

-- HTML as `Html` makes it: attributes, the message of an event, and nodes.
pub data Attribute : Type 0 where
  attribute : Str → Str → Attribute
  on_input : (Str → Msg) → Attribute

mutual
  pub data Html : Type 0 where
    element : Str → List Attribute → Nodes → Html
    text : Str → Html

  pub data Nodes : Type 0 where
    nil : Nodes
    cons : Html → Nodes → Nodes

abbrev pub nodes : List Html → Nodes
nodes [] = nil
nodes (h ∷ hs) = cons h (nodes hs)

-- `List.map2` goes as far as the shorter list.
unfoldable pub map2 : {A B C : Type 0} → (A → B → C) → List A → List B → List C
map2 f [] ys = []
map2 f (x ∷ xs) [] = []
map2 f (x ∷ xs) (y ∷ ys) = f x y ∷ map2 f xs ys

unfoldable pub cast_option : Str → Str → Html
unfolding to_string unquote
cast_option cast labels =
    element (codes "option") (attribute (codes "value") (to_string cast) ∷ [])
      (nodes (text (unquote (to_string labels)) ∷ []))

unfoldable pub view : Model → Html
unfolding map2 cast_option
view model = element (codes "div") (attribute (codes "class") (codes "container") ∷ []) (
    nodes (
      element (codes "div") (attribute (codes "class") (codes "row") ∷ []) (
        nodes (
          element (codes "h2") (attribute (codes "class") (codes "text-center") ∷ [])
            (nodes (text (codes "Terminal Sessions") ∷ []))
          ∷ element (codes "select") (on_input display_cast ∷ [])
              (nodes (map2 cast_option model.casts model.labels))
          ∷ []))
      ∷ element (codes "div") (attribute (codes "class") (codes "row") ∷ []) (
          nodes (
            element (codes "div")
              (attribute (codes "id") (codes "asciinema-player-container")
                ∷ attribute (codes "class") (codes "container")
                ∷ [])
              nil
            ∷ []))
      ∷ []))
