-- ===== src/App/Helpers.antt =====
-- ui/dist/Main.js, `_dippynark$elm$Cast_Helpers$…`: every second element of a list.
use kubecast.Common.{ℕ, ◌+◌, ◌%◌, List, [], ◌∷◌, ◌==◌, if◌then◌else◌}

module _ {ℓ} {A : Type ℓ} where
  unfoldable pub odd_elements_ : List A → ℕ → List A
  odd_elements_ [] index = []
  odd_elements_ (x ∷ xs) index =
      let rest = odd_elements_ xs (index + 1) in if index % 2 == 0 then rest else x ∷ rest

  unfoldable pub odd_elements : List A → List A
  unfolding odd_elements_
  odd_elements list = odd_elements_ list 1

  unfoldable pub even_elements_ : List A → ℕ → List A
  even_elements_ [] index = []
  even_elements_ (x ∷ xs) index =
      let rest = even_elements_ xs (index + 1) in if index % 2 == 0 then x ∷ rest else rest

  unfoldable pub even_elements : List A → List A
  unfolding even_elements_
  even_elements list = even_elements_ list 1
