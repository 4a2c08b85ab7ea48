-- ===== src/Dict/Folds.antt =====
-- ui/dist/Main.js, `_elm_lang$core$Dict$…`: the folds, and what is built from `update` by a fold.
use kubecast.Common.{
  ℕ, suc, ◌+◌, ◌≡◌, refl, sym, ◌∙◌, ap, Option, some, List, [], ◌∷◌, ◌++◌, map, arith, append-nil,
  append_assoc, map-append, length, length-append, ◌>>=◌,
}
use kubecast.Ord.{Comparable}
use kubecast.Dict.{Dict, rb_empty, rb_node, foldl, foldr, keys, size, size_help}
use kubecast.Dict.Ops.{get, update}
use kubecast.Dict.Balance.{contents}
use kubecast.Dict.Derived.{foldl_list}
use kubecast.Dict.Laws.{IsDict, revise, get-update}

module _ {ℓ κ μ} {K : Type ℓ} {V : Type κ} {B : Type μ} where
  foldl_list-append :
      (f : K × V → B → B) (acc : B) (xs ys : List (K × V))
      → foldl_list f acc (xs ++ ys) ≡ foldl_list f (foldl_list f acc xs) ys
  unfolding foldl_list
  foldl_list-append f acc [] ys = refl
  foldl_list-append f acc (x ∷ xs) ys = foldl_list-append f (f x acc) xs ys

  -- `foldl` runs over the entries of any tree from left to right.
  pub foldl-contents :
      (f : K → V → B → B) (acc : B) (d : Dict K V)
      → foldl f acc d ≡ foldl_list (λ p. f p.0 p.1) acc (contents d)
  unfolding foldl
  foldl-contents f acc (rb_empty c) = unfold foldl_list in refl
  foldl-contents f acc (rb_node c k v l r) =
      foldl-contents f (f k v (foldl f acc l)) r
      ∙ ap (λ b. foldl_list (λ p. f p.0 p.1) (f k v b) (contents r)) (foldl-contents f acc l)
      ∙ unfold foldl_list in
        sym (foldl_list-append (λ p. f p.0 p.1) acc (contents l) ((k, v) ∷ contents r))

module _ {ℓ κ} {K : Type ℓ} {V : Type κ} where
  size_help-length : (n : ℕ) (d : Dict K V) → size_help n d ≡ n + length (contents d)
  unfolding size_help
  size_help-length n (rb_empty c) = omega arith
  size_help-length n (rb_node c k v l r) = omega (
    arith,
    size_help-length (size_help (suc n) r) l,
    size_help-length (suc n) r,
    length-append (contents l) ((k, v) ∷ contents r),
  )

  -- `size` is the number of the entries, for any tree.
  pub size-length : (d : Dict K V) → size d ≡ length (contents d)
  unfolding size
  size-length d = omega (arith, size_help-length 0 d)

  foldr_keys :
      (ks : List K) (d : Dict K V) → foldr (λ k v l. k ∷ l) ks d ≡ map (λ p. p.0) (contents d) ++ ks
  unfolding foldr
  foldr_keys ks (rb_empty c) = refl
  foldr_keys ks (rb_node c k v l r) =
      foldr_keys (k ∷ foldr (λ k v l. k ∷ l) ks r) l
      ∙ ap (λ xs. map (λ p. p.0) (contents l) ++ k ∷ xs) (foldr_keys ks r)
      ∙ simp (map-append, append_assoc)

  -- `keys` lists the keys of the entries of any tree, from left to right.
  pub keys-contents : (d : Dict K V) → keys d ≡ map (λ p. p.0) (contents d)
  unfolding keys
  keys-contents d = foldr_keys [] d ∙ append-nil _

module _ {ℓ κ} {K : Type ℓ} {V : Type κ} ⦃o : Comparable K⦄ where
  -- What `get` reads, as a function.
  abbrev pub reads : Dict K V → K → Option V
  reads d i = get i d

  -- A call that returns a dictionary which reads as `g`.
  abbrev pub Reads : Option (Dict K V) → (K → Option V) → Type (ℓ ⊔ κ)
  Reads m g = (t : Dict K V) × (m ≡ some t) × IsDict t × (reads t ≡ g)

  pub update-Reads :
      (k : K) (f : Option V → Option V) (d : Dict K V)
      → IsDict d
      → Reads (update k f d) (revise (reads d) k f)
  update-Reads k f d h = let (t, e, ht, g) = get-update k f d h in (t, e, ht, λ x i. g i x)

  -- A fold of steps that refine a change of functions refines the fold of the changes.
  pub foldl_list-Reads {μ} :
      {A : Type μ} (step : A → Dict K V → Option (Dict K V))
      (change : A → (K → Option V) → K → Option V)
      → ((a : A) (t : Dict K V) → IsDict t → Reads (step a t) (change a (reads t)))
      → (xs : List A) (t : Dict K V) → IsDict t
      → Reads (foldl_list (λ a acc. acc >>= step a) (some t) xs) (foldl_list change (reads t) xs)
  unfolding foldl_list
  foldl_list-Reads step change sound [] t h = (t, refl, h, refl)
  foldl_list-Reads step change sound (a ∷ xs) t h =
      let (t', e, h', g) = sound a t h in
      let (u, e', hu, g') = foldl_list-Reads step change sound xs t' h' in
      (u, rw e e', hu, g' ∙ ap (λ q. foldl_list change q xs) g)
