-- ===== src/Platform/Bags.antt =====
-- ui/dist/Main.js, `_elm_lang$core$Native_Platform`: what the effect managers receive of the program's
-- bags of effects.
use kubecast.Common.{
  ◌≡◌, refl, sym, ap, ◌∙◌, arith, Bool, true, false, List, [], ◌∷◌, ◌++◌, if◌then◌else◌,
  append_assoc, Bool-cases, inl, inr,
}
use mathlib.Core.List.{reverse, reverse-append}
use kubecast.Text.{Str, str_eq}
use kubecast.Platform.{
  Bag, leaf, node, tagged, Branches, nil, cons, Effects, EffectsDict, or_none, insert,
  apply_taggers, to_effect, gather_effects, gather_branches,
}

pub str_eq_refl : (s : Str) → str_eq s s ≡ true
unfolding str_eq
str_eq_refl [] = refl
str_eq_refl (c ∷ s) = ground (arith, str_eq_refl s)

pub str_eq-eq : (s t : Str) → str_eq s t ≡ true → s ≡ t
unfolding str_eq
str_eq-eq [] [] e = refl
str_eq-eq [] (d ∷ t) e = cc
str_eq-eq (c ∷ s) [] e = cc
str_eq-eq (c ∷ s) (d ∷ t) e = ground (arith, str_eq-eq s t)

-- Effects with new ones put at the head, the last of them first.
abbrev pub gained : {E : Type 0} → Bool → List E → Effects E → Effects E
gained true new effects = record effects { cmds = reverse new ++ effects.cmds }
gained false new effects = record effects { subs = reverse new ++ effects.subs }

reverse-twice :
    {E : Type 0} (xs ys zs : List E) → reverse ys ++ (reverse xs ++ zs) ≡ reverse (xs ++ ys) ++ zs
reverse-twice xs ys zs =
    sym (append_assoc (reverse ys) (reverse xs) zs) ∙ ap (λ l. l ++ zs) (sym (reverse-append xs ys))

gained-gained :
    {E : Type 0} (b : Bool) (xs ys : List E) (e : Effects E)
    → gained b ys (gained b xs e) ≡ gained b (xs ++ ys) e
gained-gained {E} true xs ys e =
    ap {B = Effects E} (λ l. record e { cmds = l }) (reverse-twice xs ys e.cmds)
gained-gained {E} false xs ys e =
    ap {B = Effects E} (λ l. record e { subs = l }) (reverse-twice xs ys e.subs)

gained-nil : {E : Type 0} (b : Bool) (e : Effects E) → e ≡ gained b [] e
gained-nil true e = refl
gained-nil false e = refl

module _ {X E : Type 0} (cmd_map sub_map : Str → (X → X) → E → E) where
  -- The effects of a bag for one manager, from left to right, each mapped by all the taggers above it,
  -- the innermost first.
  mutual
    pub effects_for : Bool → Str → (X → X) → Bag X E → List E
    effects_for is_cmd home f (leaf h e) =
        if str_eq home h then (if is_cmd then cmd_map home f e else sub_map home f e) ∷ [] else []
    effects_for is_cmd home f (node branches) = branch_effects is_cmd home f branches
    effects_for is_cmd home f (tagged tagger bag) = effects_for is_cmd home (λ x. f (tagger x)) bag

    pub branch_effects : Bool → Str → (X → X) → Branches X E → List E
    branch_effects is_cmd home f nil = []
    branch_effects is_cmd home f (cons bag rest) =
        effects_for is_cmd home f bag ++ branch_effects is_cmd home f rest

  leaf-gained :
      (b : Bool) (i home : Str) (taggers : List (X → X)) (e : E) (dict : EffectsDict E)
      → or_none (gather_effects cmd_map sub_map b (leaf home e) dict taggers i)
        ≡ gained b (effects_for b i (apply_taggers taggers) (leaf home e)) (or_none (dict i))
  unfolding gather_effects to_effect insert effects_for
  leaf-gained b i home taggers e dict = elim (Bool-cases (str_eq i home)) [
    | inl y ↦ rw (y, str_eq-eq i home y) (at_kind b)
    | inr n ↦ rw n (gained-nil b (or_none (dict i)))
  ]
    where
      at_kind :
          (b : Bool)
          → insert b (to_effect cmd_map sub_map b home taggers e) (dict home)
            ≡ gained b
                ((if b
                    then cmd_map home (apply_taggers taggers) e
                    else sub_map home (apply_taggers taggers) e)
                  ∷ [])
                (or_none (dict home))
      at_kind true = refl
      at_kind false = refl

  mutual
    unfolding gather_effects effects_for apply_taggers

    pub gather_effects-gained :
        (b : Bool) (i : Str) (bag : Bag X E) (dict : EffectsDict E) (taggers : List (X → X))
        → or_none (gather_effects cmd_map sub_map b bag dict taggers i)
          ≡ gained b (effects_for b i (apply_taggers taggers) bag) (or_none (dict i))
    gather_effects-gained b i (leaf home e) dict taggers = leaf-gained b i home taggers e dict
    gather_effects-gained b i (node branches) dict taggers =
        gather_branches-gained b i branches dict taggers
    gather_effects-gained b i (tagged tagger bag) dict taggers =
        gather_effects-gained b i bag dict (tagger ∷ taggers)

    gather_branches-gained :
        (b : Bool) (i : Str) (branches : Branches X E) (dict : EffectsDict E)
        (taggers : List (X → X))
        → or_none (gather_branches cmd_map sub_map b branches dict taggers i)
          ≡ gained b (branch_effects b i (apply_taggers taggers) branches) (or_none (dict i))
    gather_branches-gained b i nil dict taggers = gained-nil b (or_none (dict i))
    gather_branches-gained b i (cons bag rest) dict taggers =
        gather_branches-gained b i rest (gather_effects cmd_map sub_map b bag dict taggers) taggers
        ∙ ap (gained b (branch_effects b i (apply_taggers taggers) rest))
            (gather_effects-gained b i bag dict taggers)
        ∙ gained-gained b (effects_for b i (apply_taggers taggers) bag) _ (or_none (dict i))
