-- ===== src/Dict/Ops.antt =====
-- ui/dist/Main.js, `_elm_lang$core$Dict$…`: `balanceHelp`, `balance`, `bubble`, `removeMax`, `rem`,
-- `get` and `update` with the operations that call it.
use kubecast.Common.{lt, eq, gt, Bool, true, false, ◌||◌, Option, none, some, if◌then◌else◌, ◌>>=◌}
use kubecast.Ord.{Comparable}
use kubecast.Dict.{
  Dict, rb_empty, rb_node, NColor, red, black, bblack, nblack, lblack, lbblack, Flag, same, insert,
  remove, more_black, empty, is_bblack, max_with_default, blackish, ensure_black_root,
  less_black_tree, balanced_tree, blacken, redden,
}

-- What the tests of `balanceHelp` look for in a child: a red node above a red node, read from left
-- to right as two keys between three trees.
pub record Spine {ℓ κ} (K : Type ℓ) (V : Type κ) : Type (ℓ ⊔ κ) where
  pub xk : K
  pub xv : V
  pub yk : K
  pub yv : V
  pub a : Dict K V
  pub b : Dict K V
  pub c : Dict K V

-- And a negative black node above two black nodes.
pub record Wedge {ℓ κ} (K : Type ℓ) (V : Type κ) : Type (ℓ ⊔ κ) where
  pub xk : K
  pub xv : V
  pub yk : K
  pub yv : V
  pub zk : K
  pub zv : V
  pub a : Dict K V
  pub b : Dict K V
  pub c : Dict K V
  pub d : Dict K V

-- The type of `balance`, `bubble` and `removeMax`: the fields of a node, to a tree.
abbrev pub Balancer {ℓ κ} : Type ℓ → Type κ → Type (ℓ ⊔ κ)
Balancer K V = NColor → K → V → Dict K V → Dict K V → Option (Dict K V)

module _ {ℓ κ} {K : Type ℓ} {V : Type κ} where
  unfoldable pub red_red : Dict K V → Option (Spine K V)
  red_red (rb_node red k v (rb_node red lk lv a b) c) =
      some (record { xk = lk; xv = lv; yk = k; yv = v; a = a; b = b; c = c })
  red_red (rb_node red k v a (rb_node red rk rv b c)) =
      some (record { xk = k; xv = v; yk = rk; yv = rv; a = a; b = b; c = c })
  red_red _ = none

  unfoldable pub nblack_blacks : Dict K V → Option (Wedge K V)
  nblack_blacks (rb_node nblack k v (rb_node black lk lv a b) (rb_node black rk rv c d)) =
      some
        (record { xk = lk; xv = lv; yk = k; yv = v; zk = rk; zv = rv; a = a; b = b; c = c; d = d })
  nblack_blacks _ = none

  -- The two cases of `balanceHelp` at a double black root; `nested` is the call of `balance` there.
  unfoldable pub balance_nblack : Balancer K V → Balancer K V
  balance_nblack nested bblack k v l r = elim (nblack_blacks r) [
    | some w ↦ redden (rb_node black w.zk w.zv w.c w.d) >>= λ rr.
        nested black w.yk w.yv w.b rr >>= λ r'.
        some (rb_node black w.xk w.xv (rb_node black k v l w.a) r')
    | none ↦ elim (nblack_blacks l) [
      | some w ↦ redden (rb_node black w.xk w.xv w.a w.b) >>= λ ll.
          nested black w.yk w.yv ll w.c >>= λ l'.
          some (rb_node black w.zk w.zv l' (rb_node black k v w.d r))
      | none ↦ some (rb_node bblack k v l r)
    ]
  ]
  balance_nblack nested c k v l r = some (rb_node c k v l r)

  -- The order of the source's decision tree: a red pair on the left, one on the right, the negative
  -- black cases, and else the tree as it stands.
  unfoldable pub balance_help_with : Balancer K V → Balancer K V
  balance_help_with nested c k v l r = elim (red_red l) [
    | some s ↦ balanced_tree c s.xk s.xv s.yk s.yv k v s.a s.b s.c r
    | none ↦ elim (red_red r) [
      | some s ↦ balanced_tree c k v s.xk s.xv s.yk s.yv l s.a s.b s.c
      | none ↦ balance_nblack nested c k v l r
    ]
  ]

  unfoldable pub balance_with : Balancer K V → Balancer K V
  balance_with nested c k v l r =
      if blackish (rb_node c k v l r)
      then balance_help_with nested c k v l r
      else some (rb_node c k v l r)

  -- The recursion is one call deep: the nested call has a black root, where `balanceHelp` makes no
  -- further one (`balance_unfold` of Dict/Balance.antt is the source's equation).
  unfoldable pub balance : Balancer K V
  balance = balance_with (balance_with (λ c k v l r. none))

  unfoldable pub bubble : Balancer K V
  bubble c k v l r =
      if is_bblack l || is_bblack r
      then (more_black c >>= λ c'.
          less_black_tree l >>= λ l'. less_black_tree r >>= λ r'. balance c' k v l' r')
      else some (rb_node c k v l r)

  -- `rem` where one of the two trees is empty.
  unfoldable pub rem_edge : NColor → Dict K V → Dict K V → Option (Dict K V)
  rem_edge red (rb_empty lc) (rb_empty rc) = some (rb_empty lblack)
  rem_edge black (rb_empty lc) (rb_empty rc) = some (rb_empty lbblack)
  rem_edge black (rb_empty lblack) (rb_node red k v l r) = some (rb_node black k v l r)
  rem_edge black (rb_node red k v l r) (rb_empty lblack) = some (rb_node black k v l r)
  rem_edge _ _ _ = none

  -- `rem` at an empty right tree makes no further call, so the recursion is on `r` alone.
  unfoldable pub remove_max : Balancer K V
  remove_max c k v l (rb_empty rc) = rem_edge c l (rb_empty rc)
  remove_max c k v l (rb_node rc rk rv rl rr) =
      remove_max rc rk rv rl rr >>= λ r'. bubble c k v l r'

  unfoldable pub rem : NColor → Dict K V → Dict K V → Option (Dict K V)
  rem c (rb_node lc lk lv ll lr) (rb_node rc rk rv rl rr) =
      remove_max lc lk lv ll lr >>= λ new_left.
      let (k, v) = max_with_default lk lv lr in bubble c k v new_left (rb_node rc rk rv rl rr)
  rem c l r = rem_edge c l r

  -- What `update` does above a step that returned a flag.
  unfoldable pub rebuild : Flag → Balancer K V
  rebuild same c k v l r = some (rb_node c k v l r)
  rebuild insert c k v l r = balance c k v l r
  rebuild remove c k v l r = bubble c k v l r

  unfoldable pub finish : Flag → Dict K V → Dict K V
  finish same d = d
  finish insert d = ensure_black_root d
  finish remove d = blacken d

  unfoldable pub up_here :
      (Option V → Option V) → NColor → K → V → Dict K V → Dict K V → Option (Flag × Dict K V)
  up_here alter c k v l r = elim (alter (some v)) [
    | none ↦ rem c l r >>= λ t. some (remove, t)
    | some v' ↦ some (same, rb_node c k v' l r)
  ]

module _ {ℓ κ} {K : Type ℓ} {V : Type κ} ⦃o : Comparable K⦄ where
  unfoldable pub get : K → Dict K V → Option V
  get k (rb_empty c) = none
  get k (rb_node c j v l r) = elim (o.cmp k j) [ lt ↦ get k l | eq ↦ some v | gt ↦ get k r ]

  unfoldable pub member : K → Dict K V → Bool
  unfolding get
  member k d = elim (get k d) [ some v ↦ true | none ↦ false ]

  unfoldable pub up : K → (Option V → Option V) → Dict K V → Option (Flag × Dict K V)
  up k alter (rb_empty c) = elim (alter none) [
    | none ↦ some (same, empty)
    | some v ↦ some (insert, rb_node red k v empty empty)
  ]
  up k alter (rb_node c j v l r) = elim (o.cmp k j) [
    | eq ↦ up_here alter c j v l r
    | lt ↦ up k alter l >>= λ p. rebuild p.0 c j v p.1 r >>= λ t. some (p.0, t)
    | gt ↦ up k alter r >>= λ p. rebuild p.0 c j v l p.1 >>= λ t. some (p.0, t)
  ]

  unfoldable pub update : K → (Option V → Option V) → Dict K V → Option (Dict K V)
  unfolding up finish
  update k alter d = up k alter d >>= λ p. some (finish p.0 p.1)

  unfoldable pub put : K → V → Dict K V → Option (Dict K V)
  unfolding update
  put k v d = update k (λ _. some v) d

  unfoldable pub discard : K → Dict K V → Option (Dict K V)
  unfolding update
  discard k d = update k (λ _. none) d
