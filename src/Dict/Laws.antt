-- ===== src/Dict/Laws.antt =====
-- ui/dist/Main.js, `_elm_lang$core$Dict$…`: the invariant of a dictionary, and `update` and `get`
-- as a client sees them.
use kubecast.Common.{ℕ, zero, eq, ◌≡◌, sym, ◌∙◌, ap, subst, Option, some}
use kubecast.Ord.{Comparable}
use kubecast.Dict.{Dict, black, empty}
use kubecast.Dict.Ops.{get, update}
use kubecast.Dict.Balance.{contents}
use kubecast.Dict.Sorted.{IsSorted, find, alter, alter-IsSorted, find-alter}
use kubecast.Dict.Refine.{get-find, contents-update}
use kubecast.Dict.RedBlack.{Valid, leaf}
use kubecast.Dict.Total.{update-Valid}

module _ {ℓ κ} {K : Type ℓ} {V : Type κ} ⦃o : Comparable K⦄ where
  pub record IsDict (d : Dict K V) : Type (ℓ ⊔ κ) where
    pub height : ℕ
    pub valid : Valid black height d
    pub sorted : IsSorted (contents d)

  -- A function from keys to values, changed at one key.
  abbrev pub revise : (K → Option V) → K → (Option V → Option V) → K → Option V
  revise g k f i = elim (o.cmp i k) [ eq ↦ f (g k) | _ ↦ g i ]

  pub empty-IsDict : IsDict empty
  empty-IsDict = record { height = zero; valid = leaf; sorted = tt }

  -- `update` at a dictionary (a red-black tree with its keys in order) does not crash and returns a
  -- dictionary, whose entries are those of the old one with `f` applied at the key: inserted,
  -- replaced or removed there as `f` says.
  pub update_refines :
      (k : K) (f : Option V → Option V) (d : Dict K V)
      → IsDict d
      → (t : Dict K V) × (update k f d ≡ some t) × IsDict t × (contents t ≡ alter k f (contents d))
  update_refines k f d h =
      let (t, e, (m, v)) = update-Valid k f h.height d h.valid in
      let c = contents-update k f d t h.sorted e in
      (
        t,
        e,
        record {
          height = m;
          valid = v;
          sorted = subst IsSorted (sym c) (alter-IsSorted k f (contents d) h.sorted);
        },
        c,
      )

  -- `update` at a dictionary returns a dictionary in which the key reads as `f` of what it read
  -- before, and every other key as before.
  pub get-update :
      (k : K) (f : Option V → Option V) (d : Dict K V)
      → IsDict d
      → (t : Dict K V) × (update k f d ≡ some t)
        × IsDict t
        × ((i : K) → get i t ≡ revise (λ j. get j d) k f i)
  get-update k f d h =
      let (t, e, ht, c) = update_refines k f d h in
      (
        t,
        e,
        ht,
        λ i.
            get-find i t ht.sorted
            ∙ ap (find i) c
            ∙ find-alter i k f (contents d) h.sorted
            ∙ ap (λ g. revise g k f i) (λ x j. sym (get-find j d h.sorted) x),
      )
