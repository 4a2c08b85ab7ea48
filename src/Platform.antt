-- ===== src/Platform.antt =====
-- ui/dist/Main.js, `_elm_lang$core$Native_Platform`: the loops that handle messages, and the bags of
-- effects that the program hands to the effect managers.
pub mod Loop
pub mod Bags
pub mod Dispatch
pub mod Ports
use kubecast.Common.{ℕ, Bool, true, false, Option, none, some, List, [], ◌∷◌, if◌then◌else◌}
use kubecast.Text.{Str, str_eq}
use kubecast.Scheduler.{Value, value, Task, World, raw_spawn, raw_send}
use kubecast.Scheduler.Task.{and_then, receive}

-- The callbacks of the program: the `loop` of a manager, the function that it makes at a state for the
-- next message, and others.
pub data Callback (Manager Other A : Type 0) : Type 0 where
  loop : Manager → Callback Manager Other A
  handle : Manager → Value A → Callback Manager Other A
  other : Other → Callback Manager Other A

-- `on_message` of each manager takes a message and the state; `apply_other` calls other callbacks.
module _ {Manager Other A : Type 0}
    (on_message : Manager → Value A → Value A → Task (Callback Manager Other A) A)
    (apply_other : Other → Value A → Task (Callback Manager Other A) A) where
  -- `loop`, and the function that it hands to `receive`.
  unfoldable pub apply : Callback Manager Other A → Value A → Task (Callback Manager Other A) A
  apply (loop manager) state = and_then (loop manager) (receive (handle manager state))
  apply (handle manager state) msg = on_message manager msg state
  apply (other f) v = apply_other f v

-- The process has the id that is next in the world.
unfoldable pub spawn_loop :
    {Manager Other A : Type 0}
    → Manager
    → Task (Callback Manager Other A) A
    → World (Callback Manager Other A) A
    → World (Callback Manager Other A) A
spawn_loop manager init w = raw_spawn (and_then (loop manager) init) w

-- A bag of effects, with `X` the values that taggers map and `E` the effects.
mutual
  pub data Bag (X E : Type 0) : Type 0 where
    leaf : Str → E → Bag X E
    node : Branches X E → Bag X E
    tagged : (X → X) → Bag X E → Bag X E

  pub data Branches (X E : Type 0) : Type 0 where
    nil : Branches X E
    cons : Bag X E → Branches X E → Branches X E

pub record Effects (E : Type 0) : Type 0 where
  pub cmds : List E
  pub subs : List E

abbrev pub EffectsDict : Type 0 → Type 0
EffectsDict E = Str → Option (Effects E)

module _ {E : Type 0} where
  abbrev pub no_effects : Effects E
  no_effects = record { cmds = []; subs = [] }

  abbrev pub or_none : Option (Effects E) → Effects E
  or_none none = no_effects
  or_none (some effects) = effects

  unfoldable pub insert : Bool → E → Option (Effects E) → Effects E
  insert true new_effect effects = record (or_none effects) {
    cmds = new_effect ∷ (or_none effects).cmds;
  }
  insert false new_effect effects = record (or_none effects) {
    subs = new_effect ∷ (or_none effects).subs;
  }

  abbrev pub set_effects : Str → Effects E → EffectsDict E → EffectsDict E
  set_effects home effects dict i = if str_eq i home then some effects else dict i

-- The loop over the taggers, the innermost first.
unfoldable pub apply_taggers : {X : Type 0} → List (X → X) → X → X
apply_taggers [] x = x
apply_taggers (tagger ∷ rest) x = apply_taggers rest (tagger x)

module _ {E K A : Type 0} where
  -- The loop over the managers; `fx` makes a message of effects.
  unfoldable pub dispatch : (Effects E → A) → EffectsDict E → List (Str × ℕ) → World K A → World K A
  unfolding raw_send
  dispatch fx dict [] w = w
  dispatch fx dict ((home, pid) ∷ managers) w =
      dispatch fx dict managers (raw_send pid (value (fx (or_none (dict home)))) w)

-- `cmdMap` and `subMap` of the managers, by their names.
module _ {X E : Type 0} (cmd_map sub_map : Str → (X → X) → E → E) where
  unfoldable pub to_effect : Bool → Str → List (X → X) → E → E
  unfolding apply_taggers
  to_effect true home taggers e = cmd_map home (apply_taggers taggers) e
  to_effect false home taggers e = sub_map home (apply_taggers taggers) e

  unfoldable mutual
    unfolding to_effect insert

    pub gather_effects : Bool → Bag X E → EffectsDict E → List (X → X) → EffectsDict E
    gather_effects is_cmd (leaf home e) dict taggers =
        set_effects home (insert is_cmd (to_effect is_cmd home taggers e) (dict home)) dict
    gather_effects is_cmd (node branches) dict taggers =
        gather_branches is_cmd branches dict taggers
    gather_effects is_cmd (tagged tagger bag) dict taggers =
        gather_effects is_cmd bag dict (tagger ∷ taggers)

    pub gather_branches : Bool → Branches X E → EffectsDict E → List (X → X) → EffectsDict E
    gather_branches is_cmd nil dict taggers = dict
    gather_branches is_cmd (cons bag rest) dict taggers =
        gather_branches is_cmd rest (gather_effects is_cmd bag dict taggers) taggers

  unfoldable pub dispatch_effects :
      {K A : Type 0} → (Effects E → A) → List (Str × ℕ) → Bag X E → Bag X E → World K A → World K A
  unfolding gather_effects dispatch
  dispatch_effects fx managers cmd_bag sub_bag w =
      dispatch fx (gather_effects false sub_bag (gather_effects true cmd_bag (λ home. none) []) [])
        managers w
