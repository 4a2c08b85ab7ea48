-- ===== src/Tests/Served.antt =====
-- A run of the theorem from the server's disk to the page, at two sessions.
use kubecast.Common.{◌≡◌, refl, arith, some, none, List, [], ◌∷◌, map}
use kubecast.Text.{Str, codes}
use kubecast.Server.Hash.{labels_of, labels_text}
use kubecast.Server.Store.{Table, Disk}
use kubecast.Server.Labels.{HasNames}
use kubecast.Server.Names.{cast_name, list_files}
use kubecast.Server.Names.Rounds.{entry_at}
use kubecast.App.Model.{Model, Command, list_casts}
use kubecast.App.Update.{update}
use kubecast.App.View.{view}
use kubecast.App.Options.{is_plain, IsPlain, page, choice}
use kubecast.App.Served.{view-list_files}
use kubecast.Tests.Uploads.{tty_write, no_labels}
use kubecast.Tests.Page.{model}

abbrev disk : Disk
disk = record { casts = λ h. none; labels = λ h. some (labels_text [] (labels_of tty_write)) }

data-IsPlain : IsPlain (codes "data")
unfolding is_plain
data-IsPlain = (refl, (refl, (refl, (refl, tt))))

names : HasNames tty_write
names = (omega arith, omega arith, omega arith, omega arith)

view-list_files_example :
    (p : Str × Table (List Str)) × (q : Model × Command) × (list_files []
        (map (cast_name (47 ∷ codes "data")) (7 ∷ 8 ∷ []))
        no_labels
        disk
      ≡ some p)
    × (update (list_casts p.0) model ≡ some q)
    × (view q.0 ≡ page (map (λ h. choice (entry_at (47 ∷ codes "data") disk h)) (7 ∷ 8 ∷ [])))
view-list_files_example =
    view-list_files (codes "data") 7 (8 ∷ []) no_labels disk model data-IsPlain
      (omega arith, (omega arith, tt)) ((tty_write, refl, names), ((tty_write, refl, names), tt))
      (λ h. tt)
