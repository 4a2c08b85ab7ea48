-- ===== src/App/Update.antt =====
-- ui/dist/Main.js, `_dippynark$elm$Cast_Update$…`: what each message does to the page. `none` is an
-- exception that the array of the casts throws.
use kubecast.Common.{Option, none, some, List, [], if◌then◌else◌, ◌>>=◌}
use kubecast.Text.{Str, newline, str_eq, split, trim}
use kubecast.Array.{from_list, get}
use kubecast.App.Helpers.{odd_elements, even_elements}
use kubecast.App.Model.{
  Model, Msg, display_cast, list_casts, on_location_change, Command, no_command, play,
}

unfoldable pub set_cast_if_empty : Str → List Str → Option (Str × Command)
unfolding str_eq from_list get
set_cast_if_empty current_cast new_casts =
    if str_eq current_cast []
    then (from_list new_casts >>= get 0 >>= λ first. elim first [
      | some cast ↦ some (cast, play cast)
      | none ↦ some ([], no_command)
    ])
    else some (current_cast, no_command)

unfoldable pub update : Msg → Model → Option (Model × Command)
unfolding trim split odd_elements even_elements set_cast_if_empty
update (display_cast cast) model = some (record model { cast = cast }, play cast)
update (list_casts text) model =
    let labels = even_elements (split newline (trim text)) in
    let casts = odd_elements (split newline (trim text)) in
    set_cast_if_empty model.cast casts >>= λ r.
    some (record model { cast = r.0; casts = casts; labels = labels }, r.1)
update (on_location_change location) model = some (record model { location = location }, no_command)
