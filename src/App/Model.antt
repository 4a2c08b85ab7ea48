-- ===== src/App/Model.antt =====
-- ui/dist/Main.js, `_dippynark$elm$Cast_Models$…` and `_dippynark$elm$Cast_Msgs$…`: the state of
-- the page and its messages. Of a location the program reads the protocol and the host.
use kubecast.Common.{List, []}
use kubecast.Text.{Str}

pub record Location : Type 0 where
  pub protocol : Str
  pub host : Str

pub record Model : Type 0 where
  pub cast : Str
  pub casts : List Str
  pub labels : List Str
  pub location : Location

unfoldable pub initial_model : Location → Model
initial_model location = record { cast = []; casts = []; labels = []; location = location }

pub data Msg : Type 0 where
  display_cast : Str → Msg
  list_casts : Str → Msg
  on_location_change : Location → Msg

-- A command of the page: nothing, or a path handed to the player through the port `displayCast`.
pub data Command : Type 0 where
  no_command : Command
  play : Str → Command
