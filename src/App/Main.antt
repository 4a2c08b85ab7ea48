-- ===== src/App/Main.antt =====
-- ui/dist/Main.js, `_dippynark$elm$Main$…`: the address of the server, the subscription, and the
-- start of the page.
use kubecast.Common.{◌++◌, if◌then◌else◌}
use kubecast.Text.{Str, str_eq, codes}
use kubecast.App.Model.{Location, Model, Msg, list_casts, Command, no_command, initial_model}
use kubecast.WebSocket.{Sub, listen}

unfoldable pub web_socket_url : Location → Str → Str
unfolding str_eq
web_socket_url location path =
    if str_eq location.host (codes "localhost:3000")
    then codes "ws://localhost:5050" ++ path
    else if str_eq location.host (codes "127.0.0.1:3000")
    then codes "ws://127.0.0.1:5050" ++ path
    else if str_eq location.protocol (codes "https:")
    then codes "wss://" ++ location.host ++ path
    else codes "ws://" ++ location.host ++ path

unfoldable pub subscriptions : Model → Sub Str Str Msg
unfolding web_socket_url
subscriptions model = listen (web_socket_url model.location (codes "/list")) list_casts

unfoldable pub init : Location → Model × Command
unfolding initial_model
init location = (initial_model location, no_command)
