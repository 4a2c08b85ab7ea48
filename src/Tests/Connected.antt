-- ===== src/Tests/Connected.antt =====
-- A run of the theorem on the page's connection, from a manager that is new.
use kubecast.Common.{◌≡◌, ◌≢◌, none, some, [], ◌∷◌}
use kubecast.Text.{Str}
use kubecast.Ord.Strings.{str_comparable}
use kubecast.Dict.{empty}
use kubecast.Dict.Ops.{get}
use kubecast.App.Model.{Msg, list_casts}
use kubecast.App.Main.{subscriptions}
use kubecast.App.Connected.{list_url, subscriptions-connect}
use kubecast.WebSocket.{State, receive, on_effects, on_self_msg}
use kubecast.WebSocket.Tasks.{Connection, to_app, World}
use kubecast.WebSocket.Messages.{IsValid, Runs, did}
use kubecast.Dict.Laws.{empty-IsDict}
use kubecast.Tests.Page.{model}

abbrev manager : State Str Str Msg (Unit {0})
manager = record { sockets = empty; queues = empty; subs = empty }

abbrev world : World Str Str Msg (Unit {0})
world = record { trace = []; next_pid = 0 }

manager-IsValid : IsValid manager
manager-IsValid = record {
  sockets_ok = empty-IsDict;
  queues_ok = empty-IsDict;
  subs_ok = empty-IsDict;
}

subscriptions-connect_example :
    Runs (on_effects [] (subscriptions model ∷ []) manager) world (λ s' w'.
      ((c : Connection (Unit {0})) × (get (list_url model) s'.sockets ≡ some c))
      × ((text : Str)
          → on_self_msg (receive (list_url model) text) s' w'
            ≡ some (s', did (to_app (list_casts text) ∷ []) w'))
      × ((name text : Str)
          → name ≢ list_url model
          → on_self_msg (receive name text) s' w' ≡ some (s', w'))
      × ((name : Str)
          → name ≢ list_url model
          → get name manager.queues ≡ none
          → get name s'.sockets ≡ none))
subscriptions-connect_example = subscriptions-connect model manager world manager-IsValid
