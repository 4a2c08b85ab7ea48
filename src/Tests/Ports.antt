-- ===== src/Tests/Ports.antt =====
-- Runs of the theorems on ports: three functions, of which one unsubscribes the next while it is called.
use kubecast.Common.{
  Bool, ℕ, ◌+◌, ◌*◌, ◌≡◌, refl, arith, some, List, [], ◌∷◌, ◌++◌, ◌==◌, if◌then◌else◌, map,
}
use kubecast.Platform.Ports.{OutgoingPort, on_port_effects, new_port}
use kubecast.Platform.Ports.Outgoing.{unsubscribes, delivered, remaining, on_port_effects-delivered}
use kubecast.Platform.Ports.Incoming.{
  Incoming, sent, subscribed, happen, all_messages, later_messages, happen-received,
}

abbrev same : ℕ → ℕ → Bool
same f g = f == g

abbrev drops : ℕ → ℕ → List ℕ
drops f value = if f == 1 then 2 ∷ [] else []

abbrev port : OutgoingPort ℕ ℕ
port = record { arrays = λ i. 1 ∷ 2 ∷ 3 ∷ []; subs = 0; fresh = 1; calls = [] }

on_port_effects-delivered_example :
    (q : OutgoingPort ℕ ℕ) × (on_port_effects same (unsubscribes same drops) 4 (50 ∷ 60 ∷ []) port
      ≡ some q)
    × (q.calls ≡ port.calls ++ delivered same drops (50 ∷ 60 ∷ []) (port.arrays port.subs))
    × (q.arrays q.subs ≡ remaining same drops (50 ∷ 60 ∷ []) (port.arrays port.subs))
on_port_effects-delivered_example =
    on_port_effects-delivered same drops 4 (50 ∷ 60 ∷ []) port (omega arith) (omega arith)

delivered_pairs :
    delivered same drops (50 ∷ 60 ∷ []) (1 ∷ 2 ∷ 3 ∷ [])
    ≡ (1, 50) ∷ (2, 50) ∷ (3, 50) ∷ (1, 60) ∷ (3, 60) ∷ []
delivered_pairs = refl

abbrev taggers : List (ℕ → ℕ)
taggers = (λ n. n + 100) ∷ (λ n. n * 2) ∷ []

abbrev events : List (Incoming ℕ ℕ)
events = sent 3 ∷ subscribed [] ∷ sent 4 ∷ []

happen-received_example :
    (happen (map sent (1 ∷ 2 ∷ []) ++ subscribed taggers ∷ events) new_port).received
    ≡ all_messages taggers (1 ∷ 2 ∷ []) ++ later_messages taggers events
happen-received_example = happen-received (1 ∷ 2 ∷ []) taggers events
