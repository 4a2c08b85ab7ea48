-- ===== src/App/Address.antt =====
-- ui/dist/Main.js, `_dippynark$elm$Main$webSocketUrl`: the server's address on each branch.
use kubecast.Common.{◌++◌, ◌≡◌, ◌≢◌, ◌⊎◌, inl, inr, refl}
use kubecast.Text.Split.{str_eq-cases}
use kubecast.Text.{Str, codes}
use kubecast.App.Model.{Location}
use kubecast.App.Main.{web_socket_url}

-- The address of the server: port 5050 of the same machine for a page that the development server
-- serves, by the name it has in the page's address, and otherwise the page's host, over TLS exactly
-- when the page came over https; followed by the path.
pub web_socket_url-cases :
    (location : Location) (path : Str)
    → ((location.host ≡ codes "localhost:3000")
        × (web_socket_url location path ≡ codes "ws://localhost:5050" ++ path))
      ⊎ (((location.host ≡ codes "127.0.0.1:3000")
            × (web_socket_url location path ≡ codes "ws://127.0.0.1:5050" ++ path))
          ⊎ ((location.host ≢ codes "localhost:3000")
              × (location.host ≢ codes "127.0.0.1:3000")
              × (((location.protocol ≡ codes "https:")
                    × (web_socket_url location path ≡ codes "wss://" ++ location.host ++ path))
                  ⊎ ((location.protocol ≢ codes "https:")
                      × (web_socket_url location path ≡ codes "ws://" ++ location.host ++ path)))))
unfolding web_socket_url
web_socket_url-cases location path = elim (str_eq-cases location.host (codes "localhost:3000")) [
  | inl (e, t) ↦ inl (e, rw t refl)
  | inr (n, f) ↦ inr (elim (str_eq-cases location.host (codes "127.0.0.1:3000")) [
    | inl (e, t) ↦ inl (e, rw (f, t) refl)
    | inr (m, g) ↦ inr (
      n,
      m,
      elim (str_eq-cases location.protocol (codes "https:")) [
        | inl (e, t) ↦ inl (e, rw (f, g, t) refl)
        | inr (k, h) ↦ inr (k, rw (f, g, h) refl)
      ],
    )
  ])
]
