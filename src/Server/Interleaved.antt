-- ===== src/Server/Interleaved.antt =====
-- cmd/server/main.go, `uploadHandler`: many handlers on the same files, their rounds in any order.
use kubecast.Common.{
  ℕ, ◌≤◌, ◌≡◌, refl, sym, subst, inl, inr, Option, none, some, List, [], ◌∷◌, ◌++◌, ◌==◌,
  if◌then◌else◌, length, Bool-cases, All, map, ◌>>=◌,
}
use kubecast.Text.{Str}
use kubecast.Server.Hash.{TtyWrite, session_hash}
use kubecast.Server.Store.{Table, Disk, Handle, appending, at}
use kubecast.Server.Upload.{Json, Local, upload_step}
use kubecast.Server.Refine.{
  Session, text_of, begun, recorded, all_recorded, render, file_of, AtEnd, Began, Represents,
}
use kubecast.Server.Sessions.{upload_step-Represents, Began-events}
use kubecast.Server.Opening.{==-eq}
use kubecast.Server.Appending.{Appending, OnlyAppends, upload_step-OnlyAppends}

-- The handlers' maps, by connection, and the files that they share.
pub record Shared : Type 0 where
  pub locals : ℕ → Local
  pub disk : Disk

abbrev put_local : ℕ → Local → (ℕ → Local) → ℕ → Local
put_local c local locals i = if i == c then local else locals i

abbrev pub Present : Option Session → Type 0
Present none = ⊥
Present (some s) = Unit

module _ (json : Json) where
  -- A round of the handler of one connection.
  unfoldable pub shared_step : ℕ → TtyWrite → Shared → Option Shared
  unfolding upload_step
  shared_step c w s = upload_step json w (s.locals c) s.disk >>= λ p.
      some (record { locals = put_local c p.0 s.locals; disk = p.1 })

  -- Rounds of the handlers, each of a connection with what its client sent, in the order in which
  -- they happen.
  unfoldable pub interleaved : List (ℕ × TtyWrite) → Shared → Option Shared
  unfolding shared_step
  interleaved [] s = some s
  interleaved ((c, w) ∷ rounds) s = shared_step c w s >>= λ s'. interleaved rounds s'

  -- Many handlers whose maps fit the sessions, and that only append.
  abbrev pub AllFit : Table Session → Shared → Type 0
  AllFit sessions s =
      (c : ℕ) → Represents json sessions (s.locals c) s.disk.casts × OnlyAppends (s.locals c)

  recorded-Present :
      (w : TtyWrite) (sessions : Table Session) (i : ℕ)
      → Present (sessions i)
      → Present (recorded w sessions i)
  recorded-Present w sessions i h = elim (Bool-cases (i == session_hash w)) [
    | inl y ↦ rw y tt
    | inr n ↦ rw n h
  ]

  AtEnd-later :
      (f : Option Handle) (s s' : Option Session) (c c' : Option Str)
      → Appending f
      → c ≡ file_of json s
      → c' ≡ file_of json s'
      → (Present s → Present s')
      → AtEnd json f c
      → AtEnd json f c'
  AtEnd-later none s s' c c' a e e' p h = tt
  AtEnd-later (some (at n)) s s' c c' a e e' p h = absurd a
  AtEnd-later (some appending) none s' c c' a e e' p h =
      absurd (subst (AtEnd json (some appending)) e h)
  AtEnd-later (some appending) (some s) none c c' a e e' p h = absurd (p tt)
  AtEnd-later (some appending) (some s) (some s') c c' a e e' p h =
      subst (AtEnd json (some appending)) (sym e') tt

  recorded-Began :
      (w : TtyWrite) (sessions : Table Session) (t : Option ℕ) (i : ℕ)
      → Present (sessions (session_hash w))
      → Began json t (sessions i)
      → Began json t (recorded w sessions i)
  recorded-Began w sessions t i here b = elim (Bool-cases (i == session_hash w)) [
    | inl y ↦ rw y (
        at_hash (sessions (session_hash w)) here
          (subst (λ j. Began json t (sessions j)) (sym (==-eq i (session_hash w) y)) b))
    | inr n ↦ rw n b
  ]
    where
      at_hash :
          (s : Option Session)
          → Present s
          → Began json t s
          → Began json t (
              some (record (begun w.timestamp s) {
                events = (begun w.timestamp s).events ++ (w.timestamp, text_of w) ∷ [];
              }))
      at_hash none p b = absurd p
      at_hash (some x) p b = Began-events json t x (x.events ++ (w.timestamp, text_of w) ∷ []) b

  -- What another handler recorded leaves this one's maps fitting.
  others-Represents :
      (w : TtyWrite) (sessions : Table Session) (local mine : Local) (casts casts' : Table Str)
      → Present (sessions (session_hash w))
      → Represents json sessions local casts
      → OnlyAppends local
      → Represents json (recorded w sessions) mine casts'
      → Represents json (recorded w sessions) local casts'
  others-Represents w sessions local mine casts casts' here r a r' i = record {
    file = (r' i).file;
    at_end =
        AtEnd-later (local.files i) (sessions i) (recorded w sessions i) (casts i) (casts' i) (a i)
          (r i).file (r' i).file (recorded-Present w sessions i) (r i).at_end;
    began = recorded-Began w sessions (local.timestamps i) i here (r i).began;
  }

  file_there :
      (s : Option Session) (c : Option Str)
      → c ≡ file_of json s
      → Present s
      → (content : Str) × (c ≡ some content)
  file_there none c e p = absurd p
  file_there (some s) c e p = (render json s, e)

  shared_step-AllFit :
      (c : ℕ) (w : TtyWrite) (sessions : Table Session) (s : Shared)
      → w.count ≤ length w.buffer
      → Present (sessions (session_hash w))
      → AllFit sessions s
      → (s' : Shared) × (shared_step c w s ≡ some s') × AllFit (recorded w sessions) s'
  unfolding shared_step
  shared_step-AllFit c w sessions s fits here all =
      let (p, e, r) = upload_step-Represents json w sessions (s.locals c) s.disk fits (all c).0 in
      let (content, found) =
        file_there (sessions (session_hash w)) _ ((all c).0 (session_hash w)).file here in
      let a = upload_step-OnlyAppends json w (s.locals c) s.disk found (all c).1 e in
      (
        record { locals = put_local c p.0 s.locals; disk = p.1 },
        rw e,
        λ i. elim (Bool-cases (i == c)) [
          | inl y ↦ rw y (r, a)
          | inr n ↦ rw n (
            others-Represents w sessions (s.locals i) p.0 s.disk.casts p.1.casts here (all i).0
                (all i).1 r,
            (all i).1,
          )
        ],
      )

  -- Many handlers at work on the same sessions, their rounds in any order: if the files of these
  -- sessions were there before, every count fits its buffer, every handler has only opened files to
  -- append, and its maps fit the sessions, then no round fails, and afterwards the files are those of
  -- the sessions with all writes of all handlers recorded, in the order of the rounds.
  pub interleaved-recorded :
      (rounds : List (ℕ × TtyWrite)) (sessions : Table Session) (s : Shared)
      → All (λ r. (r.1.count ≤ length r.1.buffer) × Present (sessions (session_hash r.1))) rounds
      → AllFit sessions s
      → (s' : Shared) × (interleaved rounds s ≡ some s')
        × ((i : ℕ)
            → s'.disk.casts i ≡ file_of json (all_recorded (map (λ r. r.1) rounds) sessions i))
  unfolding interleaved
  interleaved-recorded [] sessions s h all = (s, refl, λ i. ((all 0).0 i).file)
  interleaved-recorded ((c, w) ∷ rounds) sessions s h all =
      let (s1, e, all1) = shared_step-AllFit c w sessions s h.0.0 h.0.1 all in
      let (s2, e2, files) =
        interleaved-recorded rounds (recorded w sessions) s1 (still w sessions rounds h.1) all1 in
      (s2, rw e e2, files)
    where
      still :
          (w : TtyWrite) (sessions : Table Session) (rounds : List (ℕ × TtyWrite))
          → All
              (λ r. (r.1.count ≤ length r.1.buffer) × Present (sessions (session_hash r.1)))
              rounds
          → All
              (λ r.
                (r.1.count ≤ length r.1.buffer) × Present (recorded w sessions (session_hash r.1)))
              rounds
      still w sessions [] h = tt
      still w sessions (r ∷ rounds) h = (
        (h.0.0, recorded-Present w sessions (session_hash r.1) h.0.1),
        still w sessions rounds h.1,
      )
