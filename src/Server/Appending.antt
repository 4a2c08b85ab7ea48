-- ===== src/Server/Appending.antt =====
-- cmd/server/main.go, `uploadHandler`: a handler that opens only files that are there opens them
-- to append.
use kubecast.Common.{
  ℕ, ◌≡◌, refl, sym, ◌∙◌, ap, subst, inl, inr, Option, none, some, ◌==◌, Bool-cases, ◌>>=◌,
  bind-eq-some, at_result,
}
use kubecast.Text.{Str}
use kubecast.Server.Hash.{TtyWrite, session_hash}
use kubecast.Server.Store.{Table, set, Disk, Handle, appending, at, write}
use kubecast.Server.Upload.{
  Json, written, scan_line, Local, append_entry, write_labels, open_file, find_timestamp,
  upload_step,
}
use kubecast.Server.Sessions.{write_labels-casts}

-- A handle that appends, if there is one.
abbrev pub Appending : Option Handle → Type 0
Appending none = Unit
Appending (some appending) = Unit
Appending (some (at n)) = ⊥

-- A handler that has only opened files to append.
abbrev pub OnlyAppends : Local → Type 0
OnlyAppends local = (i : ℕ) → Appending (local.files i)

module _ (json : Json) where
  set-Appending :
      (h : ℕ) (local : Local)
      → OnlyAppends local
      → (i : ℕ) → Appending (set local.files h appending i)
  set-Appending h local a i = elim (Bool-cases (i == h)) [ inl y ↦ rw y tt | inr n ↦ rw n (a i) ]

  -- Where the session's file is there, it is opened to append.
  open_file-Appending :
      (h : ℕ) (w : TtyWrite) (local : Local) (disk : Disk) {content : Str}
      → disk.casts h ≡ some content
      → OnlyAppends local
      → ((open_file json h w local disk).0 ≡ appending)
        × OnlyAppends (open_file json h w local disk).1
  unfolding open_file
  open_file-Appending h w local disk e a = by_handle (local.files h) refl
    where
      by_handle :
          (f : Option Handle)
          → local.files h ≡ f
          → ((open_file json h w local disk).0 ≡ appending)
            × OnlyAppends (open_file json h w local disk).1
      by_handle none ef = rw (ef, e, open_file) (refl, set-Appending h local a)
      by_handle (some appending) ef = rw (ef, open_file) (refl, a)
      by_handle (some (at n)) ef = absurd (subst Appending ef (a h))

  find_timestamp-files :
      (h : ℕ) (local : Local) (content : Str) {p : ℕ × Local}
      → find_timestamp json h local content ≡ some p
      → p.1.files ≡ local.files
  unfolding find_timestamp
  find_timestamp-files h local content {p} e = by_timestamp (local.timestamps h) refl
    where
      by_timestamp : (t : Option ℕ) → local.timestamps h ≡ t → p.1.files ≡ local.files
      by_timestamp (some t) et =
          let known : find_timestamp json h local content ≡ some (t, local) =
            rw (et, find_timestamp) refl in
          at_result (λ p. p.1.files ≡ local.files) (sym known ∙ e) refl
      by_timestamp none et =
          let read : find_timestamp json h local content ≡ (
              json.unmarshal_header (scan_line content) >>= λ t.
              some (t, record local { timestamps = set local.timestamps h t })) =
            rw (et, find_timestamp) refl in
          let (t, e1, e2) =
            bind-eq-some (json.unmarshal_header (scan_line content)) _ (sym read ∙ e) in
          at_result (λ p. p.1.files ≡ local.files) e2 refl

  append_entry-appending :
      (w : TtyWrite) (start : ℕ) (content : Str) {q : Handle × Str}
      → append_entry json w appending start content ≡ some q
      → q.0 ≡ appending
  unfolding append_entry write
  append_entry-appending w start content e =
      let (text, e1, e2) = bind-eq-some (written w) _ e in at_result (λ q. q.0 ≡ appending) e2 refl

  pub upload_step-OnlyAppends :
      (w : TtyWrite) (local : Local) (disk : Disk) {content : Str} {p : Local × Disk}
      → disk.casts (session_hash w) ≡ some content
      → OnlyAppends local
      → upload_step json w local disk ≡ some p
      → OnlyAppends p.0
  unfolding upload_step
  upload_step-OnlyAppends w local disk e a eq =
      let h = session_hash w in
      let disk1 = write_labels json h w disk in
      let o = open_file json h w local disk1 in
      let (opened, a') =
        open_file-Appending h w local disk1
          (ap (λ (c : Table Str). c h) (write_labels-casts json h w disk) ∙ e) a in
      let (c, e1, f1) = bind-eq-some (o.2.casts h) _ eq in
      let (q, e2, f2) = bind-eq-some (find_timestamp json h o.1 c) _ f1 in
      let (r, e3, f3) = bind-eq-some (append_entry json w o.0 q.0 c) _ f2 in
      let handle =
        append_entry-appending w q.0 c
          (subst (λ k. append_entry json w k q.0 c ≡ some r) opened e3) in
      at_result (λ p. OnlyAppends p.0) f3
        (subst (λ k. (i : ℕ) → Appending (set q.1.files h k i)) (sym handle)
          (subst (λ fs. (i : ℕ) → Appending (set fs h appending i))
            (sym (find_timestamp-files h o.1 c e2)) (set-Appending h o.1 a')))
