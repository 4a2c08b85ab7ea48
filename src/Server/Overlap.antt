-- ===== src/Server/Overlap.antt =====
-- cmd/server/main.go, `uploadHandler`, when two handlers write one session: the handler that made the
-- file has it open at a position, and not to append.
use kubecast.Common.{
  ℕ, zero, suc, ◌/◌, none, Option, ap₂, sym, append-nil, ◌>>=◌, ◌+◌, ◌≤◌, ◌≡◌, refl, ap, ◌∙◌, arith,
  some, [], ◌∷◌, ◌++◌, length, take, drop, length-append,
}
use kubecast.Text.{Str, newline}
use kubecast.Server.Hash.{TtyWrite, session_hash}
use kubecast.Server.Store.{set, Disk, Handle, at, write}
use kubecast.Server.Upload.{
  Json, Local, new_local, init_file, open_file, find_timestamp, write_labels, append_entry,
  upload_step,
}
use kubecast.Server.Refine.{text_of}
use kubecast.Server.Opening.{==-refl}
use kubecast.Server.Sessions.{written-take, write_labels-casts}

take-append : (s t : Str) → take (length s) (s ++ t) ≡ s
take-append [] t = refl
take-append (c ∷ s) t = ap (λ u. c ∷ u) (take-append s t)

drop-append : (s t : Str) (n : ℕ) → drop (length s + n) (s ++ t) ≡ drop n t
drop-append [] t n = ap (λ k. drop k t) (omega arith)
drop-append (c ∷ s) t n = ap (λ k. drop k (c ∷ (s ++ t))) (suc_add (length s) n) ∙ drop-append s t n
  where
    suc_add : (a b : ℕ) → suc a + b ≡ suc (a + b)
    suc_add a b = omega arith

module _ (json : Json) where
  -- The line of a write whose count fits its buffer.
  abbrev pub line_of : TtyWrite → ℕ → Str
  line_of w start = newline ∷ json.marshal_entry w.timestamp start (text_of w)

  -- An event at a position goes over what stands there.
  append_entry-overwrites :
      (w : TtyWrite) (start : ℕ) (content theirs : Str)
      → w.count ≤ length w.buffer
      → append_entry json w (at (length content)) start (content ++ theirs)
        ≡ some (
          at (length content + length (line_of w start)),
          content ++ line_of w start ++ drop (length (line_of w start)) theirs,
        )
  unfolding append_entry write
  append_entry-overwrites w start content theirs b =
      let line = line_of w start in
      rw
        (
          written-take json w b,
          append_entry,
          write,
          take-append content theirs,
          drop-append content theirs (length line),
        )
        refl

  drop_nil : (n : ℕ) → drop {A = ℕ} n [] ≡ []
  drop_nil zero = refl
  drop_nil (suc n) = refl

  header_of : TtyWrite → Str
  header_of w = json.marshal_header (w.timestamp / 1000000000)

  init_file-at :
      (w : TtyWrite)
      → init_file json w ≡ (at (length (header_of w)), header_of w, w.timestamp / 1000000000)
  unfolding init_file write header_of
  init_file-at w =
      ap₂ (λ n c. (at n, c, w.timestamp / 1000000000)) (zero_add (length (header_of w)))
        (ap (λ r. header_of w ++ r) (drop_nil (0 + length (header_of w)))
          ∙ append-nil (header_of w))
    where
      zero_add : (n : ℕ) → 0 + n ≡ n
      zero_add n = omega arith

  open_file-new :
      (h : ℕ) (w : TtyWrite) (disk : Disk)
      → disk.casts h ≡ none
      → open_file json h w new_local disk ≡ (
        at (length (header_of w)),
        record {
          files = set new_local.files h (at (length (header_of w)));
          timestamps = set new_local.timestamps h (w.timestamp / 1000000000);
        },
        record disk { casts = set disk.casts h (header_of w) },
      )
  unfolding open_file new_local
  open_file-new h w disk e =
      rw (e, open_file)
        (ap
          (λ (o : Handle × Str × ℕ). (
            o.0,
            record {
              files = set new_local.files h o.0;
              timestamps = set new_local.timestamps h o.2;
            },
            record disk { casts = set disk.casts h o.1 },
          ))
          (init_file-at w))

  open_file-known :
      (h : ℕ) (w : TtyWrite) (local : Local) (disk : Disk) (handle : Handle)
      → local.files h ≡ some handle
      → open_file json h w local disk ≡ (handle, local, disk)
  unfolding open_file
  open_file-known h w local disk handle e = rw (e, open_file) refl

  -- A round of the handler after the file is open.
  abbrev opened_step : TtyWrite → ℕ → Handle × Local × Disk → Option (Local × Disk)
  opened_step w h o = o.2.casts h >>= λ content. find_timestamp json h o.1 content >>= λ p.
      append_entry json w o.0 p.0 content >>= λ q.
      some (record p.1 { files = set p.1.files h q.0 }, record o.2 { casts = set o.2.casts h q.1 })

  -- A handler that has the file open at a position, and knows its timestamp.
  opened_step-overwrites :
      (w : TtyWrite) (h start : ℕ) (content theirs : Str) (local : Local) (disk : Disk)
      → w.count ≤ length w.buffer
      → local.timestamps h ≡ some start
      → disk.casts h ≡ some (content ++ theirs)
      → (p : Local × Disk) × (opened_step w h (at (length content), local, disk) ≡ some p)
        × (p.0.files h ≡ some (at (length content + length (line_of w start))))
        × (p.0.timestamps h ≡ some start)
        × (p.1.casts h
            ≡ some (content ++ line_of w start ++ drop (length (line_of w start)) theirs))
  unfolding find_timestamp
  opened_step-overwrites w h start content theirs local disk b t e =
      let line = line_of w start in
      let after = content ++ line ++ drop (length line) theirs in
      let handle = at (length content + length line) in
      (
        (
          record local { files = set local.files h handle },
          record disk { casts = set disk.casts h after },
        ),
        rw (e, t, find_timestamp) (rw (append_entry-overwrites w start content theirs b) refl),
        rw (==-refl h) refl,
        t,
        rw (==-refl h) refl,
      )

  -- The handler that makes a session's file does not open it to append, and overwrites what another
  -- handler appends: if a session has no file, and a new handler makes it in its first round and
  -- writes an event there, and then, whatever the disk is by now, the file has been appended to by
  -- another, the handler's next event of that session goes over the start of what was appended. The
  -- counts of the two writes fit their buffers.
  pub upload_step-overwrites :
      (first next : TtyWrite) (disk : Disk)
      → first.count ≤ length first.buffer
      → next.count ≤ length next.buffer
      → session_hash next ≡ session_hash first
      → disk.casts (session_hash first) ≡ none
      → let start = first.timestamp / 1000000000 in
        let content = json.marshal_header start ++ line_of first start in
        (p : Local × Disk) × (upload_step json first new_local disk ≡ some p)
        × (p.1.casts (session_hash first) ≡ some content)
        × ((later : Disk) (theirs : Str)
            → later.casts (session_hash first) ≡ some (content ++ theirs)
            → (q : Local × Disk) × (upload_step json next p.0 later ≡ some q)
              × (q.1.casts (session_hash first)
                  ≡ some
                      (content ++ line_of next start ++ drop (length (line_of next start)) theirs)))
  unfolding upload_step open_file header_of
  upload_step-overwrites first next disk b b' same none_there =
      let h = session_hash first in
      let start = first.timestamp / 1000000000 in
      let head = json.marshal_header start in
      let line = line_of first start in
      let labelled = write_labels json h first disk in
      let opened = record labelled { casts = set labelled.casts h head } in
      let local : Local = record {
        files = set new_local.files h (at (length head));
        timestamps = set new_local.timestamps h start;
      } in
      let (p, e, files, times, casts) =
        opened_step-overwrites first h start head [] local opened b (rw (==-refl h) refl)
          (rw (==-refl h) (ap some (sym (append-nil head)))) in
      let at_end : p.0.files h ≡ some (at (length (head ++ line))) =
        files ∙ ap (λ n. some (at n)) (sym (length-append head line)) in
      (
        p,
        ap (opened_step first h) (
              open_file-new h first labelled
                (ap (λ c. c h) (write_labels-casts json h first disk) ∙ none_there))
            ∙ e,
        casts
            ∙ ap (λ r. some (head ++ line ++ r)) (drop_nil (length line))
            ∙ ap some (append-nil (head ++ line)),
        λ later theirs f.
            let disk' = write_labels json h next later in
            let (q, e', files', times', casts') =
              opened_step-overwrites next h start (head ++ line) theirs p.0 disk' b' times
                (ap (λ c. c h) (write_labels-casts json h next later) ∙ f) in
            (
              q,
              ap
                    (λ k.
                      opened_step next k
                        (open_file json k next p.0 (write_labels json k next later)))
                    same
                  ∙ ap (opened_step next h) (open_file-known h next p.0 disk' _ at_end)
                  ∙ e',
              casts',
            ),
      )
