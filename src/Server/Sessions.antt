-- ===== src/Server/Sessions.antt =====
-- cmd/server/main.go, `uploadHandler`: a round and a run of rounds, against the table of
-- sessions.
use kubecast.Common.{
  ℕ, ◌≤◌, ◌≡◌, inl, inr, refl, sym, ◌∙◌, ap, subst, false, Option, none, some, List, [], ◌∷◌, ◌++◌,
  ◌==◌, ltb, length, take, arith, Bool-cases, Option-cases, All, append_assoc,
}
use kubecast.Text.{Str, newline}
use kubecast.Server.Hash.{TtyWrite, session_hash}
use kubecast.Server.Store.{Table, set, Disk, Handle, write}
use kubecast.Server.Upload.{
  Json, written, Local, new_local, append_entry, write_labels, open_file, find_timestamp,
  upload_step, upload,
}
use kubecast.Server.Refine.{
  Session, text_of, begun, recorded, all_recorded, render, file_of, AtEnd, Began, Holds, Represents,
  lines, lines-append, scan_line-render, write-AtEnd,
}
use kubecast.Server.Opening.{==-refl, ==-eq, Opened, open_file-cases}

module _ (json : Json) where
  pub write_labels-casts :
      (h : ℕ) (w : TtyWrite) (disk : Disk) → (write_labels json h w disk).casts ≡ disk.casts
  unfolding write_labels
  write_labels-casts h w disk = elim (Option-cases (disk.labels h)) [
    | inl e ↦ rw (e, write_labels) refl
    | inr e ↦ rw (e.1, write_labels) refl
  ]

  pub written-take :
      (w : TtyWrite) → w.count ≤ length w.buffer → written w ≡ some (take w.count w.buffer)
  unfolding written
  written-take w b = rw (the_test w b) refl
    where
      the_test : (w : TtyWrite) → w.count ≤ length w.buffer → ltb (length w.buffer) w.count ≡ false
      the_test w b = ground (arith, b)

  -- The timestamp is that of the session, from the map or from the file.
  record Found (h : ℕ) (s : Session) (local l : Local) : Type 0 where
    pub files_same : l.files ≡ local.files
    pub began : Began json (l.timestamps h) (some s)
    pub others : (i : ℕ) → (i == h) ≡ false → l.timestamps i ≡ local.timestamps i

  find_timestamp-Found :
      (h : ℕ) (local : Local) (s : Session) (t : Option ℕ)
      → local.timestamps h ≡ t
      → Began json t (some s)
      → (l : Local) × (find_timestamp json h local (render json s) ≡ some (s.start, l))
        × Found h s local l
  unfolding find_timestamp
  find_timestamp-Found h local s (some t) et b = (
    local,
    rw (et, find_timestamp) (ap (λ k. some (k, local)) b),
    record { files_same = refl; began = rw et b; others = λ i n. refl },
  )
  find_timestamp-Found h local s none et b = (
    record local { timestamps = set local.timestamps h s.start },
    rw (et, scan_line-render json s, json.unmarshal-marshal s.start, find_timestamp) refl,
    record { files_same = refl; began = rw (==-refl h) refl; others = λ i n. rw n refl },
  )

  -- The session with one more event is what is written.
  render-append :
      (s : Session) (time : ℕ) (text : Str)
      → render json s ++ newline ∷ json.marshal_entry time s.start text
        ≡ render json (record s { events = s.events ++ (time, text) ∷ [] })
  render-append s time text =
      append_assoc (json.marshal_header s.start) (lines json s.start s.events) _
      ∙ ap (λ u. json.marshal_header s.start ++ u)
          (sym (lines-append json s.start s.events time text))

  append_entry-written :
      (w : TtyWrite) (handle : Handle) (s : Session)
      → w.count ≤ length w.buffer
      → append_entry json w handle s.start (render json s)
        ≡ some (
            write handle
              (newline ∷ json.marshal_entry w.timestamp s.start (text_of w))
              (render json s))
  unfolding append_entry
  append_entry-written w handle s b = rw (written-take w b, append_entry) refl

  -- The session of a write, with the write.
  abbrev recorded_in : TtyWrite → Table Session → Session
  recorded_in w sessions = record (begun w.timestamp (sessions (session_hash w))) {
    events =
        (begun w.timestamp (sessions (session_hash w))).events ++ (w.timestamp, text_of w) ∷ [];
  }

  pub Began-events :
      (t : Option ℕ) (s : Session) (es : List (ℕ × Str))
      → Began json t (some s)
      → Began json t (some (record s { events = es }))
  Began-events none s es b = tt
  Began-events (some t) s es b = b

  -- Where the write is recorded, and elsewhere.
  all_Holds :
      (w : TtyWrite) (sessions : Table Session) (o : Handle × Local × Disk) (l : Local)
      (q : Handle × Str)
      → Opened json (session_hash w) w sessions o
      → Found (session_hash w) (begun w.timestamp (sessions (session_hash w))) o.1 l
      → Holds json
          (some (recorded_in w sessions))
          (some q.0)
          (l.timestamps (session_hash w))
          (some q.1)
      → Represents json
          (recorded w sessions)
          (record l { files = set l.files (session_hash w) q.0 })
          (set o.2.casts (session_hash w) q.1)
  all_Holds w sessions o l q opened found here i = elim (Bool-cases (i == session_hash w)) [
    | inl y ↦ rw y (record {
      file = here.file;
      at_end = here.at_end;
      began =
          subst (λ j. Began json (l.timestamps j) (some (recorded_in w sessions)))
            (==-eq i (session_hash w) y) here.began;
    })
    | inr n ↦
        let there = opened.elsewhere i n in
        rw n (record {
          file = there.file;
          at_end =
              subst (λ fs. AtEnd json (fs i) (o.2.casts i)) (sym found.files_same) there.at_end;
          began = subst (λ t. Began json t (sessions i)) (sym (found.others i n)) there.began;
        })
  ]

  -- A round of `uploadHandler` does not fail, if the write's count fits its buffer and the files
  -- and the handler's maps are those of some sessions; afterwards they are those of the sessions
  -- in which the write is recorded.
  pub upload_step-Represents :
      (w : TtyWrite) (sessions : Table Session) (local : Local) (disk : Disk)
      → w.count ≤ length w.buffer
      → Represents json sessions local disk.casts
      → (p : Local × Disk) × (upload_step json w local disk ≡ some p)
        × Represents json (recorded w sessions) p.0 p.1.casts
  unfolding upload_step
  upload_step-Represents w sessions local disk b r =
      let h = session_hash w in
      let disk1 = write_labels json h w disk in
      let r1 = subst (Represents json sessions local) (sym (write_labels-casts h w disk)) r in
      let o = open_file json h w local disk1 in
      let opened =
        open_file-cases json h w sessions local disk1 (local.files h) (sessions h) refl refl r1 in
      let s = begun w.timestamp (sessions h) in
      let (l, e, found) = find_timestamp-Found h o.1 s (o.1.timestamps h) refl opened.here.began in
      let entry = newline ∷ json.marshal_entry w.timestamp s.start (text_of w) in
      let (written', at_end) =
        write-AtEnd json o.0 entry (render json s)
          (subst (AtEnd json (some o.0)) opened.here.file opened.here.at_end) in
      let q = write o.0 entry (render json s) in
      (
        (record l { files = set l.files h q.0 }, record o.2 { casts = set o.2.casts h q.1 }),
        rw (opened.here.file, e, append_entry-written w o.0 s b, upload_step) refl,
        all_Holds w sessions o l q opened found (record {
          file = ap some (written' ∙ render-append s w.timestamp (text_of w));
          at_end = subst (λ c. AtEnd json (some q.0) (some c)) (sym written') at_end;
          began =
              Began-events (l.timestamps h) s (s.events ++ (w.timestamp, text_of w) ∷ [])
                found.began;
        }),
      )

  -- The writes of a run of the handler's loop are recorded in their sessions, in order: if every
  -- count fits its buffer and the files and maps are those of some sessions, then the run does not
  -- fail, and the files are those of the sessions with all writes recorded.
  pub upload-Represents :
      (ws : List TtyWrite) (sessions : Table Session) (local : Local) (disk : Disk)
      → All (λ w. w.count ≤ length w.buffer) ws
      → Represents json sessions local disk.casts
      → (p : Local × Disk) × (upload json ws local disk ≡ some p)
        × Represents json (all_recorded ws sessions) p.0 p.1.casts
  unfolding upload
  upload-Represents [] sessions local disk b r = ((local, disk), refl, r)
  upload-Represents (w ∷ ws) sessions local disk b r =
      let (p, e, r') = upload_step-Represents w sessions local disk b.0 r in
      let (q, e', r'') = upload-Represents ws (recorded w sessions) p.0 p.1 b.1 r' in
      (q, rw e e', r'')

  -- A client that connects anew goes on with the files that are there: a new handler on files of
  -- sessions, whose maps are empty, records its writes in these sessions as the old one would.
  pub upload-reconnect :
      (old new : List TtyWrite) (sessions : Table Session) (local : Local) (disk : Disk)
      → All (λ w. w.count ≤ length w.buffer) old
      → All (λ w. w.count ≤ length w.buffer) new
      → Represents json sessions local disk.casts
      → (p : Local × Disk) × (upload json old local disk ≡ some p)
        × ((q : Local × Disk) × (upload json new new_local p.1 ≡ some q)
            × ((i : ℕ)
                → q.1.casts i ≡ file_of json (all_recorded new (all_recorded old sessions) i)))
  unfolding new_local
  upload-reconnect old new sessions local disk b c r =
      let (p, e, r') = upload-Represents old sessions local disk b r in
      let fresh : Represents json (all_recorded old sessions) new_local p.1.casts =
        λ i. record { file = (r' i).file; at_end = tt; began = tt } in
      let (q, e', r'') = upload-Represents new (all_recorded old sessions) new_local p.1 c fresh in
      (p, e, (q, e', λ i. (r'' i).file))
