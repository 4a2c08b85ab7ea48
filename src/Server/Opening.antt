-- ===== src/Server/Opening.antt =====
-- cmd/server/main.go, `uploadHandler`: the file of a session, kept open, new, or there from
-- before.
use kubecast.Common.{
  ℕ, ◌/◌, ◌≡◌, refl, sym, ◌∙◌, ap, subst, subst₂, true, false, Option, none, some, [], ◌==◌, arith,
  append-nil,
}
use kubecast.Server.Hash.{TtyWrite}
use kubecast.Server.Store.{Table, Disk, Handle, appending, at, write}
use kubecast.Server.Upload.{Json, Local, init_file, open_file}
use kubecast.Server.Refine.{Session, begun, file_of, AtEnd, Began, Holds, Represents, write-AtEnd}

pub ==-refl : (h : ℕ) → (h == h) ≡ true
==-refl h = ground arith

pub ==-eq : (i h : ℕ) → (i == h) ≡ true → h ≡ i
==-eq i h e = ground (arith, e)

module _ (json : Json) where
  -- After the file is open: at the session's hash it is as begun, and elsewhere nothing changed.
  pub record Opened (h : ℕ) (w : TtyWrite) (sessions : Table Session) (o : Handle × Local × Disk)
      : Type 0 where
    pub here :
        Holds json
          (some (begun w.timestamp (sessions h)))
          (some o.0)
          (o.1.timestamps h)
          (o.2.casts h)
    pub elsewhere :
        (i : ℕ)
        → (i == h) ≡ false
        → Holds json (sessions i) (o.1.files i) (o.1.timestamps i) (o.2.casts i)

  pub open_file-cases :
      (h : ℕ) (w : TtyWrite) (sessions : Table Session) (local : Local) (disk : Disk)
      (f : Option Handle) (s : Option Session)
      → local.files h ≡ f
      → sessions h ≡ s
      → Represents json sessions local disk.casts
      → Opened h w sessions (open_file json h w local disk)
  unfolding open_file init_file
  open_file-cases h w sessions local disk (some handle) none ef es r = absurd (
      subst (λ c. AtEnd json (some handle) c) ((r h).file ∙ ap (file_of json) es)
        (subst (λ f. AtEnd json f (disk.casts h)) ef (r h).at_end))
  open_file-cases h w sessions local disk (some handle) (some s) ef es r =
      rw (ef, open_file)
        (record {
          here =
              rw es
                (subst₂ (λ s f. Holds json s f (local.timestamps h) (disk.casts h)) es ef (r h));
          elsewhere = λ i n. r i;
        })
  open_file-cases h w sessions local disk none (some s) ef es r =
      let ec = (r h).file ∙ ap (file_of json) es in
      rw (ef, ec, open_file)
        (record {
          here = rw es (record {
            file = ec;
            at_end = subst (AtEnd json (some appending)) (sym ec) tt;
            began = subst (Began json (local.timestamps h)) es (r h).began;
          });
          elsewhere = λ i n. rw n (r i);
        })
  open_file-cases h w sessions local disk none none ef es r =
      let ec = (r h).file ∙ ap (file_of json) es in
      let header = json.marshal_header (w.timestamp / 1000000000) in
      let (e, g) = write-AtEnd json (at 0) header [] refl in
      rw (ef, ec, open_file)
        (record {
          here =
              rw (es, ==-refl h)
                (record {
                  file = ap some (e ∙ sym (append-nil header));
                  at_end =
                      subst (λ c. AtEnd json (some (write (at 0) header []).0) (some c)) (sym e) g;
                  began = refl;
                });
          elsewhere = λ i n. rw n (r i);
        })
