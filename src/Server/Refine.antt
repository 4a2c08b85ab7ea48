-- ===== src/Server/Refine.antt =====
-- cmd/server/main.go, `uploadHandler`: its specification, a table of sessions, and how files
-- represent one.
use kubecast.Common.{
  ℕ, zero, suc, ◌+◌, ◌/◌, ◌≤◌, ◌≡◌, refl, sym, ◌∙◌, ap, Option, none, some, List, [], ◌∷◌, ◌++◌,
  ◌==◌, if◌then◌else◌, length, take, drop, arith, append-nil, append_assoc, length-append,
}
use kubecast.Text.{Str, newline}
use kubecast.Text.Split.{IsLine}
use kubecast.Server.Hash.{TtyWrite, session_hash}
use kubecast.Server.Store.{Table, Handle, appending, at, write}
use kubecast.Server.Upload.{Json, crlf, no_shift_out, first_line, drop_return, scan_line, Local}

-- A session as the server means it: when it began, in seconds, and its writes in order, each with
-- its time and its text.
pub record Session : Type 0 where
  pub start : ℕ
  pub events : List (ℕ × Str)

-- What is written of a buffer.
abbrev pub text_of : TtyWrite → Str
text_of w = no_shift_out (crlf (take w.count w.buffer))

abbrev pub begun : ℕ → Option Session → Session
begun time none = record { start = time / 1000000000; events = [] }
begun time (some s) = s

abbrev pub recorded : TtyWrite → Table Session → Table Session
recorded w sessions i =
    if i == session_hash w
    then some (record (begun w.timestamp (sessions (session_hash w))) {
      events =
          (begun w.timestamp (sessions (session_hash w))).events ++ (w.timestamp, text_of w) ∷ [];
    })
    else sessions i

abbrev pub all_recorded : List TtyWrite → Table Session → Table Session
all_recorded [] sessions = sessions
all_recorded (w ∷ ws) sessions = all_recorded ws (recorded w sessions)

take_all : (s : Str) → take (length s) s ≡ s
take_all [] = refl
take_all (c ∷ cs) = ap (λ t. c ∷ t) (take_all cs)

drop_past : (n : ℕ) (s : Str) → length s ≤ n → drop n s ≡ []
drop_past zero [] h = refl
drop_past zero (c ∷ cs) h = absurd (omega (arith, h))
drop_past (suc n) [] h = refl
drop_past (suc n) (c ∷ cs) h = drop_past n cs (omega (arith, h))

first_line-append : (l s : Str) → IsLine newline l → first_line (l ++ newline ∷ s) ≡ l
first_line-append [] s h = refl
first_line-append (c ∷ l) s h = rw (h.0, first_line-append l s h.1) refl

first_line_line : (l : Str) → IsLine newline l → first_line l ≡ l
first_line_line [] h = refl
first_line_line (c ∷ l) h = rw (h.0, first_line_line l h.1) refl

pub drop_return_line : (l : Str) → IsLine 13 l → drop_return l ≡ l
drop_return_line [] h = refl
drop_return_line (c ∷ []) h = rw h.0 refl
drop_return_line (c ∷ d ∷ l) h = ap (λ t. c ∷ t) (drop_return_line (d ∷ l) h.1)

module _ (json : Json) where
  abbrev pub lines : ℕ → List (ℕ × Str) → Str
  lines start [] = []
  lines start ((time, text) ∷ events) =
      newline ∷ json.marshal_entry time start text ++ lines start events

  -- The file of a session.
  abbrev pub render : Session → Str
  render s = json.marshal_header s.start ++ lines s.start s.events

  abbrev pub file_of : Option Session → Option Str
  file_of none = none
  file_of (some s) = some (render s)

  -- A handle that is open writes at the end of its file.
  abbrev pub AtEnd : Option Handle → Option Str → Type 0
  AtEnd none content = Unit
  AtEnd (some handle) none = ⊥
  AtEnd (some appending) (some content) = Unit
  AtEnd (some (at n)) (some content) = n ≡ length content

  abbrev pub Began : Option ℕ → Option Session → Type 0
  Began none s = Unit
  Began (some t) none = ⊥
  Began (some t) (some s) = t ≡ s.start

  -- The files are those of the sessions, and a handler's maps fit them.
  pub record Holds (s : Option Session) (f : Option Handle) (t : Option ℕ) (c : Option Str)
      : Type 0 where
    pub file : c ≡ file_of s
    pub at_end : AtEnd f c
    pub began : Began t s

  abbrev pub Represents : Table Session → Local → Table Str → Type 0
  Represents sessions local casts =
      (i : ℕ) → Holds (sessions i) (local.files i) (local.timestamps i) (casts i)

  pub lines-append :
      (start : ℕ) (es : List (ℕ × Str)) (time : ℕ) (text : Str)
      → lines start (es ++ (time, text) ∷ [])
        ≡ lines start es ++ newline ∷ json.marshal_entry time start text
  lines-append start [] time text = append-nil _
  lines-append start (e ∷ es) time text =
      ap (λ u. newline ∷ json.marshal_entry e.0 start e.1 ++ u) (lines-append start es time text)
      ∙ ap (λ u. newline ∷ u)
          (sym (append_assoc (json.marshal_entry e.0 start e.1) (lines start es) _))

  first_line-render :
      (start : ℕ) (events : List (ℕ × Str))
      → first_line (json.marshal_header start ++ lines start events) ≡ json.marshal_header start
  first_line-render start [] =
      ap first_line (append-nil (json.marshal_header start))
      ∙ first_line_line (json.marshal_header start) (json.header_line start)
  first_line-render start (e ∷ events) =
      first_line-append (json.marshal_header start) _ (json.header_line start)

  -- The scanner reads the header of a session's file.
  pub scan_line-render : (s : Session) → scan_line (render s) ≡ json.marshal_header s.start
  unfolding scan_line
  scan_line-render s =
      ap drop_return (first_line-render s.start s.events)
      ∙ drop_return_line (json.marshal_header s.start) (json.header_no_return s.start)

  pub write-AtEnd :
      (handle : Handle) (s content : Str)
      → AtEnd (some handle) (some content)
      → ((write handle s content).1 ≡ content ++ s)
        × AtEnd (some (write handle s content).0) (some (content ++ s))
  unfolding write
  write-AtEnd appending s content h = (refl, tt)
  write-AtEnd (at n) s content h = (
    ap (λ k. take k content ++ s ++ drop (n + length s) content) h
        ∙ ap (λ u. u ++ s ++ drop (n + length s) content) (take_all content)
        ∙ ap (λ u. content ++ s ++ u) (drop_past (n + length s) content (omega (arith, h)))
        ∙ append-nil (content ++ s),
    omega (arith, h, length-append content s),
  )
