-- ===== src/Tests/Uploads.antt =====
-- Runs of the theorems on the server, with a header that is a row of ones.
use kubecast.Common.{
  ℕ, zero, suc, ◌≤◌, ◌≡◌, refl, ap, arith, none, some, List, [], ◌∷◌, ◌++◌, length, map, drop,
}
use kubecast.Text.{Str, newline, codes}
use kubecast.Text.Split.{IsLine}
use kubecast.Server.{list_message}
use kubecast.Server.Hash.{session_hash, TtyWrite, labels_of, labels_text}
use kubecast.Server.Store.{Table, Disk}
use kubecast.Server.Upload.{Json, Local, new_local, upload_step, upload}
use kubecast.Server.Refine.{Session, recorded, all_recorded, Represents}
use kubecast.Server.Sessions.{upload_step-Represents, upload-Represents}
use kubecast.Server.Overlap.{line_of, upload_step-overwrites}
use kubecast.Server.Handler.{scan_lines, list_round}
use kubecast.Server.Labels.{
  HasNames, Agrees, labels_in, scan_lines-labels_text, list_round-list_message,
}

abbrev pub ones : ℕ → Str
ones zero = []
ones (suc n) = 49 ∷ ones n

pub length-ones : (n : ℕ) → length (ones n) ≡ n
length-ones zero = refl
length-ones (suc n) = ap suc (length-ones n)

pub ones-IsLine : (n : ℕ) → IsLine newline (ones n)
ones-IsLine zero = tt
ones-IsLine (suc n) = (refl, ones-IsLine n)

pub ones_no_return : (n : ℕ) → IsLine 13 (ones n)
ones_no_return zero = tt
ones_no_return (suc n) = (refl, ones_no_return n)

abbrev pub json : Json
json = record {
  marshal_header = ones;
  unmarshal_header = λ s. some (length s);
  marshal_entry = λ time start text. text;
  unmarshal-marshal = λ t. ap some (length-ones t);
  header_line = ones-IsLine;
  header_no_return = ones_no_return;
}

abbrev pub tty_write : TtyWrite
tty_write = record {
  count = 2;
  buffer = codes "ls  ";
  timestamp = 3000000000;
  inode = 12;
  mount_namespace_inum = 3;
  hostname = codes "node";
  container_name = codes "app";
  pod_name = codes "web-1";
  pod_namespace = codes "default";
  pod_uid = [];
}

abbrev pub no_sessions : Table Session
no_sessions h = none

abbrev pub empty_disk : Disk
empty_disk = record { casts = λ h. none; labels = λ h. none }

nothing_represented : Represents json no_sessions new_local empty_disk.casts
unfolding new_local
nothing_represented i = record { file = refl; at_end = tt; began = tt }

pub fits : tty_write.count ≤ length tty_write.buffer
fits = omega arith

upload_step-Represents_example :
    (p : Local × Disk) × (upload_step json tty_write new_local empty_disk ≡ some p)
    × Represents json (recorded tty_write no_sessions) p.0 p.1.casts
upload_step-Represents_example =
    upload_step-Represents json tty_write no_sessions new_local empty_disk fits nothing_represented

abbrev writes : List TtyWrite
writes = tty_write ∷ record tty_write { inode = 13 } ∷ []

upload-Represents_example :
    (p : Local × Disk) × (upload json writes new_local empty_disk ≡ some p)
    × Represents json (all_recorded writes no_sessions) p.0 p.1.casts
upload-Represents_example =
    upload-Represents json writes no_sessions new_local empty_disk (fits, (fits, tt))
      nothing_represented

tty_write-HasNames : HasNames tty_write
tty_write-HasNames = (omega arith, omega arith, omega arith, omega arith)

scan_lines-labels_text_example :
    scan_lines (labels_text [] (labels_of tty_write)) ≡ some (labels_of tty_write)
scan_lines-labels_text_example = scan_lines-labels_text tty_write tty_write-HasNames

abbrev disk : Disk
disk = record {
  casts = λ h. none;
  labels = λ h. some (codes "ns" ++ newline ∷ codes "pod" ++ newline ∷ []);
}

abbrev listed_files : List (Str × ℕ)
listed_files = (codes "/d/7.cast", 7) ∷ (codes "/d/8.cast", 8) ∷ []

abbrev pub no_labels : Table (List Str)
no_labels h = none

disk_scanned :
    scan_lines (codes "ns" ++ newline ∷ codes "pod" ++ newline ∷ [])
    ≡ some (codes "ns" ∷ codes "pod" ∷ [])
unfolding scan_lines
disk_scanned = refl

list_round-list_message_example :
    (p : Str × Table (List Str)) × (list_round [] listed_files no_labels disk ≡ some p)
    × (p.0 ≡ list_message [] (map (λ f. (f.0, labels_in (disk.labels f.1))) listed_files))
    × Agrees p.1 disk
list_round-list_message_example =
    list_round-list_message [] listed_files no_labels disk (λ h. tt)
      ((_, _, refl, disk_scanned), ((_, _, refl, disk_scanned), tt))

upload_step-overwrites_example :
    (p : Local × Disk) × (upload_step json tty_write new_local empty_disk ≡ some p)
    × (p.1.casts (session_hash tty_write)
        ≡ some (json.marshal_header 3 ++ line_of json tty_write 3))
    × ((later : Disk) (theirs : Str)
        → later.casts (session_hash tty_write)
          ≡ some (json.marshal_header 3 ++ line_of json tty_write 3 ++ theirs)
        → (q : Local × Disk) × (upload_step json tty_write p.0 later ≡ some q)
          × (q.1.casts (session_hash tty_write)
              ≡ some (
                  json.marshal_header 3
                  ++ line_of json tty_write 3
                  ++ line_of json tty_write 3
                  ++ drop (length (line_of json tty_write 3)) theirs)))
upload_step-overwrites_example =
    upload_step-overwrites json tty_write tty_write empty_disk fits fits refl refl
