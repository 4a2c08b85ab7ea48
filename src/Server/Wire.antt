-- ===== src/Server/Wire.antt =====
-- pkg/server/tty.go as Go's `encoding/binary` writes it and reads it, in big-endian order; the client
-- writes it (cmd/client/main.go) and `uploadHandler` reads it (cmd/server/main.go).
pub mod RoundTrip
pub mod Reading
pub mod Stream
use kubecast.Common.{
  ℕ, zero, suc, ◌+◌, ◌*◌, ◌/◌, ◌%◌, Option, none, some, List, [], ◌∷◌, ◌++◌, ltb, if◌then◌else◌,
  length, take, drop,
}
use kubecast.Text.{Str}
use kubecast.Server.Hash.{TtyWrite}

-- The constants of pkg/server/tty.go.
abbrev pub buffer_size : ℕ
buffer_size = 256

abbrev pub hostname_size : ℕ
hostname_size = 64

abbrev pub pod_name_size : ℕ
pod_name_size = 253

abbrev pub container_name_size : ℕ
container_name_size = 253

abbrev pub pod_namespace_size : ℕ
pod_namespace_size = 253

abbrev pub pod_uid_size : ℕ
pod_uid_size = 32

-- A number in a number of bytes, the highest first.
unfoldable pub put_uint : ℕ → ℕ → Str
put_uint zero n = []
put_uint (suc size) n = put_uint size (n / 256) ++ n % 256 ∷ []

unfoldable pub get_uint : ℕ → Str → ℕ
get_uint n [] = n
get_uint n (byte ∷ bytes) = get_uint (n * 256 + byte) bytes

-- `binary.Write` of a TtyWrite: its fields in their order, with no padding.
unfoldable pub encode : TtyWrite → Str
unfolding put_uint
encode w =
    put_uint 4 w.count
    ++ (w.buffer
        ++ (put_uint 8 w.timestamp
            ++ (put_uint 8 w.inode
                ++ (put_uint 8 w.mount_namespace_inum
                    ++ (w.hostname
                        ++ (w.container_name ++ (w.pod_name ++ (w.pod_namespace ++ w.pod_uid))))))))

-- The bytes of one TtyWrite.
abbrev pub record_size : ℕ
record_size = 1139

-- The fields are taken from the bytes one after the other.
unfoldable pub decode : Str → TtyWrite
unfolding get_uint
decode b0 =
    let b1 = drop 4 b0 in
    let b2 = drop buffer_size b1 in
    let b3 = drop 8 b2 in
    let b4 = drop 8 b3 in
    let b5 = drop 8 b4 in
    let b6 = drop hostname_size b5 in
    let b7 = drop container_name_size b6 in
    let b8 = drop pod_name_size b7 in
    let b9 = drop pod_namespace_size b8 in
    record {
      count = get_uint 0 (take 4 b0);
      buffer = take buffer_size b1;
      timestamp = get_uint 0 (take 8 b2);
      inode = get_uint 0 (take 8 b3);
      mount_namespace_inum = get_uint 0 (take 8 b4);
      hostname = take hostname_size b5;
      container_name = take container_name_size b6;
      pod_name = take pod_name_size b7;
      pod_namespace = take pod_namespace_size b8;
      pod_uid = take pod_uid_size b9;
    }

-- What `binary.Read` returns: the end of the stream before the first byte, the end within a record, or
-- a record, with the rest of the stream.
pub data Read : Type 0 where
  eof : Read
  unexpected_eof : Read
  got : TtyWrite → Str → Read

unfoldable pub read : Str → Read
unfolding decode
read [] = eof
read (byte ∷ bytes) =
    if ltb (length (byte ∷ bytes)) record_size
    then unexpected_eof
    else got (decode (take record_size (byte ∷ bytes))) (drop record_size (byte ∷ bytes))
