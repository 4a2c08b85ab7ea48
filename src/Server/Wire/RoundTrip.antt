-- ===== src/Server/Wire/RoundTrip.antt =====
-- pkg/server/tty.go: what `binary.Write` wrote, `binary.Read` reads back.
use kubecast.Common.{
  ℕ, zero, suc, ◌+◌, ◌*◌, ◌/◌, ◌%◌, ◌^◌, ◌<◌, ◌≡◌, refl, sym, ap, ◌∙◌, arith, [], ◌∷◌, ◌++◌, length,
  take, drop, length-append, append-nil,
}
use kubecast.Text.{Str}
use native.Mathlib.Omega.{pow_step}
use kubecast.Server.Hash.{TtyWrite}
use kubecast.Server.Wire.{
  buffer_size, hostname_size, pod_name_size, container_name_size, pod_namespace_size, pod_uid_size,
  put_uint, get_uint, encode, decode, record_size,
}

-- The sizes of Go's types.
pub record IsSized (w : TtyWrite) : Type 0 where
  pub count : w.count < 2 ^ 32
  pub timestamp : w.timestamp < 2 ^ 64
  pub inode : w.inode < 2 ^ 64
  pub mount_namespace_inum : w.mount_namespace_inum < 2 ^ 64
  pub buffer : length w.buffer ≡ buffer_size
  pub hostname : length w.hostname ≡ hostname_size
  pub container_name : length w.container_name ≡ container_name_size
  pub pod_name : length w.pod_name ≡ pod_name_size
  pub pod_namespace : length w.pod_namespace ≡ pod_namespace_size
  pub pod_uid : length w.pod_uid ≡ pod_uid_size

length-put_uint : (size n : ℕ) → length (put_uint size n) ≡ size
unfolding put_uint
length-put_uint zero n = refl
length-put_uint (suc size) n =
    omega (
      arith,
      length-append (put_uint size (n / 256)) (n % 256 ∷ []),
      length-put_uint size (n / 256),
    )

get_uint-append : (n : ℕ) (s : Str) (b : ℕ) → get_uint n (s ++ b ∷ []) ≡ get_uint n s * 256 + b
unfolding get_uint
get_uint-append n [] b = refl
get_uint-append n (c ∷ s) b = get_uint-append (n * 256 + c) s b

below : {n p q : ℕ} → q ≡ 256 * p → n < q → n / 256 < p
below e h = omega (arith, e, h)

-- A number is read back, if it fits its bytes.
get_uint-put_uint : (size n : ℕ) → n < 256 ^ size → get_uint 0 (put_uint size n) ≡ n
unfolding get_uint put_uint
get_uint-put_uint zero n h = omega arith
get_uint-put_uint (suc size) n h =
    get_uint-append 0 (put_uint size (n / 256)) (n % 256)
    ∙ ap (λ k. k * 256 + n % 256) (get_uint-put_uint size (n / 256) (below (pow_step 256 size) h))
    ∙ omega arith

pub take-append : (n : ℕ) (s t : Str) → length s ≡ n → take n (s ++ t) ≡ s
take-append zero [] t h = refl
take-append zero (c ∷ s) t h = absurd (omega arith)
take-append (suc n) [] t h = absurd (omega arith)
take-append (suc n) (c ∷ s) t h = ap (λ u. c ∷ u) (take-append n s t (omega arith))

take_all : (n : ℕ) (s : Str) → length s ≡ n → take n s ≡ s
take_all n s h = ap (take n) (sym (append-nil s)) ∙ take-append n s [] h

pub drop-append : (n : ℕ) (s t : Str) → length s ≡ n → drop n (s ++ t) ≡ t
drop-append zero [] t h = refl
drop-append zero (c ∷ s) t h = absurd (omega arith)
drop-append (suc n) [] t h = absurd (omega arith)
drop-append (suc n) (c ∷ s) t h = drop-append n s t (omega arith)

-- The fields of a record, from the bytes of each.
decode-parts :
    (a b c d e f g h i j : Str)
    → length a ≡ 4
    → length b ≡ buffer_size
    → length c ≡ 8
    → length d ≡ 8
    → length e ≡ 8
    → length f ≡ hostname_size
    → length g ≡ container_name_size
    → length h ≡ pod_name_size
    → length i ≡ pod_namespace_size
    → length j ≡ pod_uid_size
    → decode (a ++ (b ++ (c ++ (d ++ (e ++ (f ++ (g ++ (h ++ (i ++ j))))))))) ≡ record {
      count = get_uint 0 a;
      buffer = b;
      timestamp = get_uint 0 c;
      inode = get_uint 0 d;
      mount_namespace_inum = get_uint 0 e;
      hostname = f;
      container_name = g;
      pod_name = h;
      pod_namespace = i;
      pod_uid = j;
    }
unfolding decode
decode-parts a b c d e f g h i j la lb lc ld le lf lg lh li lj =
    let r9 = i ++ j in
    let r8 = h ++ r9 in
    let r7 = g ++ r8 in
    let r6 = f ++ r7 in
    let r5 = e ++ r6 in
    let r4 = d ++ r5 in
    let r3 = c ++ r4 in
    let r2 = b ++ r3 in
    rw
      (
        drop-append 4 a r2 la,
        drop-append 256 b r3 lb,
        drop-append 8 c r4 lc,
        drop-append 8 d r5 ld,
        drop-append 8 e r6 le,
        drop-append 64 f r7 lf,
        drop-append 253 g r8 lg,
        drop-append 253 h r9 lh,
        drop-append 253 i j li,
        take-append 4 a r2 la,
        take-append 256 b r3 lb,
        take-append 8 c r4 lc,
        take-append 8 d r5 ld,
        take-append 8 e r6 le,
        take-append 64 f r7 lf,
        take-append 253 g r8 lg,
        take-append 253 h r9 lh,
        take-append 253 i j li,
        take_all 32 j lj,
      )
      refl

encode_lem :
    (w : TtyWrite)
    → encode w
      ≡ put_uint 4 w.count
        ++ (w.buffer
            ++ (put_uint 8 w.timestamp
                ++ (put_uint 8 w.inode
                    ++ (put_uint 8 w.mount_namespace_inum
                        ++ (w.hostname
                            ++ (w.container_name
                                ++ (w.pod_name ++ (w.pod_namespace ++ w.pod_uid))))))))
unfolding encode
encode_lem w = refl

pub decode-encode : (w : TtyWrite) → IsSized w → decode (encode w) ≡ w
decode-encode w h =
    ap decode (encode_lem w)
    ∙ decode-parts (put_uint 4 w.count) w.buffer (put_uint 8 w.timestamp) (put_uint 8 w.inode)
        (put_uint 8 w.mount_namespace_inum) w.hostname w.container_name w.pod_name w.pod_namespace
        w.pod_uid (length-put_uint 4 w.count) h.buffer (length-put_uint 8 w.timestamp)
        (length-put_uint 8 w.inode) (length-put_uint 8 w.mount_namespace_inum) h.hostname
        h.container_name h.pod_name h.pod_namespace h.pod_uid
    ∙ rw
        (
          get_uint-put_uint 4 w.count h.count,
          get_uint-put_uint 8 w.timestamp h.timestamp,
          get_uint-put_uint 8 w.inode h.inode,
          get_uint-put_uint 8 w.mount_namespace_inum h.mount_namespace_inum,
        )
        refl

pub length-encode : (w : TtyWrite) → IsSized w → length (encode w) ≡ record_size
length-encode w h =
    ap length (encode_lem w)
    ∙ omega (
      arith,
      length-append {0},
      length-put_uint,
      h.buffer,
      h.hostname,
      h.container_name,
      h.pod_name,
      h.pod_namespace,
      h.pod_uid,
    )
