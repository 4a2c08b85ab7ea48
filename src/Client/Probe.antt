-- ===== src/Client/Probe.antt =====
-- bpf/bpf_tty.c: `kprobe__tty_write`, and the struct of bpf/bpf_tty.h.
use kubecast.Common.{ℕ, ◌%◌, ◌^◌, ◌≤◌, ◌<◌, ◌≡◌, ltb, if◌then◌else◌, length, arith, ◌&&◌}
use kubecast.Text.{Str}
use kubecast.Server.Wire.{buffer_size}

pub record TtyWriteT : Type 0 where
  pub count : ℕ
  pub buf : Str
  pub timestamp : ℕ
  pub ino : ℕ
  pub mnt_ns_inum : ℕ

-- What the probe reads: the register of the third argument, the bytes that the second points to, and
-- the numbers of the inode, of the mount namespace and of the clock.
pub record Call : Type 0 where
  pub dx : ℕ
  pub user : Str
  pub i_ino : ℕ
  pub inum : ℕ
  pub ktime : ℕ

-- `int tty_write_count = ctx->dx`, compared as a signed number and stored as an unsigned one.
unfoldable pub clamp_count : ℕ → ℕ
clamp_count dx =
    let n = dx % 2 ^ 32 in if ltb n (2 ^ 31) && ltb buffer_size n then buffer_size else n

-- `bpf_probe_read` fills the buffer, whatever the count.
unfoldable pub probe : Call → TtyWriteT
unfolding clamp_count
probe call = record {
  count = clamp_count call.dx;
  buf = call.user;
  timestamp = call.ktime;
  ino = call.i_ino;
  mnt_ns_inum = call.inum;
}

-- The numbers of a call fit their types, the buffer is read in full, and the count is one that the
-- kernel allows, which is below 2 ^ 31.
pub record IsCall (call : Call) : Type 0 where
  pub dx : call.dx < 2 ^ 31
  pub user : length call.user ≡ buffer_size
  pub i_ino : call.i_ino < 2 ^ 64
  pub inum : call.inum < 2 ^ 32
  pub ktime : call.ktime < 2 ^ 64

-- The count of a write is its length, or the size of the buffer if it is longer; a length from 2 ^ 31
-- up to 2 ^ 32 is negative as an `int`, and is not cut.
pub clamp_count-cases :
    (dx : ℕ)
    → (dx ≤ buffer_size → clamp_count dx ≡ dx)
      × (buffer_size < dx → dx < 2 ^ 31 → clamp_count dx ≡ buffer_size)
      × (2 ^ 31 ≤ dx → dx < 2 ^ 32 → clamp_count dx ≡ dx)
unfolding clamp_count
clamp_count-cases dx = (λ h. ground arith, λ h k. ground arith, λ h k. ground arith)

pub clamp_count-le : (dx : ℕ) → dx < 2 ^ 31 → clamp_count dx ≤ buffer_size
unfolding clamp_count
clamp_count-le dx h = ground arith
