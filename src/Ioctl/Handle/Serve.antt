-- ===== src/Ioctl/Handle/Serve.antt =====
-- zfs/ioctl/ioctl.go: what a call brings from a kernel whose answers fit the caller's buffer.
use prometheus_zfs_exporter.Base.{
  ℕ, zero, suc, ◌<◌, ◌≡◌, ◌≢◌, refl, ap, ◌∙◌, arith, Option, none, some, false, true, [], ◌∷◌, ◌++◌,
  Bytes, length, ne→not-==,
}
use prometheus_zfs_exporter.Ioctl.Handle.{
  Answer, Syscall, Call, enomem, is_empty, is_some, size_or, overwrite, written, round, after,
  ioctl,
}
use prometheus_zfs_exporter.Ioctl.Handle.Retry.{status, if-status}

-- A call whose response buffer is there, not empty, and of this size.
pub record IsUsable {World : Type 0} (size : ℕ) (c : Call World) : Type 0 where
  pub filled : is_empty c.resp ≡ false
  pub present : is_some c.resp ≡ true
  pub sized : size_or c.resp 0 ≡ size

-- The buffer holds the bytes, and at least one more behind them.
abbrev pub Holds : Bytes → Option Bytes → Type 0
Holds bs resp = (rest : Bytes) × (resp ≡ some (bs ++ rest)) × (0 < length rest)

length-overwrite : (bs buffer : Bytes) → length (overwrite bs buffer) ≡ length buffer
unfolding overwrite
length-overwrite [] buffer = refl
length-overwrite (b ∷ bs) [] = refl
length-overwrite (b ∷ bs) (_ ∷ buffer) = omega (arith, length-overwrite bs buffer)

is_empty-overwrite :
    (bs buffer : Bytes) → is_empty (some (overwrite bs buffer)) ≡ is_empty (some buffer)
unfolding overwrite
is_empty-overwrite [] buffer = refl
is_empty-overwrite (b ∷ bs) [] = refl
is_empty-overwrite (b ∷ bs) (_ ∷ buffer) = refl

overwrite_append :
    (bs buffer : Bytes)
    → length bs < length buffer
    → (rest : Bytes) × (overwrite bs buffer ≡ bs ++ rest) × (0 < length rest)
unfolding overwrite
overwrite_append [] buffer lt = (buffer, refl, lt)
overwrite_append (b ∷ bs) [] lt = absurd (omega arith)
overwrite_append (b ∷ bs) (_ ∷ buffer) lt =
    let (rest, eq, more) = overwrite_append bs buffer (omega arith) in
    (rest, ap (λ xs. b ∷ xs) eq, more)

-- What was written stands in a buffer that is larger.
pub written-Holds :
    (bs : Bytes) (resp : Option Bytes)
    → length bs < size_or resp 0
    → Holds bs (written (some bs) resp)
written-Holds bs none lt = absurd (omega arith)
written-Holds bs (some buffer) lt =
    let (rest, eq, more) = overwrite_append bs buffer lt in (rest, ap (λ b. some b) eq, more)

-- A write leaves a buffer as large as it was.
written_same :
    (wrote resp : Option Bytes)
    → (is_empty (written wrote resp) ≡ is_empty resp)
      × (is_some (written wrote resp) ≡ is_some resp)
      × (size_or (written wrote resp) 0 ≡ size_or resp 0)
written_same none resp = (refl, refl, refl)
written_same (some bs) none = (refl, refl, refl)
written_same (some bs) (some buffer) =
    (is_empty-overwrite bs buffer, refl, length-overwrite bs buffer)

module _ {World : Type 0} (syscall : Syscall World) (number size : ℕ) where
  -- To a call that asks `K`, with a buffer of the size, the kernel answers with `Q`, and not with
  -- ENOMEM.
  abbrev pub Serves : (Call World → Type 0) → (Answer World → Type 0) → Type 0
  Serves K Q =
      (c : Call World)
      → K c
      → IsUsable size c
      → ((round syscall number none none c).number ≢ enomem) × Q (round syscall number none none c)

  round-IsUsable :
      (c : Call World)
      → IsUsable size c
      → IsUsable size (after syscall (round syscall number none none c))
  unfolding round
  round-IsUsable c usable =
      let same = written_same _ c.resp in
      record {
        filled = same.0 ∙ usable.filled;
        present = same.1 ∙ usable.present;
        sized = same.2 ∙ usable.sized;
      }

  -- `Ioctl` returns the status of an answer that serves, and the buffer has the size it had.
  pub ioctl-Serves :
      (K : Call World → Type 0) (Q : Answer World → Type 0) (fuel : ℕ) (c : Call World)
      → Serves K Q
      → K c
      → IsUsable size c
      → 0 < fuel
      → (a : Answer World) × Q a
        × IsUsable size (after syscall a)
        × (ioctl syscall fuel number none none c ≡ (status a.number, after syscall a))
  unfolding ioctl
  ioctl-Serves K Q zero c serves asked usable lt = absurd (omega arith)
  ioctl-Serves K Q (suc fuel) c serves asked usable lt =
      let a = round syscall number none none c in
      let (done, q) = serves c asked usable in
      (
        a,
        q,
        round-IsUsable c usable,
        rw (usable.filled, ne→not-== a.number enomem done) (if-status a.number (after syscall a)),
      )
