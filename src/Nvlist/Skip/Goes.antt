-- ===== src/Nvlist/Skip/Goes.antt =====
-- Calls on a reader that take it onward, or leave it where it is.
use prometheus_zfs_exporter.Base.{ℕ, zero, suc, sym, Bool, true, false, if◌then◌else◌}
use mathlib.Core.Path.{subst}
use prometheus_zfs_exporter.Nvlist.Reader.{NvListReader, Read}
use prometheus_zfs_exporter.Nvlist.Access.{repeat_into}
use prometheus_zfs_exporter.Nvlist.Access.Halts.{Halts, gives, Halts-bind, Halts-weaken, Still}
use prometheus_zfs_exporter.Nvlist.Skip.Total.{Onward}

-- The reader has moved on from `s`.
abbrev pub Goes : {A : Type 0} → NvListReader → Read A → Type 0
Goes s m = (u : NvListReader) → Onward s u → Halts (λ _ t. Onward s t) (m u)

pub Still-Goes : {A : Type 0} {m : Read A} (s : NvListReader) → Still m → Goes s m
Still-Goes {m} s h u o = Halts-weaken (h u) (λ a t e. subst (Onward s) (sym e) o)

pub Goes-if :
    {A : Type 0} {m k : Read A} (s : NvListReader) (b : Bool)
    → Goes s m
    → Goes s k
    → Goes s (if b then m else k)
Goes-if s true h k = h
Goes-if s false h k = k

pub repeat_into-Goes :
    {A : Type 0} (s : NvListReader) (n : ℕ) (m : Read A) → Goes s m → Goes s (repeat_into n m)
unfolding repeat_into
repeat_into-Goes s zero m h u o = gives o
repeat_into-Goes s (suc n) m h u o =
    Halts-bind _ (h u o)
      (λ a t o'. Halts-bind _ (repeat_into-Goes s n m h t o') (λ b v o''. gives o''))
