-- ===== src/Nvlist/Skip.antt =====
-- zfs/nvlist/decode.go: `Skip`, which steps past the rest of the list that the reader stands in.
pub mod Total
pub mod Goes
use prometheus_zfs_exporter.Base.{
  ℕ, zero, suc, none, some, Bool, ◌==◌, if◌then◌else◌, starve, pure, gets, ◌>>=◌, ◌>>◌, until_eof,
  out_of_fuel, ok,
}
use prometheus_zfs_exporter.Nvlist.Types.{NvType, type_nvlist, type_nvlist_array}
use prometheus_zfs_exporter.Nvlist.Reader.{Read}
use prometheus_zfs_exporter.Nvlist.Next.{next}

-- `for range n { err = m(); ... }`
unfoldable pub repeat : ℕ → Read (Unit {0}) → Read (Unit {0})
repeat zero m r = (ok tt, r)
repeat (suc n) m r = (do m; repeat n m) r

-- What the loop's body does for a token, `again` being the recursive `Skip`.
unfoldable pub skip_value : Read (Unit {0}) → NvType → Read (Unit {0})
skip_value again token =
    if token == type_nvlist
    then again
    else if token == type_nvlist_array
    then (do repeat (← gets (λ r. r.num_elements)) again)
    else pure tt

-- A unit of fuel for each call and each round of the loop: `skip` on fuel `f` is the loop.
unfoldable pub skip : ℕ → Read (Unit {0})
skip zero r = (out_of_fuel, r)
skip (suc f) r =
    (do
      token ← until_eof next
      elim token [ none ↦ pure tt | some t ↦ do skip_value (skip f) t; skip f ])
      r
