-- ===== src/Collector/Props/Values/Total.antt =====
-- main.go: `parseValue` and `parseProps` on any bytes come to an end.
use prometheus_zfs_exporter.Base.{
  ℕ, zero, suc, ◌+◌, ◌<◌, ◌≤◌, ◌≡◌, refl, sym, ap, ◌∙◌, arith, none, some, Option, Bool, true,
  false, Bytes, length, codes, equal, if◌then◌else◌, Error, Result, Method, pure, Ends, returns,
  raises, Ends-eof_as_none,
}
use mathlib.Core.Path.{subst}
use prometheus_zfs_exporter.Nvlist.Types.{NvType}
use prometheus_zfs_exporter.Nvlist.Reader.{NvListReader}
use prometheus_zfs_exporter.Nvlist.Next.Safety.{IsReady, IsEnd, next-Ends}
use prometheus_zfs_exporter.Nvlist.Skip.Total.{
  Onward, Onward-IsReady, Onward-trans, next-Onward, onward_room, onward_fuel, onward-IsEnd,
}
use prometheus_zfs_exporter.Nvlist.Access.Halts.{
  Halts, gives, fails, crashes, Ends-Halts, Halts-bind, Halts-weaken, Still-raise_if,
  get_uint64-Still,
}
use prometheus_zfs_exporter.Collector.Props.{DatasetProps, Parse, with_reader, on_reader}
use prometheus_zfs_exporter.Collector.Props.Values.{
  PropKey, prop_key, store, store_known, parse_pair, parse_value, parse_props,
}

with_reader-Halts :
    {A : Type 0} {P : A → NvListReader → Type 0} (d : DatasetProps) {x : Result A × NvListReader}
    → Halts P x
    → Halts (λ a p. P a p.reader) (with_reader d x)
with_reader-Halts d (gives p) = gives p
with_reader-Halts d fails = fails
with_reader-Halts d crashes = crashes

with_reader-Ends :
    {A : Type 0} {P : A → NvListReader → Type 0} {Q : Error → NvListReader → Type 0}
    (d : DatasetProps) {x : Result A × NvListReader}
    → Ends P Q x
    → Ends (λ a p. P a p.reader) (λ e p. Q e p.reader) (with_reader d x)
with_reader-Ends d (returns p) = returns p
with_reader-Ends d (raises q) = raises q

-- The call halts, and does not move the reader.
abbrev Keeps : Method (Parse NvListReader) (Unit {0}) → Type 0
Keeps m = (p : Parse NvListReader) → Halts (λ _ q. q.reader ≡ p.reader) (m p)

store-Keeps : (key : PropKey) (ty : NvType) → Keeps (store key ty)
unfolding store on_reader
store-Keeps key ty p = Halts-bind _ (Still-raise_if _ _ p) (λ a q e.
    Halts-bind _ (with_reader-Halts q.props (get_uint64-Still q.reader))
      (λ v w e'. gives (e' ∙ ap (λ r. r.reader) e)))

store_known-Keeps : (key : Option PropKey) (ty : NvType) → Keeps (store_known key ty)
unfolding store_known
store_known-Keeps none ty p = gives refl
store_known-Keeps (some key) ty p = store-Keeps key ty p

if-Keeps :
    {m k : Method (Parse NvListReader) (Unit {0})} (b : Bool)
    → Keeps m
    → Keeps k
    → Keeps (if b then m else k)
if-Keeps true h l = h
if-Keeps false h l = l

parse_pair-Keeps : (name : Bytes) (ty : NvType) → Keeps (parse_pair name ty)
unfolding parse_pair
parse_pair-Keeps name ty p =
    if-Keeps {k = pure tt} (equal p.reader.name_bytes (codes "value"))
      (store_known-Keeps (prop_key name) ty) (λ q. gives refl) p

-- The loop ends behind its list.
abbrev pub EndsList : (ℕ → Method (Parse NvListReader) (Unit {0})) → Type 0
EndsList m =
    (f : ℕ) (p : Parse NvListReader)
    → IsReady p.reader
    → p.reader.pos ≤ length p.reader.bytes
    → length p.reader.bytes < f + p.reader.pos
    → Halts (λ _ q. IsEnd p.reader q.reader) (m f p)

parse_value-EndsList : (name : Bytes) → EndsList (λ f. parse_value f name)
unfolding parse_value on_reader
parse_value-EndsList name zero p h l k = absurd (omega arith)
parse_value-EndsList name (suc f) p h l k =
    Halts-bind _ (Ends-Halts (Ends-eof_as_none (with_reader-Ends p.props (next-Ends p.reader h))))
      (elim [
        | none ↦ λ q e. gives (e refl)
        | some ty ↦ λ q n. Halts-bind _ (parse_pair-Keeps name ty q) (λ a w e.
            let o = subst (Onward q.reader) (sym e) (next-Onward n) in
            Halts-weaken
              (parse_value-EndsList name f w (Onward-IsReady o) (onward_room n o)
                (onward_fuel n o f k))
              (λ b v d. onward-IsEnd n o d))
      ])

pub parse_props-EndsList : EndsList parse_props
unfolding parse_props on_reader
parse_props-EndsList zero p h l k = absurd (omega arith)
parse_props-EndsList (suc f) p h l k =
    Halts-bind _ (Ends-Halts (Ends-eof_as_none (with_reader-Ends p.props (next-Ends p.reader h))))
      (elim [
        | none ↦ λ q e. gives (e refl)
        | some ty ↦ λ q n. Halts-bind _ (Still-raise_if _ _ q) (λ a w e.
            let o = subst (λ r. Onward q.reader r.reader) (sym e) (next-Onward n) in
            Halts-bind _
              (parse_value-EndsList w.reader.name_bytes f w (Onward-IsReady o) (onward_room n o)
                (onward_fuel n o f k))
              (λ b v d.
                let o' = Onward-trans o d in
                Halts-weaken
                  (parse_props-EndsList f v (Onward-IsReady o') (onward_room n o')
                    (onward_fuel n o' f k))
                  (λ c x d'. onward-IsEnd n o' d')))
      ])
