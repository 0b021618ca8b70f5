-- ===== src/Collector/Export/Sends.antt =====
-- main.go: what `export` and the loops over it put on the channel when the Prometheus client takes
-- each sample.
use prometheus_zfs_exporter.Base.{
  Option, none, some, ◌+◌, ◌≡◌, refl, sym, ap, ◌∙◌, Bool, true, false, List, [], ◌∷◌, ◌++◌,
  append_assoc, append-nil, Bytes, length, length-append, equal, if◌then◌else◌, Result, ok, Method,
  ◌>>◌, wrap_err, arith, All,
}
use prometheus_zfs_exporter.Collector.Describe.{described}
use prometheus_zfs_exporter.Collector.Export.{
  Desc, ValueType, gauge_value, Sample, whole, NewConstMetric, Exporter, Channel, send_to, send,
  send_result, export, export_all, export_states,
}

module _ {Metric : Type 0} where
  -- What a channel has been sent after `ms`: nothing more if there is none.
  abbrev pub sent_after : Bool → List Metric → List Metric → List Metric
  sent_after true sent ms = sent ++ ms
  sent_after false sent ms = sent

  -- The call returns, and sends `ms` in this order.
  abbrev pub Sends : Method (Channel Metric) (Unit {0}) → List Metric → Type 0
  Sends m ms =
      (ch : Channel Metric) → m ch ≡ (ok tt, record ch { sent = sent_after ch.is_open ch.sent ms })

  pub sent_after_append :
      (b : Bool) (sent xs ys : List Metric)
      → sent_after b (sent_after b sent xs) ys ≡ sent_after b sent (xs ++ ys)
  sent_after_append true sent xs ys = append_assoc sent xs ys
  sent_after_append false sent xs ys = refl

  pub sent_after_nil : (b : Bool) (sent : List Metric) → sent_after b sent [] ≡ sent
  sent_after_nil true sent = append-nil sent
  sent_after_nil false sent = refl

  pub Sends-bind :
      {m k : Method (Channel Metric) (Unit {0})} {xs ys : List Metric}
      → Sends m xs
      → Sends k ys
      → Sends (m >> k) (xs ++ ys)
  Sends-bind {m} {k} {xs} {ys} a b ch = rw (a ch) (
      b (record ch { sent = sent_after ch.is_open ch.sent xs })
      ∙ ap (λ s. (ok tt, record ch { sent = s })) (sent_after_append ch.is_open ch.sent xs ys))

  pub Sends-nothing : Sends (λ ch. (ok tt, ch)) []
  Sends-nothing ch =
      ap (λ s. (ok tt, record ch { sent = s })) (sym (sent_after_nil ch.is_open ch.sent))

  pub send_to_after :
      (b : Bool) (sent : List Metric) (m : Metric) → send_to b sent m ≡ sent_after b sent (m ∷ [])
  send_to_after true sent m = refl
  send_to_after false sent m = refl

  Sends-send : (m : Metric) → Sends (send m) (m ∷ [])
  unfolding send
  Sends-send m ch = ap (λ s. (ok tt, record ch { sent = s })) (send_to_after ch.is_open ch.sent m)

  -- A metric that was made is sent, under whatever text `export` would wrap an error in.
  pub Sends-ok : (x : Result Metric) (m : Metric) → x ≡ ok m → Sends (send_result x) (m ∷ [])
  unfolding send_result
  Sends-ok x m e ch = rw e (Sends-send m ch)

-- A client that makes a metric of every sample whose labels are valid and as many as the
-- description names. What it makes is `make`.
abbrev pub Takes :
    {Metric : Type 0}
    → NewConstMetric Metric
    → (Bytes → Type 0)
    → (Desc → ValueType → Sample → List Bytes → Metric)
    → Type 0
Takes new_const_metric IsLabel make =
    (d : Desc) (t : ValueType) (v : Sample) (labels : List Bytes)
    → length labels ≡ length d.variable_labels
    → All IsLabel labels
    → new_const_metric (some d) t v labels ≡ ok (make d t v labels)

-- So does the collector's client, and `Describe` has been called.
abbrev pub Accepts :
    {Metric : Type 0}
    → Exporter Metric
    → (Bytes → Type 0)
    → (Desc → ValueType → Sample → List Bytes → Metric)
    → Type 0
Accepts exporter IsLabel make =
    Takes exporter.new_const_metric IsLabel make × (exporter.collector ≡ described tt)

module _ {Metric : Type 0} (make : Desc → ValueType → Sample → List Bytes → Metric) where
  -- The metrics of a run of `export` calls, and those of a loop over the states.
  abbrev pub metrics_of : List Bytes → List (Option Desc × ValueType × Sample) → List Metric
  metrics_of labels [] = []
  metrics_of labels ((none, t, v) ∷ more) = metrics_of labels more
  metrics_of labels ((some d, t, v) ∷ more) = make d t v labels ∷ metrics_of labels more

  abbrev pub states_of : Desc → List Bytes → Bytes → List Bytes → List Metric
  states_of d labels present [] = []
  states_of d labels present (name ∷ names) =
      make d gauge_value (whole (if equal name present then 1 else 0)) (labels ++ name ∷ [])
      ∷ states_of d labels present names

-- The descriptions are there and take as many labels as there are.
abbrev pub Fits : List Bytes → List (Option Desc × ValueType × Sample) → Type 0
Fits labels [] = Unit
Fits labels ((none, t, v) ∷ more) = ⊥
Fits labels ((some d, t, v) ∷ more) = (length labels ≡ length d.variable_labels) × Fits labels more

module _ {Metric : Type 0} (new_const_metric : NewConstMetric Metric) (IsLabel : Bytes → Type 0)
    (make : Desc → ValueType → Sample → List Bytes → Metric)
    (accepts : Takes new_const_metric IsLabel make) where
  Sends-export :
      (d : Desc) (t : ValueType) (v : Sample) (labels : List Bytes)
      → length labels ≡ length d.variable_labels
      → All IsLabel labels
      → Sends (export new_const_metric (some d) t v labels) (make d t v labels ∷ [])
  unfolding export wrap_err
  Sends-export d t v labels fits valid ch = rw (Sends-ok _ _ (accepts d t v labels fits valid) ch)

  pub Sends-export_all :
      (xs : List (Option Desc × ValueType × Sample)) (labels : List Bytes)
      → Fits labels xs
      → All IsLabel labels
      → Sends (export_all new_const_metric xs labels) (metrics_of make labels xs)
  unfolding export_all
  Sends-export_all [] labels fits valid = Sends-nothing
  Sends-export_all ((none, t, v) ∷ more) labels fits valid = absurd fits
  Sends-export_all ((some d, t, v) ∷ more) labels fits valid =
      Sends-bind (Sends-export d t v labels fits.0 valid)
        (Sends-export_all more labels fits.1 valid)

  All-snoc :
      (labels : List Bytes) (name : Bytes)
      → All IsLabel labels
      → IsLabel name
      → All IsLabel (labels ++ name ∷ [])
  All-snoc [] name valid h = (h, tt)
  All-snoc (l ∷ labels) name valid h = (valid.0, All-snoc labels name valid.1 h)

  pub Sends-export_states :
      (d : Desc) (labels : List Bytes) (present : Bytes) (names : List Bytes)
      → length labels + 1 ≡ length d.variable_labels
      → All IsLabel labels
      → All IsLabel names
      → Sends
          (export_states new_const_metric (some d) labels present names)
          (states_of make d labels present names)
  unfolding export_states
  Sends-export_states d labels present [] fits valid named = Sends-nothing
  Sends-export_states d labels present (name ∷ names) fits valid named =
      Sends-bind
        (Sends-ok _ _ (
          accepts d gauge_value _ (labels ++ name ∷ [])
            (omega (arith, length-append labels (name ∷ []))) (All-snoc labels name valid named.0)))
        (Sends-export_states d labels present names fits valid named.1)
