-- ===== src/Collector/Metrics/Sends.antt =====
-- main.go: the metrics that `handleDataset` and `handleVdev` export, in order.
use prometheus_zfs_exporter.Collector.Metrics.Named.{
  vdev_label, dataset_metrics, own_metrics, vdev_metrics, children_metrics, IsLabelled, AreLabelled,
}
use mathlib.Core.Path.{subst}
use prometheus_zfs_exporter.Base.{
  ◌≡◌, sym, equal, codes, Bool-cases, inl, inr, ◌>>◌, arith, refl, [], ◌∷◌, ◌++◌, List, Bytes, All,
}
use prometheus_zfs_exporter.Ioctl.State.{vdev_states}
use prometheus_zfs_exporter.Collector.Props.{DatasetProps}
use prometheus_zfs_exporter.Collector.Vdev.{VdevInfo, Vdev, Vdevs, node, nil, cons}
use prometheus_zfs_exporter.Collector.Naming.{slash, vdev_name}
use prometheus_zfs_exporter.Collector.Describe.{described}
use prometheus_zfs_exporter.Collector.Export.{
  export_all, export_states, Desc, ValueType, Sample, Exporter,
}
use prometheus_zfs_exporter.Collector.Export.Sends.{
  Accepts, Sends, Sends-bind, Sends-nothing, Sends-export_all, Sends-export_states,
}
use prometheus_zfs_exporter.Collector.Descs.{pool_vdev_state}
use prometheus_zfs_exporter.Collector.Metrics.{
  dataset_samples, vdev_samples, handle_dataset, handle_own, handle_vdev, handle_children,
}

pub vdev_name-vdev_label :
    (pool above : Bytes) (v : VdevInfo) → vdev_name pool above v ≡ vdev_label pool above v
unfolding vdev_name
vdev_name-vdev_label pool above v = elim (Bool-cases (equal v.path [])) [
  | inl here ↦ elim (Bool-cases (equal v.vdev_type (codes "root"))) [
    | inl root ↦ rw (here, root) refl
    | inr other ↦ rw (here, other) refl
  ]
  | inr there ↦ rw there refl
]

module _ {Metric : Type 0} (exporter : Exporter Metric) (IsLabel : Bytes → Type 0)
    (make : Desc → ValueType → Sample → List Bytes → Metric)
    (accepts : Accepts exporter IsLabel make) where
  -- With a collector that `Describe` has set up and whose client accepts valid labels, as many as
  -- the description names, `handleDataset` succeeds and sends the seventeen metrics of the dataset
  -- in their order, each number under its own name and with the labels (name, pool).
  pub handle_dataset-Sends :
      (pool name : Bytes) (props : DatasetProps)
      → IsLabel pool
      → IsLabel name
      → Sends (handle_dataset exporter pool name props) (dataset_metrics make pool name props)
  unfolding handle_dataset
  handle_dataset-Sends pool name props p n =
      subst
        (λ c.
          Sends (export_all exporter.new_const_metric (dataset_samples c props) (name ∷ pool ∷ []))
            (dataset_metrics make pool name props))
        (sym accepts.1)
        (Sends-export_all exporter.new_const_metric IsLabel make accepts.0
          (dataset_samples (described tt) props) (name ∷ pool ∷ []) (omega arith) (n, (p, tt)))

  handle_own-Sends :
      (pool name : Bytes) (v : VdevInfo)
      → IsLabel pool
      → IsLabel name
      → IsLabel v.vdev_type
      → All IsLabel vdev_states
      → Sends (handle_own exporter pool name v) (own_metrics make pool name v)
  unfolding handle_own
  handle_own-Sends pool name v p n t states =
      subst
        (λ c.
          Sends
            (do
              export_states exporter.new_const_metric c.pool_vdev_state_desc
                  (pool ∷ name ∷ v.vdev_type ∷ []) v.stats.state vdev_states
              export_all exporter.new_const_metric (vdev_samples c v.stats)
                  (pool ∷ name ∷ v.vdev_type ∷ []))
            (own_metrics make pool name v))
        (sym accepts.1)
        (Sends-bind
          (Sends-export_states exporter.new_const_metric IsLabel make accepts.0 pool_vdev_state
            (pool ∷ name ∷ v.vdev_type ∷ []) v.stats.state vdev_states refl (p, (n, (t, tt)))
            states)
          (Sends-export_all exporter.new_const_metric IsLabel make accepts.0
            (vdev_samples (described tt) v.stats) (pool ∷ name ∷ v.vdev_type ∷ []) (omega arith)
            (p, (n, (t, tt)))))

  mutual
    unfolding handle_vdev vdev_metrics IsLabelled

    tree_sent :
        (v : Vdev) (pool prefix : Bytes)
        → IsLabel pool
        → All IsLabel vdev_states
        → IsLabelled IsLabel v pool prefix
        → Sends (handle_vdev exporter v pool prefix) (vdev_metrics make v pool prefix)
    tree_sent (node v children) pool prefix p states h =
        let label = vdev_label pool prefix v in
        subst
          (λ name.
            Sends
              (λ ch.
                (do
                  handle_own exporter pool name v
                  handle_children exporter children pool (name ++ slash ∷ []))
                  ch)
              (vdev_metrics make (node v children) pool prefix))
          (sym (vdev_name-vdev_label pool prefix v))
          (Sends-bind (handle_own-Sends pool label v p h.0 h.1 states)
            (forest_sent children pool (label ++ codes "/") p states h.2))

    forest_sent :
        (vs : Vdevs) (pool prefix : Bytes)
        → IsLabel pool
        → All IsLabel vdev_states
        → AreLabelled IsLabel vs pool prefix
        → Sends (handle_children exporter vs pool prefix) (children_metrics make vs pool prefix)
    forest_sent nil pool prefix p states h = Sends-nothing
    forest_sent (cons v vs) pool prefix p states h =
        Sends-bind (tree_sent v pool prefix p states h.0) (forest_sent vs pool prefix p states h.1)

  -- With a collector that `Describe` has set up and whose client accepts valid labels, as many as
  -- the description names, `handleVdev` succeeds and sends, in pre-order over the tree, for each
  -- vdev whether it is in each of the states and then its nine numbers, each under its own name. A
  -- vdev's label is made of those on the way from the root and of the last element of its path, or
  -- else the pool's name for the root, or its type and number.
  pub handle_vdev-Sends :
      (v : Vdev) (pool prefix : Bytes)
      → IsLabel pool
      → All IsLabel vdev_states
      → IsLabelled IsLabel v pool prefix
      → Sends (handle_vdev exporter v pool prefix) (vdev_metrics make v pool prefix)
  handle_vdev-Sends = tree_sent
