-- ===== src/Collector/Tests.antt =====
-- What the collector exports to a client that checks the number of labels.
use prometheus_zfs_exporter.Collector.Describe.{described}
use prometheus_zfs_exporter.Base.{
  none, some, refl, nil_dereference, ◌≡◌, true, [], List, Bytes, codes, length, ok, err, message,
  ◌==◌, if◌then◌else◌, ==_iff, ltb, replicate, panicked, index_range,
}
use prometheus_zfs_exporter.Collector.Props.{empty_props}
use prometheus_zfs_exporter.Nvlist.Reader.{new_reader}
use prometheus_zfs_exporter.Collector.Vdev.Stats.{stats_of, parse_vdev_stats-bounds}
use prometheus_zfs_exporter.Collector.Vdev.{
  parse_vdev_stats, VdevInfo, Vdev, node, nil, cons, empty_info,
}
use prometheus_zfs_exporter.Collector.Export.{
  Desc, ValueType, Sample, NewConstMetric, Exporter, Channel,
}
use prometheus_zfs_exporter.Collector.Export.Sends.{Accepts, sent_after}
use prometheus_zfs_exporter.Collector.Metrics.{handle_dataset, handle_vdev}
use prometheus_zfs_exporter.Collector.Metrics.Named.{dataset_metrics, vdev_metrics, IsLabelled}
use prometheus_zfs_exporter.Collector.Metrics.Sends.{handle_dataset-Sends, handle_vdev-Sends}

abbrev pub Metric : Type 0
Metric = Desc × ValueType × Sample × List Bytes

abbrev pub make : Desc → ValueType → Sample → List Bytes → Metric
make d t v labels = (d, t, v, labels)

abbrev made : NewConstMetric Metric
made none t v labels = panicked nil_dereference
made (some d) t v labels =
    if length labels == length d.variable_labels
    then ok (make d t v labels)
    else err (message "inconsistent label cardinality")

-- A collector that `Describe` has been called of.
abbrev pub client : Exporter Metric
client = record { collector = described tt; new_const_metric = made }

abbrev pub AnyLabel : Bytes → Type 0
AnyLabel name = Unit

pub client-Accepts : Accepts client AnyLabel make
client-Accepts = (
  λ d t v labels fits valid. rw ((==_iff (length labels) (length d.variable_labels)).1 fits),
  refl,
)

abbrev pub open_channel : Channel Metric
open_channel = record { is_open = true; sent = [] }

abbrev a_disk : VdevInfo
a_disk = record empty_info { vdev_type = codes "disk"; path = codes "/dev/sda1" }

abbrev a_pool : Vdev
a_pool = node (record empty_info { vdev_type = codes "root" }) (cons (node a_disk nil) nil)

handle_dataset-Sends_example :
    handle_dataset client (codes "tank") (codes "tank/a") empty_props open_channel ≡ (
      ok tt,
      record open_channel {
        sent =
            sent_after true [] (dataset_metrics make (codes "tank") (codes "tank/a") empty_props);
      },
    )
handle_dataset-Sends_example =
    handle_dataset-Sends client AnyLabel make client-Accepts (codes "tank") (codes "tank/a")
      empty_props tt tt open_channel

a_pool-IsLabelled : IsLabelled AnyLabel a_pool (codes "tank") []
unfolding IsLabelled
a_pool-IsLabelled = (tt, tt, ((tt, tt, tt), tt))

handle_vdev-Sends_example : handle_vdev client a_pool (codes "tank") [] open_channel ≡ (
  ok tt,
  record open_channel { sent = sent_after true [] (vdev_metrics make a_pool (codes "tank") []) },
)
handle_vdev-Sends_example =
    handle_vdev-Sends client AnyLabel make client-Accepts a_pool (codes "tank") [] tt
      (tt, (tt, (tt, (tt, (tt, (tt, (tt, (tt, tt)))))))) a_pool-IsLabelled open_channel

-- An array of 30 words.
parse_vdev_stats-bounds_example :
    parse_vdev_stats (replicate 30 7) (new_reader [])
    ≡ (if ltb 28 30 then ok (stats_of (replicate 30 7)) else panicked index_range, new_reader [])
parse_vdev_stats-bounds_example = parse_vdev_stats-bounds (replicate 30 7) (new_reader [])
