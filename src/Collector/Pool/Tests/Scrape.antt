-- ===== src/Collector/Pool/Tests/Scrape.antt =====
-- A scrape of the small pool.
use prometheus_zfs_exporter.Base.{refl, arith, codes}
use prometheus_zfs_exporter.Nvlist.Format.Tree.{
  Items, leaf, done, more, is_leaf, encode_items, encode_lists, list, empty,
}
use prometheus_zfs_exporter.Ioctl.Cmd.{empty_cmd}
use prometheus_zfs_exporter.Collector.Pool.Datasets.{response_size, Scrape, find_datasets}
use prometheus_zfs_exporter.Nvlist.Format.Tree as Tree
use prometheus_zfs_exporter.Collector.Tests.{
  Metric, make, client, AnyLabel, client-Accepts, open_channel,
}
use prometheus_zfs_exporter.Collector.Pool.{fresh_call, Env}
use prometheus_zfs_exporter.Collector.Pool.Datasets.Listing.{nil, cons, tree_metrics}
use prometheus_zfs_exporter.Collector.Pool.Datasets.Walk.{Walks, find_datasets-Walks}
use prometheus_zfs_exporter.Collector.Pool.Whole.{fresh-IsUsable}
use prometheus_zfs_exporter.Collector.Pool.Tests.Kernel.{
  dataset, files, read_file, listing, kernel, dataset-IsNode, kernel-ServesListing, tank-Lists,
  configs,
}

abbrev before : Env (Unit {0}) Metric
before = record { world = tt; channel = open_channel }

abbrev tank_scrape : Scrape (Unit {0}) Metric
tank_scrape = record { call = fresh_call empty_cmd tt; channel = open_channel }

find_datasets-Walks_example :
    Walks
      (kernel configs)
      read_file
      client
      AnyLabel
      make
      client-Accepts
      files
      (λ path w. refl)
      response_size
      tank_scrape
      (tree_metrics make (codes "tank") (cons dataset nil nil))
      (find_datasets
        (kernel configs)
        read_file
        client
        300000
        (codes "tank")
        (codes "tank")
        0
        tank_scrape)
find_datasets-Walks_example =
    find_datasets-Walks (kernel configs) read_file client AnyLabel make client-Accepts files
      (λ path w. refl) response_size listing (kernel-ServesListing configs) (codes "tank") tt 300000
      tank_scrape tank-Lists ((dataset-IsNode, tt), tt, tt) (omega arith) (omega arith)
      (fresh-IsUsable response_size empty_cmd tt refl) (omega arith)
