-- ===== src/Collector/Pool/Datasets/Listing.antt =====
-- What `ZFS_IOC_DATASET_LIST_NEXT` promises, as a listing: the dataset that follows a cookie below a
-- name, or the end. A tree of datasets says what a walk over the listing finds.
use prometheus_zfs_exporter.Base.{ℕ, suc, ◌+◌, ◌≡◌, List, [], ◌++◌, Bytes}
use prometheus_zfs_exporter.Ioctl.Cmd.{get_name}
use prometheus_zfs_exporter.Ioctl.Handle.{Answer, Syscall, Call, esrch, zfs_ioc_dataset_list_next}
use prometheus_zfs_exporter.Ioctl.Handle.Serve.{Holds, Serves}
use prometheus_zfs_exporter.Collector.Export.{Desc, ValueType, Sample}
use prometheus_zfs_exporter.Collector.Metrics.Named.{dataset_metrics}
use prometheus_zfs_exporter.Collector.Pool.Datasets.Node.{Node, packed, props_of}

pub data Reply : Type 0 where
  end : Reply
  entry : Bytes → ℕ → Bytes → Reply

abbrev pub Listing : Type 0
Listing = Bytes → ℕ → Reply

-- The datasets below a name: the first with those below it, and its later siblings.
pub data Datasets : Type 0 where
  nil : Datasets
  cons : Node → Datasets → Datasets → Datasets

-- The tree is what the listing has below a name, from a cookie on.
pub data Lists (listing : Listing) : Bytes → ℕ → Datasets → Type 0 where
  ends :
      {prefix : Bytes} {cookie : ℕ} → listing prefix cookie ≡ end → Lists listing prefix cookie nil
  found :
      {prefix : Bytes} {cookie : ℕ} {n : Node} {below rest : Datasets}
      → listing prefix cookie ≡ entry n.name n.later (packed n)
      → Lists listing n.name 0 below
      → Lists listing prefix n.later rest
      → Lists listing prefix cookie (cons n below rest)

-- The property holds of every dataset in the tree.
abbrev pub AllNodes : (Node → Type 0) → Datasets → Type 0
AllNodes P nil = Unit
AllNodes P (cons n below rest) = P n × AllNodes P below × AllNodes P rest

-- The rounds of the loop that a walk of the tree takes, with those that find an end.
abbrev pub rounds : Datasets → ℕ
rounds nil = 1
rounds (cons n below rest) = suc (rounds below + rounds rest)

-- The metrics of the datasets in pre-order.
abbrev pub tree_metrics :
    {Metric : Type 0}
    → (Desc → ValueType → Sample → List Bytes → Metric)
    → Bytes
    → Datasets
    → List Metric
tree_metrics make pool nil = []
tree_metrics make pool (cons n below rest) =
    dataset_metrics make pool n.name (props_of n)
    ++ (tree_metrics make pool below ++ tree_metrics make pool rest)

-- The question of the loop's call.
abbrev pub Asks : {World : Type 0} → Bytes → ℕ → Call World → Type 0
Asks prefix cookie c = (get_name c.cmd ≡ prefix) × (c.cmd.cookie ≡ cookie)

-- The kernel's answer to it.
abbrev pub IsReply : {World : Type 0} → Reply → Answer World → Type 0
IsReply end a = a.number ≡ esrch
IsReply (entry name later bs) a =
    (a.number ≡ 0) × (get_name a.cmd ≡ name) × (a.cmd.cookie ≡ later) × Holds bs a.resp

-- The kernel serves the listing, which stays the same throughout a scrape, with answers that fit a
-- buffer of the size.
abbrev pub ServesListing : {World : Type 0} → Syscall World → ℕ → Listing → Type 0
ServesListing syscall size listing =
    (prefix : Bytes) (cookie : ℕ)
    → Serves syscall zfs_ioc_dataset_list_next size (Asks prefix cookie)
        (IsReply (listing prefix cookie))
