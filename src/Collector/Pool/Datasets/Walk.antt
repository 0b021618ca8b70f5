-- ===== src/Collector/Pool/Datasets/Walk.antt =====
-- main.go: `findDatasetsRecursive` over a kernel that serves a listing.
use prometheus_zfs_exporter.Base.{
  ℕ, zero, suc, ◌<◌, ◌≤◌, ◌≡◌, refl, sym, ap, ◌∙◌, arith, Option, List, ◌++◌, append_assoc, Bytes,
  length, Result, ok, err, errno,
}
use mathlib.Core.Path.{subst}
use prometheus_zfs_exporter.Ioctl.Cmd.{empty_cmd, name_size, set_name, get_name}
use prometheus_zfs_exporter.Ioctl.Cmd.Names.{NoNull, get_name-set_name_cleared}
use prometheus_zfs_exporter.Ioctl.Handle.{Answer, Syscall, esrch, after, zfs_ioc_dataset_list_next}
use prometheus_zfs_exporter.Ioctl.Handle.Retry.{status}
use prometheus_zfs_exporter.Ioctl.Handle.Serve.{IsUsable, Holds, ioctl-Serves}
use prometheus_zfs_exporter.Collector.Export.{Desc, ValueType, Sample, Exporter, Channel}
use prometheus_zfs_exporter.Collector.Export.Sends.{
  Accepts, sent_after, sent_after_append, sent_after_nil,
}
use prometheus_zfs_exporter.Collector.Metrics.Named.{dataset_metrics}
use prometheus_zfs_exporter.Collector.Pool.Datasets.Node.{Node, IsNode, packed, props_of, node_read}
use prometheus_zfs_exporter.Collector.Metrics.Sends.{handle_dataset-Sends}
use prometheus_zfs_exporter.Collector.Pool.Datasets.{
  ReadFile, Scrape, contents, kstat_path, read_props, add_kstat, on_channel, listing_end, request,
  read_kstat_file, export_dataset, find_datasets,
}
use prometheus_zfs_exporter.Collector.Pool.Datasets.Listing.{
  Listing, Datasets, nil, cons, Lists, ends, found, AllNodes, rounds, tree_metrics, Asks, IsReply,
  ServesListing,
}

-- The block of the loop's call.
abbrev asking : {World Metric : Type 0} → Bytes → ℕ → Scrape World Metric → Scrape World Metric
asking prefix cookie s = record s {
  call = record s.call { cmd = record (set_name prefix empty_cmd) { cookie = cookie } };
}

module _ {World Metric : Type 0} (syscall : Syscall World) (read_file : ReadFile World)
    (exporter : Exporter Metric) where
  -- A round that finds the end.
  find_datasets-end :
      (fuel : ℕ) (pool prefix : Bytes) (cookie : ℕ) (s t : Scrape World Metric)
      → request syscall (suc fuel) zfs_ioc_dataset_list_next (asking prefix cookie s)
        ≡ (err (errno esrch), t)
      → find_datasets syscall read_file exporter (suc fuel) pool prefix cookie s ≡ (ok tt, t)
  unfolding find_datasets listing_end
  find_datasets-end fuel pool prefix cookie s t e = rw e

  -- A round that finds a dataset: it is exported, those below it are walked, then its siblings.
  find_datasets-entry :
      (fuel : ℕ) (pool prefix : Bytes) (cookie : ℕ) (s t u v : Scrape World Metric)
      → request syscall (suc fuel) zfs_ioc_dataset_list_next (asking prefix cookie s) ≡ (ok tt, t)
      → export_dataset syscall read_file exporter pool (get_name t.call.cmd) t ≡ (ok tt, u)
      → find_datasets syscall read_file exporter fuel pool (get_name t.call.cmd) 0 u ≡ (ok tt, v)
      → find_datasets syscall read_file exporter (suc fuel) pool prefix cookie s
        ≡ find_datasets syscall read_file exporter fuel pool prefix t.call.cmd.cookie v
  unfolding find_datasets listing_end
  find_datasets-entry fuel pool prefix cookie s t u v e exported below = rw (e, exported, below)

-- The file system answers by the path alone.
abbrev pub ServesFiles : {World : Type 0} → ReadFile World → (Bytes → Result Bytes) → Type 0
ServesFiles {World} read_file files = (path : Bytes) (w : World) → (read_file path w).0 ≡ files path

-- The channel after `ms`.
abbrev pub sending : {Metric : Type 0} → Channel Metric → List Metric → Channel Metric
sending ch ms = record ch { sent = sent_after ch.is_open ch.sent ms }

pub sending_append :
    {Metric : Type 0} (ch : Channel Metric) (xs ys : List Metric)
    → sending (sending ch xs) ys ≡ sending ch (xs ++ ys)
sending_append ch xs ys =
    ap (λ s. record ch { sent = s }) (sent_after_append ch.is_open ch.sent xs ys)

some_round : (ds : Datasets) → 0 < rounds ds
some_round nil = omega arith
some_round (cons n below rest) = omega arith

asked :
    {World : Type 0} (prefix : Bytes) (cookie : ℕ) (resp : Option Bytes) (w : World)
    → NoNull prefix
    → length prefix < name_size
    → Asks prefix cookie (record {
      cmd = record (set_name prefix empty_cmd) { cookie = cookie };
      resp = resp;
      world = w;
    })
unfolding get_name
asked prefix cookie resp w h lt = (get_name-set_name_cleared prefix h lt, refl)

module _ {World Metric : Type 0} (syscall : Syscall World) (read_file : ReadFile World)
    (exporter : Exporter Metric) (IsLabel : Bytes → Type 0)
    (make : Desc → ValueType → Sample → List Bytes → Metric)
    (accepts : Accepts exporter IsLabel make) (files : Bytes → Result Bytes)
    (serves_files : ServesFiles read_file files) where
  -- The scrape after a dataset's file was read and its metrics were sent.
  abbrev exported : Bytes → Scrape World Metric → List Metric → Scrape World Metric
  exported path s ms = record {
    call = record s.call { world = (read_file path s.call.world).1 };
    channel = sending s.channel ms;
  }

  export_dataset-Sends :
      (pool : Bytes) (n : Node) (s : Scrape World Metric)
      → IsNode files pool n
      → Holds (packed n) s.call.resp
      → IsLabel pool
      → IsLabel n.name
      → (path : Bytes) × (export_dataset syscall read_file exporter pool n.name s
          ≡ (ok tt, exported path s (dataset_metrics make pool n.name (props_of n))))
  unfolding export_dataset read_kstat_file on_channel
  export_dataset-Sends pool n s h (rest, resp, room) p l =
      let (d, e, reads, adds, same) = node_read make files pool n rest h room in
      let path = kstat_path pool d.objsetid in
      (
        path,
        rw
            (
              ap (λ b. read_props (contents b)) resp ∙ reads,
              ap (add_kstat d) (serves_files path s.call.world) ∙ adds,
              handle_dataset-Sends exporter IsLabel make accepts pool n.name e p l s.channel,
            )
            (ap (λ ms. (ok tt, exported path s ms)) same),
      )

  -- The walk's outcome: it returns, with the tree's metrics sent and the buffer fit for more.
  abbrev pub Walks :
      (size : ℕ)
      → Scrape World Metric
      → List Metric
      → Result (Unit {0}) × Scrape World Metric
      → Type 0
  Walks size s ms x =
      (t : Scrape World Metric) × (x ≡ (ok tt, t))
      × (t.channel ≡ sending s.channel ms)
      × IsUsable size t.call

  module _ (size : ℕ) (listing : Listing) (serves : ServesListing syscall size listing)
      (pool : Bytes) (pool_label : IsLabel pool) where
    -- What a round's call brings.
    reply :
        (fuel : ℕ) (prefix : Bytes) (cookie : ℕ) (s : Scrape World Metric)
        → NoNull prefix
        → length prefix < name_size
        → IsUsable size s.call
        → (a : Answer World) × IsReply (listing prefix cookie) a
          × IsUsable size (after syscall a)
          × (request syscall (suc fuel) zfs_ioc_dataset_list_next (asking prefix cookie s)
              ≡ (status a.number, record { call = after syscall a; channel = s.channel }))
    unfolding request
    reply fuel prefix cookie s h lt usable =
        let (a, q, still, eq) =
          ioctl-Serves syscall zfs_ioc_dataset_list_next size (Asks prefix cookie)
            (IsReply (listing prefix cookie)) (suc fuel) (asking prefix cookie s).call
            (serves prefix cookie) (asked prefix cookie s.call.resp s.call.world h lt)
            (record { filled = usable.filled; present = usable.present; sized = usable.sized })
            (omega arith) in
        (a, q, still, rw eq)

    -- Over a kernel that serves a listing, with answers that fit the response buffer with room to
    -- spare, files that depend on the path alone, and a collector that `Describe` has set up and
    -- whose client accepts valid labels, `findDatasetsRecursive` below a name, with fuel for the
    -- listing's finite tree of well-formed datasets, succeeds and sends the metrics of each dataset
    -- in the tree once, in pre-order. They show the last number under each name in the dataset's
    -- property list, or in its kstat file if there is one, and else zero.
    pub find_datasets-Walks :
        {prefix : Bytes} {cookie : ℕ} {ds : Datasets} (fuel : ℕ) (s : Scrape World Metric)
        → Lists listing prefix cookie ds
        → AllNodes (λ n. IsNode files pool n × IsLabel n.name) ds
        → NoNull prefix
        → length prefix < name_size
        → IsUsable size s.call
        → rounds ds ≤ fuel
        → Walks size s
            (tree_metrics make pool ds)
            (find_datasets syscall read_file exporter fuel pool prefix cookie s)
    find_datasets-Walks {ds} zero s lists nodes h lt usable enough =
        absurd (omega (arith, some_round ds))
    find_datasets-Walks {prefix} {cookie} (suc fuel) s (ends e) nodes h lt usable enough =
        let (a, q, still, eq) = reply fuel prefix cookie s h lt usable in
        let r = subst (λ x. IsReply x a) e q in
        (
          record { call = after syscall a; channel = s.channel },
          find_datasets-end syscall read_file exporter fuel pool prefix cookie s _
              (eq ∙ ap (λ n. (status n, record { call = after syscall a; channel = s.channel })) r),
          ap (λ b. record s.channel { sent = b })
              (sym (sent_after_nil s.channel.is_open s.channel.sent)),
          still,
        )
    find_datasets-Walks {prefix} {cookie} (suc fuel) s (found {n} {below} {rest} e in_below in_rest)
          nodes h lt usable enough =
        let (a, q, still, eq) = reply fuel prefix cookie s h lt usable in
        let r = subst (λ x. IsReply x a) e q in
        let t : Scrape World Metric = record { call = after syscall a; channel = s.channel } in
        let own = dataset_metrics make pool n.name (props_of n) in
        let (path, sends) = export_dataset-Sends pool n t nodes.0.0 r.3 pool_label nodes.0.1 in
        let u = exported path t own in
        let usable_u : IsUsable size u.call = record {
          filled = still.filled;
          present = still.present;
          sized = still.sized;
        } in
        let (v, eq_v, ch_v, usable_v) =
          find_datasets-Walks fuel u in_below nodes.1 nodes.0.0.no_null nodes.0.0.name_lt usable_u
            (omega arith) in
        let (w, eq_w, ch_w, usable_w) =
          find_datasets-Walks fuel v in_rest nodes.2 h lt usable_v (omega arith) in
        (
          w,
          find_datasets-entry syscall read_file exporter fuel pool prefix cookie s t u v
                (eq ∙ ap (λ k. (status k, t)) r.0)
                (subst (λ name. export_dataset syscall read_file exporter pool name t ≡ (ok tt, u))
                  (sym r.1) sends)
                (subst
                  (λ name. find_datasets syscall read_file exporter fuel pool name 0 u ≡ (ok tt, v))
                  (sym r.1) eq_v)
              ∙ ap (λ k. find_datasets syscall read_file exporter fuel pool prefix k v) r.2
              ∙ eq_w,
          ch_w
              ∙ ap (λ ch. sending ch (tree_metrics make pool rest)) ch_v
              ∙ ap (λ ch. sending ch (tree_metrics make pool rest))
                  (sending_append s.channel own (tree_metrics make pool below))
              ∙ sending_append s.channel (own ++ tree_metrics make pool below)
                  (tree_metrics make pool rest)
              ∙ ap (sending s.channel)
                  (append_assoc own (tree_metrics make pool below) (tree_metrics make pool rest)),
          usable_w,
        )
