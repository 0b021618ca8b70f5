-- ===== src/Collector/Describe/Sends.antt =====
-- main.go: `Describe` sends every description once and sets every field.
use prometheus_zfs_exporter.Base.{◌++◌, true, ◌≡◌, sym, ◌∙◌, ap, List, [], ◌∷◌, ok}
use prometheus_zfs_exporter.Collector.Export.{Desc, send}
use prometheus_zfs_exporter.Collector.Export.Sends.{
  sent_after, sent_after_append, sent_after_nil, send_to_after,
}
use prometheus_zfs_exporter.Collector.Descs.{descriptions}
use prometheus_zfs_exporter.Collector.Export.{ZfsCollector}
use prometheus_zfs_exporter.Collector.Describe.{
  Describing, Field, on_descs, describe, describe_each, collector_fields, describe_all,
  describe_registered, described,
}

module _ {File : Type 0} where
  abbrev set_each : List (Field File) → ZfsCollector File → ZfsCollector File
  set_each [] c = c
  set_each ((set, d) ∷ fields) c = set_each fields (set d c)

  abbrev descs_of : List (Field File) → List Desc
  descs_of [] = []
  descs_of ((_, d) ∷ fields) = d ∷ descs_of fields

  abbrev told : Describing File → ZfsCollector File → List Desc → Describing File
  told s c ds = record {
    collector = c;
    channel = record s.channel { sent = sent_after s.channel.is_open s.channel.sent ds };
  }

  describe-told :
      (set : Desc → ZfsCollector File → ZfsCollector File) (d : Desc) (s : Describing File)
      → describe (set, d) s ≡ (ok tt, told s (set d s.collector) (d ∷ []))
  unfolding describe on_descs send
  describe-told set d s =
      ap
        (λ b. (
          ok tt,
          record { collector = set d s.collector; channel = record s.channel { sent = b } },
        ))
        (send_to_after s.channel.is_open s.channel.sent d)

  describe_each-told :
      (fields : List (Field File)) (s : Describing File)
      → describe_each fields s ≡ (ok tt, told s (set_each fields s.collector) (descs_of fields))
  unfolding describe_each
  describe_each-told [] s =
      ap (λ b. (ok tt, record { collector = s.collector; channel = record s.channel { sent = b } }))
        (sym (sent_after_nil s.channel.is_open s.channel.sent))
  describe_each-told ((set, d) ∷ fields) s = rw (describe-told set d s) (
      describe_each-told fields (told s (set d s.collector) (d ∷ []))
      ∙ ap
          (λ b. (
            ok tt,
            record {
              collector = set_each fields (set d s.collector);
              channel = record s.channel { sent = b };
            },
          ))
          (sent_after_append s.channel.is_open s.channel.sent (d ∷ []) (descs_of fields)))

  -- `Describe` returns, has sent the 33 descriptions in their order, after what the channel had
  -- before, and has set every field of the collector, whatever the fields were.
  pub describe_registered-descriptions :
      (c : ZfsCollector File) (sent : List Desc)
      → describe_registered c sent ≡ (
        ok tt,
        record {
          collector = described c.zfs_handle;
          channel = record { is_open = true; sent = sent ++ descriptions };
        },
      )
  unfolding describe_registered describe_all
  describe_registered-descriptions c sent =
      describe_each-told collector_fields
        (record { collector = c; channel = record { is_open = true; sent = sent } })
