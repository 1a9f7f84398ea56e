-- ===== src/Controller/Sites.antt =====
-- internal/controller/siteconfig_controller.go: the free machines of a site, by class.
pub mod Counts
pub mod Sorting
pub mod Order
use smeltry_operator.Base.{
  ℕ, suc, ◌*◌, String, Bool, true, false, Option, none, some, List, [], ◌∷◌, ◌++◌, map, str_eq,
  str_ltb, if◌then◌else◌, pos,
}
use smeltry_operator.Error.{Error, Result, ok, err}
use smeltry_operator.Api.{Key, SiteConfig, MachineClassSummary, MachineCharacteristics}
use smeltry_operator.Netbox.{Device, ClientIface}
use smeltry_operator.Kube.{Kube, Object}
use smeltry_operator.Effect.{
  Go, Block, ◌>>=◌, ◌>>◌, pure, return, call, check, body, time_now, get_site_config,
  list_devices_by_site, update_status,
}
use smeltry_operator.Controller.Reply.{Reply, reply, failure, reply_after, minute}

pub record SiteConfigReconciler (W : Type 0) : Type 0 where
  pub client : Kube W
  pub netbox : ClientIface W

-- What the map `classes` holds for a model. The set of tags is a list without duplicates.
pub record Entry : Type 0 where
  pub available : ℕ
  pub tag_set : List String

-- e.tagSet[t.Slug] = struct{}{}
add_tag : String → List String → List String
add_tag slug [] = slug ∷ []
add_tag slug (t ∷ ts) = if str_eq t slug then t ∷ ts else t ∷ add_tag slug ts

pub add_tags : List String → List String → List String
unfolding add_tag
add_tags [] set = set
add_tags (slug ∷ slugs) set = add_tags slugs (add_tag slug set)

-- The entry once a device of the model has been seen.
unfoldable pub grown : Device → Entry → Entry
unfolding add_tags
grown d e = record {
  available = elim d.tenant [ none ↦ suc e.available | some _ ↦ e.available ];
  tag_set = add_tags d.tags e.tag_set;
}

-- The map `classes`, as a list in the order in which its keys came.
unfoldable pub count_device : Device → List (String × Entry) → List (String × Entry)
unfolding grown
count_device d [] = (d.model, grown d (record { available = 0; tag_set = [] })) ∷ []
count_device d ((model, e) ∷ rest) =
    if str_eq model d.model then (model, grown d e) ∷ rest else (model, e) ∷ count_device d rest

-- The loop over the devices. One without a model is skipped.
unfoldable pub collect : List Device → List (String × Entry) → List (String × Entry)
unfolding count_device
collect [] classes = classes
collect (d ∷ ds) classes =
    collect ds (if str_eq d.model "" then classes else count_device d classes)

insert_text : String → List String → List String
insert_text s [] = s ∷ []
insert_text s (t ∷ ts) = if str_ltb t s then t ∷ insert_text s ts else s ∷ t ∷ ts

-- sort.Strings
pub sort_strings : List String → List String
unfolding insert_text
sort_strings [] = []
sort_strings (s ∷ ss) = insert_text s (sort_strings ss)

insert_summary : MachineClassSummary → List MachineClassSummary → List MachineClassSummary
insert_summary s [] = s ∷ []
insert_summary s (t ∷ ts) =
    if str_ltb t.machine_class s.machine_class then t ∷ insert_summary s ts else s ∷ t ∷ ts

-- sort.Slice by MachineClass. The classes differ, so that the order is the only one.
unfoldable pub sort_summaries : List MachineClassSummary → List MachineClassSummary
unfolding insert_summary
sort_summaries [] = []
sort_summaries (s ∷ ss) = insert_summary s (sort_summaries ss)

summary : String × Entry → MachineClassSummary
unfolding sort_strings
summary (model, e) = record {
  machine_class = model;
  available_count = e.available;
  tags = sort_strings e.tag_set;
  characteristics = record { cpu_cores = 0; ram_gb = 0; storage_gb = 0 };
}

unfoldable pub summaries : List (String × Entry) → List MachineClassSummary
unfolding summary
summaries [] = []
summaries (entry ∷ rest) = summary entry ∷ summaries rest

unfoldable pub aggregate_machine_classes : List Device → List MachineClassSummary
unfolding collect summaries sort_summaries
aggregate_machine_classes devices = sort_summaries (summaries (collect devices []))

module _ {W : Type 0} (r : SiteConfigReconciler W) where
  read_site : Result SiteConfig → Block W Reply SiteConfig
  read_site (ok site) = pure site
  read_site (err e) = return (reply (r.client.ignore_not_found e))

  -- An error of Netbox is logged, and the next poll is waited for.
  devices_or_poll : Result (List Device) → Block W Reply (List Device)
  devices_or_poll (ok devices) = pure devices
  devices_or_poll (err e) = return (reply_after (pos (5 * minute)) none)

  unfoldable pub reconcile_site : Key → Go W Reply
  unfolding read_site devices_or_poll aggregate_machine_classes
  reconcile_site key = body do
    site ← call (get_site_config r.client key) >>= read_site
    devices ← call (list_devices_by_site r.netbox site.spec.netbox.site_slug) >>= devices_or_poll
    now ← call (time_now r.client)
    call (
          update_status r.client (
            Object.site_config (record site {
              status = record (site.status) {
                machine_classes = aggregate_machine_classes devices;
                last_machine_sync = some now;
              };
            })))
        >>= check failure
    pure (reply_after (pos (5 * minute)) none)
