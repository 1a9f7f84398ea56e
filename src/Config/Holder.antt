-- ===== src/Config/Holder.antt =====
-- internal/config/holder.go. The mutex makes each method atomic, so a method is a function of what
-- the holder holds, and concurrent calls are some sequence of them.
use smeltry_operator.Netbox.{ClientIface}
use smeltry_operator.Http.Client.{Client, as_iface}

pub record NetboxHolder (C : Type 0) : Type 0 where
  pub client : C

module _ {C : Type 0} where
  unfoldable pub new_netbox_holder : C → NetboxHolder C
  new_netbox_holder c = record { client = c }

  unfoldable pub get : NetboxHolder C → C
  get h = h.client

  unfoldable pub set : C → NetboxHolder C → NetboxHolder C
  set c h = record h { client = c }

-- r.NetboxHolder.Get() before each call: the client that the holder has in the state of the call.
unfoldable pub through : {W : Type 0} → (W → NetboxHolder (Client W)) → ClientIface W
unfolding get as_iface
through {W} held =
    let current : W → ClientIface W = λ w. as_iface (get (held w)) in
    record {
      list_tenants = λ w. (current w).list_tenants w;
      list_available_devices = λ site model w. (current w).list_available_devices site model w;
      list_devices_by_site = λ site w. (current w).list_devices_by_site site w;
      set_device_status = λ id status tenant w. (current w).set_device_status id status tenant w;
      list_osd_disks = λ id w. (current w).list_osd_disks id w;
      allocate_ip = λ prefix dns tags w. (current w).allocate_ip prefix dns tags w;
      release_ip = λ id w. (current w).release_ip id w;
    }
