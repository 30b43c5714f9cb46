-- ===== src/Tests/Backends.antt =====
-- Runs of the backends (src/platform/ddc/) and of the access control (src/platform/access-control/),
-- and inputs for the theorems.
use dimmit.Base.{
  ℕ, ◌+◌, ◌-◌, ◌≡◌, ◌↔◌, ◌⊎◌, refl, true, none, some, List, [], ◌∷◌, codes, ltb, ◌≤◌, ◌++◌, ap,
  arith, length,
}
use dimmit.Ddc.Handles.{Tracks}
use dimmit.Ddc.Linux.{Ddcutil, linux_platform}
use dimmit.Ddc.Linux.Contract.{DdcutilTracks, linux_platform-Tracks}
use dimmit.Ddc.Netbsd.{Bus, netbsd_platform}
use dimmit.Ddc.Netbsd.Contract.{BusTracks, netbsd_platform-Tracks}
use dimmit.Ddc.Netbsd.{read_message, write_message, parse_reply}
use dimmit.Ddc.Netbsd.Frames.{takes, feature_reply, netbsd_messages}
use dimmit.Ddc.Windows.{Dxva, windows_get_display_info_list, windows_close_display}
use dimmit.Ddc.Windows.Growth.{RunsShort}
use dimmit.Ddc.Windows.Monitors.{HoldsMonitors, Lists, collected, windows_monitors}
use dimmit.Access.{Accounts, name_of, is_primary, is_authorized}
use dimmit.Access.Members.{fitting, Among, is_authorized-members}

-- A libddcutil with one display; the state is the number of open handles, and the allocator fails
-- while three are open.
abbrev one_monitor : Ddcutil ℕ
one_monitor = record {
  get_display_info_list2 =
      λ w. ((true, some (record { dref = 5; mfg_id = codes "DEL"; product_code = 7 } ∷ [])), w);
  free_display_info_list = λ dl w. (tt, w);
  open_display2 = λ dref w. (some (dref + 100), w + 1);
  close_display = λ dh w. (tt, w - 1);
  get_non_table_vcp_value =
      λ dh feature w. (some (record { mh = 0; ml = 100; sh = 0; sl = 40 }), w);
  set_non_table_vcp_value = λ dh feature hi lo w. (true, w);
  malloc = λ w. (ltb w 3, w);
}

never_none : (h w : ℕ) → some h ≡ none → w + 1 ≡ w
never_none h w e = cc

one_monitor-DdcutilTracks : DdcutilTracks one_monitor
one_monitor-DdcutilTracks = record {
  opened = λ w. w;
  list_keeps = λ w. refl;
  free_keeps = λ dl w. refl;
  open_some = λ dref dh w e. refl;
  open_none = λ dref w e. never_none (dref + 100) w e;
  close_one = λ dh w. refl;
  get_keeps = λ dh feature w. refl;
  set_keeps = λ dh feature hi lo w. refl;
  malloc_keeps = λ w. refl;
}

linux_platform-Tracks_example : Tracks (linux_platform one_monitor)
linux_platform-Tracks_example = linux_platform-Tracks one_monitor one_monitor-DdcutilTracks

abbrev pub one_bus : Bus ℕ
one_bus = record {
  open_device = λ i w. (some i, w + 1);
  close_device = λ fd w. (tt, w - 1);
  write_bytes = λ fd bytes w. (true, w);
  read_bytes = λ fd n w. (none, w);
  allocate = λ w. (ltb w 3, w);
}

one_bus-BusTracks : BusTracks one_bus
one_bus-BusTracks = record {
  opened = λ w. w;
  open_some = λ i fd w e. refl;
  open_none = λ i w e. never_none i w e;
  close_one = λ fd w. refl;
  write_keeps = λ fd bytes w. refl;
  read_keeps = λ fd n w. refl;
  allocate_keeps = λ w. refl;
}

netbsd_platform-Tracks_example : Tracks (netbsd_platform one_bus)
netbsd_platform-Tracks_example = netbsd_platform-Tracks one_bus one_bus-BusTracks

abbrev alice_groups : List ℕ → ℕ → List ℕ
alice_groups uname peer_gid = peer_gid ∷ 27 ∷ 44 ∷ []

abbrev small_host : Accounts
small_host = record {
  getgrnam = λ group. some 44;
  getpwuid = λ uid. some (record { pw_name = codes "alice"; pw_gid = 100 });
  getgrouplist = λ uname peer_gid. fitting (alice_groups uname peer_gid);
  malloc_ok = true;
  realloc_ok = true;
}

is_authorized-members_example :
    (is_authorized small_host (codes "i2c") (some (1000, 100)) ≡ true) ↔ (
      (is_primary (small_host.getpwuid 1000) 44 ≡ true)
      ⊎ Among 44 (alice_groups (name_of (small_host.getpwuid 1000)) 100))
is_authorized-members_example =
    is_authorized-members small_host alice_groups (codes "i2c") 1000 100 44
      (λ uname peer_gid n. refl) refl refl refl

-- A Windows host; the state is the number of allocations that still succeed.
abbrev pub one_host : Dxva ℕ
one_host = record {
  display_monitors = λ w. (1 ∷ [], w);
  number_of_physical = λ hmon w. (some 2, w);
  physical_monitors = λ hmon n w. (some (10 ∷ 20 ∷ []), w);
  vcp_reply = λ h feature w. (some (40, 100), w);
  set_vcp_feature = λ h feature value w. (true, w);
  destroy_physical = λ h w. (tt, w);
  allocate = λ w. (ltb 0 w, w - 1);
  malloc_handle = λ w. (true, w);
  free_handle = λ w. (tt, w);
}

-- The same of the Windows host, with the number of physical monitors that are held next to it.
abbrev tracked_host : Dxva (ℕ × ℕ)
tracked_host = record {
  display_monitors = λ w. (1 ∷ [], w);
  number_of_physical = λ hmon w. (some 2, w);
  physical_monitors = λ hmon n w. (some (10 ∷ 20 ∷ []), (w.0, w.1 + 2));
  vcp_reply = λ h feature w. (some (40, 100), w);
  set_vcp_feature = λ h feature value w. (true, w);
  destroy_physical = λ h w. (tt, (w.0, w.1 - 1));
  allocate = λ w. (ltb 0 w.0, (w.0 - 1, w.1));
  malloc_handle = λ w. (true, w);
  free_handle = λ w. (tt, w);
}

ten_and_twenty :
    (w : ℕ) (monitors : List ℕ)
    → (tracked_host.physical_monitors 1 2 (0, w)).0 ≡ some monitors
    → w + 2 ≡ w + length monitors
ten_and_twenty w monitors e = ap (λ hs. w + length hs) same
  where
    same : 10 ∷ 20 ∷ [] ≡ monitors
    same = cc

always_found : (w : ℕ) → (tracked_host.physical_monitors 1 2 (0, w)).0 ≡ none → w + 2 ≡ w
always_found w e = cc

abbrev tracked_host_holds : HoldsMonitors tracked_host
tracked_host_holds = record {
  held = λ w. w.1;
  obtained = λ hmon n w monitors e. ten_and_twenty w.1 monitors e;
  refused = λ hmon n w e. always_found w.1 e;
  destroyed = λ h w. refl;
  enumeration_keeps = λ w. refl;
  number_keeps = λ hmon w. refl;
  allocate_keeps = λ w. refl;
  free_keeps = λ w. refl;
}

-- Memory for the arrays of the callback and for the list, but not for its entries: the listing fails
-- with two monitors held.
windows_monitors_example :
    Lists (collected tracked_host (3, 0)) (windows_get_display_info_list tracked_host (3, 0)).0
    × (0 + length (collected tracked_host (3, 0))
        ≤ (windows_get_display_info_list tracked_host (3, 0)).1.1)
    × ((0 + length (collected tracked_host (3, 0))
          ≡ (windows_get_display_info_list tracked_host (3, 0)).1.1)
        ⊎ RunsShort tracked_host)
    × ((windows_close_display tracked_host 10 (0, 2)).1.1 ≡ 2 - 1)
windows_monitors_example = windows_monitors tracked_host tracked_host_holds (3, 0) (0, 2) 10

abbrev brightness_feature : ℕ
brightness_feature = 0x10

netbsd_messages_example :
    (takes (write_message 0x10 0 50) ≡ true)
    × ((takes (read_message 0x10) ≡ true) ↔ (brightness_feature ≡ 0xBC))
    × (parse_reply 0x10 (feature_reply 0x10 0 0 100 0 50 ++ 0xF2 ∷ []) ≡ none)
netbsd_messages_example = netbsd_messages 0x10 0 50 0 0 100 0 50 (0xF2 ∷ []) (omega arith)
