-- ===== src/Serial/Discovery.antt =====
-- The discovery of pods in `cocktail-maker/serial.cpp`. Opening a port is a parameter (asio); a uevent
-- is what udev reports of it. A pod handed to `on_pod_discovered` is told by its devnode.
pub mod Laws
pub mod Replug
use cocktail_maker.Prelude.{
  Bool, true, false, List, [], ◌∷◌, ◌++◌, Option, none, some, String, ◌==◌, String_eq,
  if◌then◌else◌, and_then,
}
use cocktail_maker.Prelude.Expected.{Expected, value, unexpected}
use cocktail_maker.Serial.Ports.{
  PortRole, protocol, log, UsbTtyInfo, is_pod_device, port_role, pod_identity, PortTable, claim,
  drop_claim, release_by_devnode,
}

pub record PodPort : Type 0 where
  pub role : PortRole
  pub info : UsbTtyInfo

-- `spawned` holds the ports whose log streams were spawned into the scope.
pub record DiscoveryState (Port : Type 0) : Type 0 where
  pub pods : PortTable
  pub logs : PortTable
  pub spawned : List Port

pub data UdevAction : Type 0 where
  add : UdevAction
  remove : UdevAction
  other : UdevAction

-- What udev knows of a device: its action, its devnode, and its description where it is a USB tty.
pub record UdevDevice : Type 0 where
  pub action : Option String
  pub dev_node : Option String
  pub usb_tty : Option UsbTtyInfo

unfoldable pub event_action : UdevDevice → UdevAction
event_action dev = elim dev.action [
  | none ↦ other
  | some name ↦ if name == "add" then add else if name == "remove" then remove else other
]

unfoldable pub match_pod_port : UdevDevice → Option PodPort
match_pod_port dev = and_then dev.usb_tty (λ info.
    if is_pod_device info
    then elim (port_role info) [
      | some role ↦ some (record { role = role; info = info })
      | none ↦ none
    ]
    else none)

unfoldable pub forget_removed_port :
    {Port : Type 0} → DiscoveryState Port → UdevDevice → DiscoveryState Port
forget_removed_port state dev = elim dev.dev_node [
  | none ↦ state
  | some devnode ↦ record state {
    pods = (release_by_devnode state.pods devnode).0;
    logs = (release_by_devnode state.logs devnode).0;
  }
]

-- `open_and_configure` fails with an error or gives a port.
module _ {E Port : Type 0} (open_and_configure : String → Expected E Port) where
  -- A claim, kept when the port opens and dropped when it does not.
  unfoldable pub claim_and_open : PortTable → UsbTtyInfo → PortTable × Option Port
  claim_and_open table info = elim (claim table (pod_identity info) info.devnode) [
    | none ↦ (table, none)
    | some claimed ↦ elim (open_and_configure info.devnode) [
      | unexpected e ↦ (drop_claim claimed (pod_identity info), none)
      | value port ↦ (claimed, some port)
    ]
  ]

  unfoldable pub open_pod : DiscoveryState Port → UsbTtyInfo → DiscoveryState Port × Option Port
  open_pod state info =
      let (table, port) = claim_and_open state.pods info in (record state { pods = table }, port)

  unfoldable pub start_log_stream : DiscoveryState Port → UsbTtyInfo → DiscoveryState Port
  start_log_stream state info =
      let (table, port) = claim_and_open state.logs info in
      elim port [
        | none ↦ record state { logs = table }
        | some p ↦ record state { logs = table; spawned = state.spawned ++ (p ∷ []) }
      ]

  -- The pod session, for a protocol port that was opened just now.
  unfoldable pub handle_port : DiscoveryState Port → PodPort → DiscoveryState Port × Option Port
  unfolding start_log_stream open_pod
  handle_port state port = elim port.role [
    | log ↦ (start_log_stream state port.info, none)
    | protocol ↦ open_pod state port.info
  ]

  -- The loop over the ports found by the scan: the pods handed to `on_pod_discovered`, in order.
  unfoldable pub handle_scanned :
      DiscoveryState Port → List PodPort → DiscoveryState Port × List Port
  handle_scanned state [] = (state, [])
  handle_scanned state (port ∷ ports) =
      let (next, pod) = handle_port state port in
      let (last, pods) = handle_scanned next ports in
      (last, elim pod [ some p ↦ p ∷ pods | none ↦ pods ])

  -- One round of the event loop.
  unfoldable pub handle_event : DiscoveryState Port → UdevDevice → DiscoveryState Port × Option Port
  handle_event state dev = elim (event_action dev) [
    | remove ↦ (forget_removed_port state dev, none)
    | add ↦ elim (match_pod_port dev) [ some port ↦ handle_port state port | none ↦ (state, none) ]
    | other ↦ (state, none)
  ]

  unfoldable pub handle_events :
      DiscoveryState Port → List UdevDevice → DiscoveryState Port × List Port
  handle_events state [] = (state, [])
  handle_events state (dev ∷ devs) =
      let (next, pod) = handle_event state dev in
      let (last, pods) = handle_events next devs in
      (last, elim pod [ some p ↦ p ∷ pods | none ↦ pods ])

  -- `discover`: the ports of the scan, then the events that arrive.
  unfoldable pub discover : List PodPort → List UdevDevice → DiscoveryState Port × List Port
  discover scanned devs =
      let (after_scan, first) =
        handle_scanned (record { pods = []; logs = []; spawned = [] }) scanned in
      let (last, later) = handle_events after_scan devs in (last, first ++ later)
