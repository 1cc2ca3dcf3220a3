-- ===== src/Serial/Discovery/Laws.antt =====
-- One session for each physical pod, and a pod that comes back is opened again.
use cocktail_maker.Prelude.{
  ◌≡◌, false, List, [], ◌∷◌, Option, none, some, String, ◌==◌, String_eq, if◌then◌else◌, arith, ◌⊎◌,
}
use cocktail_maker.Prelude.Assoc.{find, emplace, find-emplace}
use cocktail_maker.Prelude.Expected.{Expected, value, unexpected}
use cocktail_maker.Serial.Ports.{PortTable, protocol, log, UsbTtyInfo, pod_identity}
use cocktail_maker.Serial.Ports.Laws.{find-claim, claim_lem, claim_taken}
use cocktail_maker.Serial.Discovery.{
  PodPort, DiscoveryState, claim_and_open, open_pod, start_log_stream, handle_port, handle_scanned,
}

module _ {E Port : Type 0} (open_and_configure : String → Expected E Port) where
  claim_and_open_taken :
      (table : PortTable) (info : UsbTtyInfo) (d : String)
      → find (pod_identity info) table ≡ some d
      → claim_and_open open_and_configure table info ≡ (table, none)
  unfolding claim_and_open
  claim_and_open_taken table info d h =
      ground (arith, claim_taken table (pod_identity info) info.devnode d h)

  -- What is left in the table, and whether a port is handed out, in all cases.
  abbrev opened : PortTable → UsbTtyInfo → Option Port
  opened table info = elim (find (pod_identity info) table) [
    | some d ↦ none
    | none ↦ elim (open_and_configure info.devnode) [ value port ↦ some port | unexpected e ↦ none ]
  ]

  abbrev entry : PortTable → UsbTtyInfo → String → Option Port → Option String
  entry table info j (some port) =
      if pod_identity info == j then some info.devnode else find j table
  entry table info j none = find j table

  -- A port is opened exactly when its pod has no entry and the port opens; then the table gets the
  -- entry, and in every other case no entry changes, so that the port can be tried again.
  pub find-claim_and_open :
      (table : PortTable) (info : UsbTtyInfo) (j : String)
      → ((claim_and_open open_and_configure table info).1 ≡ opened table info)
        × (find j (claim_and_open open_and_configure table info).0
            ≡ entry table info j (opened table info))
  unfolding claim_and_open
  find-claim_and_open table info j =
      let id = pod_identity info in
      ground (
        arith,
        claim_lem table id info.devnode,
        find-claim table (emplace id info.devnode table) id info.devnode j,
        find-emplace id j info.devnode table,
      )

  pub handle_port_lem :
      (state : DiscoveryState Port) (port : PodPort)
      → ((handle_port open_and_configure state port).0.pods ≡ elim port.role [
        | log ↦ state.pods
        | protocol ↦ (claim_and_open open_and_configure state.pods port.info).0
      ])
        × ((handle_port open_and_configure state port).1 ≡ elim port.role [
          | log ↦ none
          | protocol ↦ (claim_and_open open_and_configure state.pods port.info).1
        ])
  unfolding handle_port open_pod start_log_stream
  handle_port_lem state port = ground arith

  -- Handling any port keeps the entry of every pod that is open, and opens no pod that has an
  -- entry.
  pub handle_port_keeps :
      (state : DiscoveryState Port) (port : PodPort) (j d : String)
      → find j state.pods ≡ some d
      → (find j (handle_port open_and_configure state port).0.pods ≡ some d)
        × (((pod_identity port.info == j) ≡ false)
            ⊎ ((handle_port open_and_configure state port).1 ≡ none))
  handle_port_keeps state port j d h = ground (
    arith,
    find-claim_and_open state.pods port.info j,
    handle_port_lem state port,
    String_eq.equal_iff (pod_identity port.info) j,
  )

  handle_scanned_keeps :
      (state : DiscoveryState Port) (ports : List PodPort) (j d : String)
      → find j state.pods ≡ some d
      → find j (handle_scanned open_and_configure state ports).0.pods ≡ some d
  unfolding handle_scanned
  handle_scanned_keeps state [] j d h = h
  handle_scanned_keeps state (port ∷ ports) j d h =
      handle_scanned_keeps (handle_port open_and_configure state port).0 ports j d
        ((handle_port_keeps state port j d h).0)
