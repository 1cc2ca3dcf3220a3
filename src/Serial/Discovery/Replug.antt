-- ===== src/Serial/Discovery/Replug.antt =====
-- Sequences of ports and events: a second port of a pod is ignored, an unplugged pod opens again.
use cocktail_maker.Prelude.{
  ◌≡◌, refl, ap, ◌∙◌, List, [], ◌∷◌, ◌++◌, none, some, String, String_eq, arith,
}
use cocktail_maker.Prelude.Assoc.{find, emplace}
use cocktail_maker.Prelude.Expected.{Expected, value}
use cocktail_maker.Serial.Ports.{
  protocol, UsbTtyInfo, find_devnode, release_by_devnode, pod_identity,
}
use cocktail_maker.Serial.Ports.Laws.{claim_lem, claim_free, release_by_devnode-claim}
use cocktail_maker.Serial.Discovery.{
  PodPort, DiscoveryState, UdevDevice, claim_and_open, open_pod, handle_port, forget_removed_port,
  handle_scanned,
}
use cocktail_maker.Serial.Discovery.Laws.{handle_port_keeps}

module _ {E Port : Type 0} (open_and_configure : String → Expected E Port) where
  handle_port_taken :
      (state : DiscoveryState Port) (info : UsbTtyInfo) (d : String)
      → find (pod_identity info) state.pods ≡ some d
      → handle_port open_and_configure state (record { role = protocol; info = info })
        ≡ (state, none)
  unfolding handle_port open_pod claim_and_open
  handle_port_taken state info d h =
      ground (arith, claim_lem state.pods (pod_identity info) info.devnode)

  handle_port_opens :
      (state : DiscoveryState Port) (info : UsbTtyInfo) (port : Port)
      → find (pod_identity info) state.pods ≡ none
      → open_and_configure info.devnode ≡ value port
      → handle_port open_and_configure state (record { role = protocol; info = info })
        ≡ (record state { pods = emplace (pod_identity info) info.devnode state.pods }, some port)
  unfolding handle_port open_pod claim_and_open
  handle_port_opens state info port free opens =
      ground (arith, claim_lem state.pods (pod_identity info) info.devnode)

  forget_removed_port_lem :
      (state : DiscoveryState Port) (dev : UdevDevice) (d : String)
      → dev.dev_node ≡ some d
      → (forget_removed_port state dev).pods ≡ (release_by_devnode state.pods d).0
  unfolding forget_removed_port
  forget_removed_port_lem state dev d h = ground arith

  -- A further protocol port of a pod that is open already changes neither the state nor the pods
  -- that a scan hands out.
  pub handle_scanned_again :
      (state : DiscoveryState Port) (ports : List PodPort) (info : UsbTtyInfo) (d : String)
      → find (pod_identity info) state.pods ≡ some d
      → handle_scanned open_and_configure state
          (ports ++ (record { role = protocol; info = info } ∷ []))
        ≡ handle_scanned open_and_configure state ports
  unfolding handle_scanned
  handle_scanned_again state [] info d h =
      ap (λ r. (r.0, elim r.1 [ some p ↦ p ∷ [] | none ↦ [] ])) (handle_port_taken state info d h)
  handle_scanned_again state (port ∷ ports) info d h =
      let next = handle_port open_and_configure state port in
      ap (λ r. (r.0, elim next.1 [ some p ↦ p ∷ r.1 | none ↦ r.1 ]))
        (handle_scanned_again next.0 ports info d
          ((handle_port_keeps open_and_configure state port (pod_identity info) d h).0))

  -- A pod whose identity and devnode are free and whose port opens is opened; after the devnode is
  -- removed its identity is free, and it is opened again when it shows up again.
  pub handle_port_replugged :
      (state : DiscoveryState Port) (info : UsbTtyInfo) (dev : UdevDevice) (port : Port)
      → find (pod_identity info) state.pods ≡ none
      → find_devnode state.pods info.devnode ≡ none
      → open_and_configure info.devnode ≡ value port
      → dev.dev_node ≡ some info.devnode
      → let pod_port : PodPort = record { role = protocol; info = info } in
        let plugged = handle_port open_and_configure state pod_port in
        let unplugged = forget_removed_port plugged.0 dev in
        (plugged.1 ≡ some port)
        × (find (pod_identity info) unplugged.pods ≡ none)
        × ((handle_port open_and_configure unplugged pod_port).1 ≡ some port)
  handle_port_replugged state info dev port free unused opens removed =
      let id = pod_identity info in
      let reserved = emplace id info.devnode state.pods in
      let opened = handle_port_opens state info port free opens in
      let plugged : DiscoveryState Port = record state { pods = reserved } in
      let released : find id (forget_removed_port plugged dev).pods ≡ none =
        ap (find id) (forget_removed_port_lem plugged dev info.devnode removed)
        ∙ (release_by_devnode-claim state.pods reserved id info.devnode id unused
            (claim_free state.pods id info.devnode free)).1
        ∙ free in
      rw opened (
        refl,
        released,
        ap (λ r. r.1)
            (handle_port_opens (forget_removed_port plugged dev) info port released opens),
      )
