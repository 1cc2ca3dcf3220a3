-- ===== src/Examples/Ports.antt =====
-- Discovery of pods and their log lines.
use cocktail_maker.Prelude.{
  ◌≡◌, ◌⊎◌, refl, false, [], ◌∷◌, ◌++◌, none, some, String, String_eq, arith, ◌==◌, length, All,
  ◌≤◌,
}
use cocktail_maker.Prelude.Assoc.{find}
use cocktail_maker.Prelude.Expected.{Expected, value}
use cocktail_maker.Serial.Ansi.{Bytes}
use cocktail_maker.Serial.Lines.{new_assembler, feed}
use cocktail_maker.Serial.Lines.Laws.{feed-append, feed_bounds, has_newline}
use cocktail_maker.Serial.Ports.{UsbTtyInfo, protocol, log, pod_identity, find_devnode}
use cocktail_maker.Serial.Discovery.{
  PodPort, DiscoveryState, UdevDevice, claim_and_open, handle_port, forget_removed_port,
}
use cocktail_maker.Serial.Discovery.Laws.{find-claim_and_open, handle_port_keeps}
use cocktail_maker.Serial.Discovery.Replug.{handle_port_replugged}

-- `ESC [ 1 m h i`
abbrev bold_hi : Bytes
bold_hi = 0x1b ∷ b'[' ∷ b'1' ∷ b'm' ∷ b'h' ∷ b'i' ∷ []

-- `a LF b` and `c LF`
feed-append_example :
    feed (new_assembler 8) ((b'a' ∷ b'\n' ∷ b'b' ∷ []) ++ (b'c' ∷ b'\n' ∷ []))
    ≡ (new_assembler 8, (b'a' ∷ []) ∷ (b'b' ∷ b'c' ∷ []) ∷ [])
unfolding feed new_assembler
feed-append_example =
    feed-append (new_assembler 8) (b'a' ∷ b'\n' ∷ b'b' ∷ []) (b'c' ∷ b'\n' ∷ []) (omega arith)

feed_bounds_example :
    All (λ l. has_newline l ≡ false) (feed (new_assembler 1) bold_hi).1
    × (length (feed (new_assembler 1) bold_hi).0.pending ≤ 1)
    × (has_newline (feed (new_assembler 1) bold_hi).0.pending ≡ false)
unfolding new_assembler
feed_bounds_example = feed_bounds (new_assembler 1) bold_hi

abbrev opens : String → Expected String String
opens devnode = value devnode

abbrev tty : String → UsbTtyInfo
tty devnode = record {
  devnode = devnode;
  vendor_id = "2fe3";
  product_id = "0001";
  device_serial = some "A1";
  interface_name = none;
  interface_number = some "02";
}

abbrev nothing_open : DiscoveryState String
nothing_open = record { pods = []; logs = []; spawned = [] }

abbrev a1_open : DiscoveryState String
a1_open = record { pods = ("A1", "/dev/ttyACM0") ∷ []; logs = []; spawned = [] }

find-claim_and_open_example :
    ((claim_and_open opens [] (tty "/dev/ttyACM0")).1 ≡ some "/dev/ttyACM0")
    × (find "A1" (claim_and_open opens [] (tty "/dev/ttyACM0")).0 ≡ some "/dev/ttyACM0")
unfolding find pod_identity
find-claim_and_open_example = find-claim_and_open opens [] (tty "/dev/ttyACM0") "A1"

handle_port_keeps_example :
    (find "A1" (handle_port opens a1_open (record { role = log; info = tty "/dev/ttyACM1" })).0.pods
      ≡ some "/dev/ttyACM0")
    × (((pod_identity (tty "/dev/ttyACM1") == "A1") ≡ false)
        ⊎ ((handle_port opens a1_open (record { role = log; info = tty "/dev/ttyACM1" })).1 ≡ none))
unfolding find
handle_port_keeps_example =
    handle_port_keeps opens a1_open (record { role = log; info = tty "/dev/ttyACM1" }) "A1"
      "/dev/ttyACM0" refl

abbrev unplug : UdevDevice
unplug = record { action = some "remove"; dev_node = some "/dev/ttyACM0"; usb_tty = none }

handle_port_replugged_example :
    let pod_port : PodPort = record { role = protocol; info = tty "/dev/ttyACM0" } in
    let plugged = handle_port opens nothing_open pod_port in
    let unplugged = forget_removed_port plugged.0 unplug in
    (plugged.1 ≡ some "/dev/ttyACM0")
    × (find (pod_identity (tty "/dev/ttyACM0")) unplugged.pods ≡ none)
    × ((handle_port opens unplugged pod_port).1 ≡ some "/dev/ttyACM0")
unfolding find find_devnode pod_identity
handle_port_replugged_example =
    handle_port_replugged opens nothing_open (tty "/dev/ttyACM0") unplug "/dev/ttyACM0" refl refl
      refl refl
