-- ===== src/Serial/Ports.antt =====
-- The attributes of a tty and `PortTable` of `cocktail-maker/serial.cppm`. A claim is its table's
-- reservation: dropping it releases the identity, committing it leaves the table as it is.
pub mod Laws
use cocktail_maker.Prelude.{
  Bool, true, false, ◌&&◌, List, [], ◌∷◌, Option, none, some, String, ◌==◌, String_eq,
  if◌then◌else◌,
}
use cocktail_maker.Prelude.Assoc.{find, emplace, erase}

pub data PortRole : Type 0 where
  protocol : PortRole
  log : PortRole

pub record UsbTtyInfo : Type 0 where
  pub devnode : String
  pub vendor_id : String
  pub product_id : String
  pub device_serial : Option String
  pub interface_name : Option String
  pub interface_number : Option String

abbrev pub k_target_vid : String
k_target_vid = "2fe3"

abbrev pub k_target_pid : String
k_target_pid = "0001"

unfoldable pub is_pod_device : UsbTtyInfo → Bool
is_pod_device info = info.vendor_id == k_target_vid && info.product_id == k_target_pid

-- The two tests against a name or a number.
abbrev pub role_by : String → String → String → Option PortRole
role_by protocol_text log_text s =
    if s == protocol_text then some protocol else if s == log_text then some log else none

unfoldable pub port_role : UsbTtyInfo → Option PortRole
port_role info = elim info.interface_name [
  | some name ↦ role_by "Cocktailmaker Pod Protocol" "Cocktailmaker Pod Log" name
  | none ↦ elim info.interface_number [ some number ↦ role_by "02" "00" number | none ↦ none ]
]

unfoldable pub pod_identity : UsbTtyInfo → String
pod_identity info = elim info.device_serial [ some serial ↦ serial | none ↦ info.devnode ]

-- The devnode for each identity.
abbrev pub PortTable : Type 0
PortTable = List (String × String)

-- The table with the reservation, or nothing if the identity has an entry.
unfoldable pub claim : PortTable → String → String → Option PortTable
claim table id devnode = elim (find id table) [
  | some entry ↦ none
  | none ↦ some (emplace id devnode table)
]

-- `~Claim()` of a claim that is not committed.
unfoldable pub drop_claim : PortTable → String → PortTable
drop_claim table id = erase id table

-- The first entry with the devnode.
unfoldable pub find_devnode : PortTable → String → Option String
find_devnode [] devnode = none
find_devnode ((id, d) ∷ table) devnode =
    if d == devnode then some id else find_devnode table devnode

unfoldable pub release_by_devnode : PortTable → String → PortTable × Option String
unfolding find_devnode
release_by_devnode table devnode = elim (find_devnode table devnode) [
  | some id ↦ (erase id table, some id)
  | none ↦ (table, none)
]

unfoldable pub devnode_of : PortTable → String → Option String
devnode_of table id = find id table
