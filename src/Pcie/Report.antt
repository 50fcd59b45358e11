-- ===== src/Pcie/Report.antt =====
-- What fpgactl/src/pcie.cpp prints of an endpoint: `formatSize`, `jsonEscape`, `printEndpoint`, `printEndpointJson`.
use mrs_fpga_toolkit.Base.{
  ℕ, ◌+◌, ◌-◌, ◌*◌, ◌/◌, ◌%◌, true, false, ltb, ◌==◌, ◌&&◌, ◌||◌, if◌then◌else◌, List, [], ◌∷◌,
  ◌++◌, length, replicate, Text, codes, to_string, to_hex, hex_digit, Option, none, some,
}
use mrs_fpga_toolkit.Machine.{M, ⊤, Exception, pure, ◌>>=◌, ◌>>◌}
use mrs_fpga_toolkit.PcieConfig.{PcieControl}
use mrs_fpga_toolkit.Common.{Host, say}
use mrs_fpga_toolkit.Pcie.Inspect.{Resource, Endpoint, xdma_nodes}

-- `setprecision(1)` rounds the exact value, halves to the even digit: `value / unit` with one decimal,
-- or with none where it is whole.
unfoldable pub in_unit : ℕ → ℕ → Text
in_unit value unit =
    let tenths = 10 * value / unit in
    let twice = 2 * (10 * value % unit) in
    let rounded =
      if ltb unit twice || twice == unit && tenths % 2 == 1 then tenths + 1 else tenths in
    if value % unit == 0
    then to_string (value / unit)
    else to_string (rounded / 10) ++ codes "." ++ to_string (rounded % 10)

-- For sizes that a double holds exactly.
unfoldable pub format_size : ℕ → Text
format_size value =
    if ltb value 1024
    then in_unit value 1 ++ codes " B"
    else if ltb value 1048576
    then in_unit value 1024 ++ codes " KiB"
    else if ltb value 1073741824
    then in_unit value 1048576 ++ codes " MiB"
    else in_unit value 1073741824 ++ codes " GiB"

abbrev pub json_character : ℕ → Text
json_character c =
    if c == 34
    then codes "\\\""
    else if c == 92
    then codes "\\\\"
    else if c == 10
    then codes "\\n"
    else if c == 13
    then codes "\\r"
    else if c == 9
    then codes "\\t"
    else if ltb c 0x20
    then codes "\\u00" ++ hex_digit (c / 16) ∷ hex_digit (c % 16) ∷ []
    else c ∷ []

unfoldable pub json_escape : Text → Text
json_escape [] = []
json_escape (c ∷ rest) = json_character c ++ json_escape rest

-- `setw(4) << setfill('0') << hex`
abbrev pub hex4 : ℕ → Text
hex4 n = replicate (4 - length (to_hex n)) 48 ++ to_hex n

abbrev pub value_or : Option Text → Text → Text
value_or none other = other
value_or (some text) other = text

abbrev pub size_or_null : Option ℕ → Text
size_or_null none = codes "null"
size_or_null (some n) = to_string n

abbrev pub driver_json : Option Text → Text
driver_json none = codes "null"
driver_json (some driver) = codes "\"" ++ json_escape driver ++ codes "\""

unfoldable pub comma_list : List ℕ → Text
comma_list [] = []
comma_list (n ∷ []) = to_string n
comma_list (n ∷ k ∷ rest) = to_string n ++ codes ", " ++ comma_list (k ∷ rest)

-- `message` is `what()` of the exception.
unfoldable pub control_line : (Exception → Text) → Option PcieControl → Option Exception → Text
control_line message (some control) failure =
    codes "  PCIe control: MPS="
    ++ to_string control.mps_bytes
    ++ codes " B MRRS="
    ++ to_string control.mrrs_bytes
    ++ codes " B DevCtl=0x"
    ++ hex4 control.device_control
    ++ codes "\n"
control_line message none none = codes "  PCIe control: unavailable ()\n"
control_line message none (some failure) =
    codes "  PCIe control: unavailable (" ++ message failure ++ codes ")\n"

unfoldable pub resource_report : List Resource → Text
resource_report [] = []
resource_report (r ∷ rest) =
    codes "  BAR"
    ++ to_string r.bar
    ++ codes ": 0x"
    ++ to_hex r.start
    ++ codes "-0x"
    ++ to_hex r.end
    ++ codes " ("
    ++ format_size r.size
    ++ codes ") flags=0x"
    ++ to_hex r.flags
    ++ codes "\n"
    ++ resource_report rest

unfoldable pub spaced : List Text → Text
spaced [] = []
spaced (t ∷ rest) = codes " " ++ t ++ spaced rest

unfoldable pub json_fields : Text → Endpoint → Text
json_fields pad e =
    let child = pad ++ codes "  " in
    pad
    ++ codes "{\n"
    ++ child
    ++ codes "\"bdf\": \""
    ++ json_escape e.bdf
    ++ codes "\",\n"
    ++ child
    ++ codes "\"vendor\": \""
    ++ json_escape e.vendor
    ++ codes "\",\n"
    ++ child
    ++ codes "\"device\": \""
    ++ json_escape e.device
    ++ codes "\",\n"
    ++ child
    ++ codes "\"class\": \""
    ++ json_escape e.device_class
    ++ codes "\",\n"
    ++ child
    ++ codes "\"driver\": "
    ++ driver_json e.driver
    ++ codes ",\n"
    ++ child
    ++ codes "\"link_speed\": \""
    ++ json_escape e.current_link_speed
    ++ codes "\",\n"
    ++ child
    ++ codes "\"link_width\": \""
    ++ json_escape e.current_link_width
    ++ codes "\",\n"
    ++ child
    ++ codes "\"xdma_indices\": ["
    ++ comma_list e.xdma_indices
    ++ codes "],\n"
    ++ child
    ++ codes "\"mps_bytes\": "
    ++ size_or_null (elim e.pcie [ none ↦ none | some c ↦ some c.mps_bytes ])
    ++ codes ",\n"
    ++ child
    ++ codes "\"mrrs_bytes\": "
    ++ size_or_null (elim e.pcie [ none ↦ none | some c ↦ some c.mrrs_bytes ])
    ++ codes "\n"
    ++ pad
    ++ codes "}"

module _ {S : Type 0} (host : Host S) where
  unfoldable pub print_indices : List ℕ → M S ⊤
  print_indices [] = pure tt
  print_indices (index ∷ rest) = do
    nodes ← xdma_nodes host index
    say host (codes "  XDMA index " ++ to_string index ++ codes ":")
    say host
        (elim nodes [ [] ↦ codes " no nodes\n" | node ∷ more ↦ spaced (node ∷ more) ++ codes "\n" ])
    print_indices rest

  unfoldable pub print_endpoint : (Exception → Text) → Endpoint → M S ⊤
  print_endpoint message e = do
    say host (
        e.bdf
        ++ codes " vendor="
        ++ e.vendor
        ++ codes " device="
        ++ e.device
        ++ codes " class="
        ++ e.device_class
        ++ codes " revision="
        ++ e.revision
        ++ codes "\n")
    say host (
        codes "  subsystem: "
        ++ e.subsystem_vendor
        ++ codes ":"
        ++ e.subsystem_device
        ++ codes "  driver: "
        ++ value_or e.driver (codes "unbound")
        ++ codes "  module: "
        ++ value_or e.driver_module (codes "none")
        ++ codes "\n")
    say host (
        codes "  link: "
        ++ e.current_link_speed
        ++ codes " x"
        ++ e.current_link_width
        ++ codes " (max "
        ++ e.max_link_speed
        ++ codes " x"
        ++ e.max_link_width
        ++ codes ")\n")
    say host (
        codes "  NUMA: "
        ++ e.numa_node
        ++ codes "  IOMMU group: "
        ++ value_or e.iommu_group (codes "none")
        ++ codes "\n")
    say host (control_line message e.pcie e.pcie_error)
    say host (resource_report e.resources)
    say host (
        if elim e.xdma_indices [ [] ↦ true | n ∷ rest ↦ false ]
        then codes "  XDMA: no class devices mapped\n"
        else [])
    print_indices e.xdma_indices

  unfoldable pub print_endpoint_json : Endpoint → ℕ → M S ⊤
  print_endpoint_json e indent = say host (json_fields (replicate indent 32) e)
