-- ===== src/Pcie/Inspect.antt =====
-- What fpgactl/src/pcie.cpp reads of an endpoint: `readHex`, `readConfig`, `parseResources`, the nodes and indices of
-- XDMA, and `endpointDetails`.
use mrs_fpga_toolkit.Base.{
  ℕ, zero, suc, ◌+◌, ◌-◌, ◌^◌, ◌%◌, Bool, false, not, ltb, leb, ◌==◌, ◌!=◌, ◌&&◌, ◌||◌,
  if◌then◌else◌, List, [], ◌∷◌, ◌++◌, take, Text, codes, Option, none, some,
}
use mrs_fpga_toolkit.Machine.{
  M, Outcome, ok, throws, hangs, Exception, error, pure, lift, throw, throw_if, given, ◌>>=◌, ◌>>◌,
}
use mrs_fpga_toolkit.Xdma.{call}
use mrs_fpga_toolkit.CommandText.{is_empty}
use mrs_fpga_toolkit.PcieConfig.{PcieControl, decode_pcie_control}
use mrs_fpga_toolkit.Common.{Host}
use mrs_fpga_toolkit.Common.Numbers.{parse_unsigned, scan, skip_blanks}
use mrs_fpga_toolkit.Common.Files.{read_text, resolved_name}
use mrs_fpga_toolkit.Pcie.{
  sysfs_pci, sysfs_xdma, same_text, sort_texts, normalize_bdf, node_prefix, starts_with,
}

pub record Resource : Type 0 where
  pub bar : ℕ
  pub start : ℕ
  pub end : ℕ
  pub size : ℕ
  pub flags : ℕ

pub record Endpoint : Type 0 where
  pub bdf : Text
  pub vendor : Text
  pub device : Text
  pub subsystem_vendor : Text
  pub subsystem_device : Text
  pub device_class : Text
  pub revision : Text
  pub driver : Option Text
  pub driver_module : Option Text
  pub iommu_group : Option Text
  pub numa_node : Text
  pub current_link_speed : Text
  pub current_link_width : Text
  pub max_link_speed : Text
  pub max_link_width : Text
  pub resources : List Resource
  pub xdma_indices : List ℕ
  pub pcie : Option PcieControl
  pub pcie_error : Option Exception

-- One field read by `>> std::hex`: a number, with or without `0x`, behind blanks, and the text behind it. A number
-- of more than 64 bits fails.
unfoldable pub hex_field : Text → Option (ℕ × Text)
hex_field text = on (skip_blanks 0 text).1
  where
    drop_text : ℕ → Text → Text
    drop_text zero rest = rest
    drop_text (suc n) [] = []
    drop_text (suc n) (c ∷ rest) = drop_text n rest

    read : ℕ × ℕ → Text → Option (ℕ × Text)
    read (value, count) digits =
        if count == 0 || leb (2 ^ 64) value then none else some (value, drop_text count digits)

    on : Text → Option (ℕ × Text)
    on (a ∷ b ∷ rest) =
        if a == 48 && (b == 120 || b == 88)
        then read (scan 16 0 0 rest) rest
        else read (scan 16 0 0 (a ∷ b ∷ rest)) (a ∷ b ∷ rest)
    on rest = read (scan 16 0 0 rest) rest

abbrev pub three_fields : Text → Option (ℕ × ℕ × ℕ)
three_fields line = elim (hex_field line) [
  | none ↦ none
  | some (start, rest) ↦ elim (hex_field rest) [
    | none ↦ none
    | some (end, last) ↦ elim (hex_field last) [
      | none ↦ none
      | some (flags, tail) ↦ some (start, end, flags)
    ]
  ]
]

abbrev pub nonempty : ℕ → Option (ℕ × ℕ × ℕ) → List Resource
nonempty index none = []
nonempty index (some (start, end, flags)) =
    if start != 0 && leb start end
    then record {
      bar = index;
      start = start;
      end = end;
      size = (end - start + 1) % 2 ^ 64;
      flags = flags;
    }
      ∷ []
    else []

-- `while (std::getline(input, line))`, with the line that is being read.
unfoldable pub resource_lines : ℕ → Text → Text → List Resource
resource_lines index line [] = if is_empty line then [] else nonempty index (three_fields line)
resource_lines index line (c ∷ rest) =
    let next = resource_lines (suc index) [] rest in
    let within = resource_lines index (line ++ c ∷ []) rest in
    if c == 10 then nonempty index (three_fields line) ++ next else within

abbrev pub keep_value : Outcome ℕ → Option ℕ
keep_value (ok n) = some n
keep_value (throws e) = none
keep_value hangs = none

-- The digits of `^xdma([0-9]+)_` in a name, if it matches.
unfoldable pub class_index : Text → Option ℕ
class_index (x ∷ d ∷ m ∷ a ∷ rest) =
    if same_text (x ∷ d ∷ m ∷ a ∷ []) (codes "xdma") then ended (scan 10 0 0 rest) rest else none
  where
    ended : ℕ × ℕ → Text → Option ℕ
    ended (value, zero) rest = none
    ended (value, suc zero) (c ∷ rest) = first rest
      where
        first : Text → Option ℕ
        first [] = none
        first (u ∷ tail) = if u == 95 then some value else none
    ended (value, suc (suc n)) (c ∷ rest) = ended (value, suc n) rest
    ended (value, count) [] = none
class_index _ = none

-- `std::set<int>`
unfoldable pub insert_index : ℕ → List ℕ → List ℕ
insert_index n [] = n ∷ []
insert_index n (k ∷ rest) =
    let further = insert_index n rest in
    if n == k then k ∷ rest else if ltb n k then n ∷ k ∷ rest else k ∷ further

module _ {S : Type 0} (host : Host S) where
  unfoldable pub endpoint_path : Text → M S Text
  endpoint_path bdf = do
    normalized ← lift (normalize_bdf bdf)
    pure (sysfs_pci ++ codes "/devices/" ++ normalized)

  unfoldable pub read_hex : Text → M S (Option ℕ)
  read_hex path = do
    value ← read_text host path []
    pure (
        if is_empty value
        then none
        else keep_value (parse_unsigned value (codes "sysfs hexadecimal value") (2 ^ 64 - 1)))

  unfoldable pub read_config : Text → M S (List ℕ)
  read_config path = do
    content ← call (host.read_all path)
    given content (throw (error (codes "cannot open PCI configuration space: " ++ path)))
        (λ bytes. pure (take 4096 bytes))

  unfoldable pub parse_resources : Text → M S (List Resource)
  parse_resources endpoint = do
    text ← read_text host (endpoint ++ codes "/resource") []
    pure (resource_lines 0 [] text)

  unfoldable pub with_prefix : Text → List Text → List Text
  with_prefix prefix [] = []
  with_prefix prefix (name ∷ rest) =
      let further = with_prefix prefix rest in
      if starts_with prefix name then (codes "/dev/" ++ name) ∷ further else further

  unfoldable pub xdma_nodes : ℕ → M S (List Text)
  xdma_nodes index = do
    names ← call (host.entries (codes "/dev"))
    pure (sort_texts (with_prefix (node_prefix index) names))

  abbrev pub is_target : Option Text → Text → M S Bool
  is_target none bdf = pure false
  is_target (some target) bdf = do
    normalized ← lift (normalize_bdf bdf)
    pure (same_text target normalized)

  -- The loop of `xdmaIndicesForBdf`. An index is taken to fit an `int`.
  unfoldable pub indices_loop : Text → List ℕ → List Text → M S (List ℕ)
  indices_loop bdf indices [] = pure indices
  indices_loop bdf indices (name ∷ rest) =
      given (class_index name) (indices_loop bdf indices rest) (λ index. do
        target ← resolved_name host (sysfs_xdma ++ codes "/" ++ name ++ codes "/device")
        hit ← is_target target bdf
        indices_loop bdf (if hit then insert_index index indices else indices) rest)

  unfoldable pub xdma_indices_for_bdf : Text → M S (List ℕ)
  xdma_indices_for_bdf bdf = do names ← call (host.entries sysfs_xdma); indices_loop bdf [] names

  -- `try { result.pcie = ... } catch (const Error& error) { result.pcie_error = ... }`
  abbrev tried : Outcome PcieControl → Outcome (Option PcieControl × Option Exception)
  tried (ok control) = ok (some control, none)
  tried (throws e) = ok (none, some e)
  tried hangs = hangs

  unfoldable pub try_control : Text → M S (Option PcieControl × Option Exception)
  try_control path s = let (r, s') = (read_config path >>= decode_pcie_control) s in (tried r, s')

  unfoldable pub endpoint_details : Text → M S Endpoint
  endpoint_details input_bdf = do
    bdf ← lift (normalize_bdf input_bdf)
    path ← endpoint_path bdf
    present ← call (host.is_directory path)
    throw_if (not present) (error (codes "PCIe endpoint does not exist: " ++ bdf))
    vendor ← read_text host (path ++ codes "/vendor") (codes "unknown")
    device ← read_text host (path ++ codes "/device") (codes "unknown")
    subsystem_vendor ← read_text host (path ++ codes "/subsystem_vendor") (codes "unknown")
    subsystem_device ← read_text host (path ++ codes "/subsystem_device") (codes "unknown")
    device_class ← read_text host (path ++ codes "/class") (codes "unknown")
    revision ← read_text host (path ++ codes "/revision") (codes "unknown")
    driver ← resolved_name host (path ++ codes "/driver")
    driver_module ← resolved_name host (path ++ codes "/driver/module")
    iommu_group ← resolved_name host (path ++ codes "/iommu_group")
    numa_node ← read_text host (path ++ codes "/numa_node") (codes "unknown")
    current_link_speed ← read_text host (path ++ codes "/current_link_speed") (codes "unknown")
    current_link_width ← read_text host (path ++ codes "/current_link_width") (codes "unknown")
    max_link_speed ← read_text host (path ++ codes "/max_link_speed") (codes "unknown")
    max_link_width ← read_text host (path ++ codes "/max_link_width") (codes "unknown")
    resources ← parse_resources path
    xdma_indices ← xdma_indices_for_bdf bdf
    control ← try_control (path ++ codes "/config")
    pure record {
      bdf = bdf;
      vendor = vendor;
      device = device;
      subsystem_vendor = subsystem_vendor;
      subsystem_device = subsystem_device;
      device_class = device_class;
      revision = revision;
      driver = driver;
      driver_module = driver_module;
      iommu_group = iommu_group;
      numa_node = numa_node;
      current_link_speed = current_link_speed;
      current_link_width = current_link_width;
      max_link_speed = max_link_speed;
      max_link_width = max_link_width;
      resources = resources;
      xdma_indices = xdma_indices;
      pcie = control.0;
      pcie_error = control.1;
    }
