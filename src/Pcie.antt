-- ===== src/Pcie.antt =====
-- Endpoints and the XDMA driver of fpgactl/src/pcie.cpp: addresses, paths, options, and the host's directories.
pub mod Inspect
pub mod Report
pub mod Find
pub mod Lifecycle
pub mod Mrrs
pub mod Run
pub mod Nodes
pub mod Quiet
pub mod Address
mod Tests
use mrs_fpga_toolkit.Base.{
  ℕ, zero, suc, ◌+◌, ◌*◌, Bool, true, false, not, ltb, leb, ◌==◌, ◌!=◌, ◌&&◌, ◌||◌, if◌then◌else◌,
  List, [], ◌∷◌, ◌++◌, map, Text, codes, to_string, Option, none, some,
}
use mrs_fpga_toolkit.Machine.{Outcome, ok, throws, error}
use mrs_fpga_toolkit.Common.Process.{is_hex_digit}

-- The timeout is in milliseconds. An unset `device_mode` is `none`.
pub record PcieOptions : Type 0 where
  pub bdf : Option Text
  pub device_index : ℕ
  pub vendor_id : Option ℕ
  pub device_id : Option ℕ
  pub module_name : Text
  pub module_arguments : List Text
  pub required_nodes : List Text
  pub timeout : ℕ
  pub device_mode : Option ℕ
  pub json : Bool
  pub include_all : Bool

pub data XdmaAction : Type 0 where
  show : XdmaAction
  list : XdmaAction
  driver_reload : XdmaAction
  driver_probe : XdmaAction
  driver_only : XdmaAction
  post_reconfigure : XdmaAction
  remove : XdmaAction
  set_mrrs : XdmaAction

abbrev pub sysfs_pci : Text
sysfs_pci = codes "/sys/bus/pci"

abbrev pub sysfs_xdma : Text
sysfs_xdma = codes "/sys/class/xdma"

abbrev pub runtime_state : Text
runtime_state = codes "/run/mrs_fpgactl"

abbrev pub same_text : Text → Text → Bool
same_text [] [] = true
same_text [] (d ∷ ds) = false
same_text (c ∷ cs) [] = false
same_text (c ∷ cs) (d ∷ ds) = c == d && same_text cs ds

-- `operator<` on strings, and `std::sort`.
unfoldable pub before : Text → Text → Bool
before cs [] = false
before [] (d ∷ ds) = true
before (c ∷ cs) (d ∷ ds) = ltb c d || c == d && before cs ds

unfoldable pub insert_text : Text → List Text → List Text
insert_text t [] = t ∷ []
insert_text t (u ∷ rest) =
    let further = insert_text t rest in if before u t then u ∷ further else t ∷ u ∷ rest

unfoldable pub sort_texts : List Text → List Text
sort_texts [] = []
sort_texts (t ∷ rest) = insert_text t (sort_texts rest)

-- `bdf_pattern` without its domain: two hexadecimal digits, `:`, two more, `.`, and a digit up to 7.
unfoldable pub is_bus_address : Text → Bool
is_bus_address (a ∷ b ∷ colon ∷ c ∷ d ∷ point ∷ f ∷ []) =
    is_hex_digit a
    && is_hex_digit b
    && colon == 58
    && is_hex_digit c
    && is_hex_digit d
    && point == 46
    && leb 48 f
    && leb f 55
is_bus_address _ = false

-- The same behind a domain of four digits and `:`.
unfoldable pub is_full_address : Text → Bool
is_full_address (a ∷ b ∷ c ∷ d ∷ colon ∷ rest) =
    is_hex_digit a
    && is_hex_digit b
    && is_hex_digit c
    && is_hex_digit d
    && colon == 58
    && is_bus_address rest
is_full_address _ = false

abbrev pub matches_bdf : Text → Bool
matches_bdf value = is_bus_address value || is_full_address value

-- `std::tolower` in the C locale.
abbrev pub to_lower : ℕ → ℕ
to_lower c = if leb 65 c && leb c 90 then c + 32 else c

unfoldable pub normalize_bdf : Text → Outcome Text
normalize_bdf value =
    if is_bus_address value
    then ok (map to_lower (codes "0000:" ++ value))
    else if is_full_address value
    then ok (map to_lower value)
    else throws (error (codes "invalid PCI BDF: " ++ value))

abbrev pub saved_bdf_path : ℕ → Text
saved_bdf_path device_index =
    runtime_state ++ codes "/xdma" ++ to_string device_index ++ codes ".bdf"

abbrev pub node_prefix : ℕ → Text
node_prefix index = codes "xdma" ++ to_string index ++ codes "_"

-- `name.rfind(prefix, 0) == 0`
unfoldable pub starts_with : Text → Text → Bool
starts_with [] name = true
starts_with (p ∷ prefix) [] = false
starts_with (p ∷ prefix) (c ∷ name) = p == c && starts_with prefix name
