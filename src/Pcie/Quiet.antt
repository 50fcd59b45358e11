-- ===== src/Pcie/Quiet.antt =====
-- The commands of fpgactl/src/pcie.cpp that only look: `show` and `list`.
pub mod Effects
use mrs_fpga_toolkit.Base.{ℕ, Bool, true, false, List, [], ◌∷◌, Text, Option, none, some}
use mrs_fpga_toolkit.Machine.{M, ⊤, Exception, Outcome, ok, throws, hangs, throw, ◌>>=◌}
use mrs_fpga_toolkit.Machine.Keeps.{Keeps, Keeps-bind, Keeps-pure, keeps_rules}
use mrs_fpga_toolkit.Xdma.{call}
use mrs_fpga_toolkit.PcieConfig.{PcieControl, little16, capability_loop, decode_pcie_control}
use mrs_fpga_toolkit.Common.{Host, say}
use mrs_fpga_toolkit.Common.Files.{read_text, resolved_name}
use mrs_fpga_toolkit.Pcie.{PcieOptions}
use mrs_fpga_toolkit.Pcie.Inspect.{
  Endpoint, endpoint_path, read_hex, read_config, parse_resources, xdma_nodes, class_index,
  is_target, indices_loop, xdma_indices_for_bdf, try_control, endpoint_details,
}
use mrs_fpga_toolkit.Pcie.Report.{print_indices, print_endpoint, print_endpoint_json}
use mrs_fpga_toolkit.Pcie.Find.{
  driver_bound_bdfs, matching_loop, matching_endpoints, only, linked_bdf, discover,
  find_current_bdf, read_saved_bdf,
}
use mrs_fpga_toolkit.Pcie.Lifecycle.{is_visible}
use mrs_fpga_toolkit.Pcie.Run.{selected, show_json, show_text, run_show, list_loop, run_list}

-- The calls that look at the host and print leave `P` alone.
pub record IsLooking {S : Type 0} (host : Host S) (P : S → Type 0) : Type 0 where
  pub exists : (path : Text) → Keeps P (call (host.exists path))
  pub is_directory : (path : Text) → Keeps P (call (host.is_directory path))
  pub entries : (path : Text) → Keeps P (call (host.entries path))
  pub canonical : (path : Text) → Keeps P (call (host.canonical path))
  pub read_all : (path : Text) → Keeps P (call (host.read_all path))
  pub print : (text : Text) → Keeps P (call (host.print text))

module _ {S : Type 0} {P : S → Type 0} where
  little16-Looks : (bytes : List ℕ) (offset : ℕ) → Keeps P (little16 bytes offset)
  unfolding little16
  little16-Looks bytes offset = search keeps_rules depth 9

  capability_loop-Looks :
      (rounds : ℕ) (config : List ℕ) (p : ℕ) (visited : List ℕ)
      → Keeps P (capability_loop rounds config p visited)
  unfolding capability_loop
  capability_loop-Looks ℕ.zero config p visited = search keeps_rules
  capability_loop-Looks (ℕ.suc n) config p visited =
      let rest = capability_loop-Looks n config in search (keeps_rules, little16-Looks) depth 12

  decode-Looks : (config : List ℕ) → Keeps P (decode_pcie_control config)
  unfolding decode_pcie_control
  decode-Looks config = search (keeps_rules, little16-Looks, capability_loop-Looks) depth 12

module _ {S : Type 0} (host : Host S) {P : S → Type 0} (looking : IsLooking host P) where
  Looks : {A : Type 0} → M S A → Type 0
  Looks m = Keeps P m

  pub read_text-Looks : (path fallback : Text) → Keeps P (read_text host path fallback)
  unfolding read_text
  read_text-Looks path fallback = search (keeps_rules, looking.read_all) depth 9

  pub resolved_name-Looks : (path : Text) → Keeps P (resolved_name host path)
  unfolding resolved_name
  resolved_name-Looks path = search (keeps_rules, looking.canonical) depth 9

  pub endpoint_path-Looks : (bdf : Text) → Keeps P (endpoint_path host bdf)
  unfolding endpoint_path
  endpoint_path-Looks bdf = search keeps_rules

  read_hex-Looks : (path : Text) → Keeps P (read_hex host path)
  unfolding read_hex
  read_hex-Looks path = search (keeps_rules, read_text-Looks)

  pub read_config-Looks : (path : Text) → Keeps P (read_config host path)
  unfolding read_config
  read_config-Looks path = search (keeps_rules, looking.read_all) depth 9

  parse_resources-Looks : (path : Text) → Keeps P (parse_resources host path)
  unfolding parse_resources
  parse_resources-Looks path = search (keeps_rules, read_text-Looks)

  pub xdma_nodes-Looks : (index : ℕ) → Keeps P (xdma_nodes host index)
  unfolding xdma_nodes
  xdma_nodes-Looks index = search (keeps_rules, looking.entries)

  is_target-Looks : (target : Option Text) (bdf : Text) → Keeps P (is_target host target bdf)
  is_target-Looks none bdf = search keeps_rules
  is_target-Looks (some t) bdf = search keeps_rules

  indices_loop-Looks :
      (bdf : Text) (indices : List ℕ) (names : List Text)
      → Keeps P (indices_loop host bdf indices names)
  unfolding indices_loop
  indices_loop-Looks bdf indices [] = search keeps_rules
  indices_loop-Looks bdf indices (name ∷ rest) =
      let further = λ (k : List ℕ). indices_loop-Looks bdf k rest in
      search (keeps_rules, resolved_name-Looks, is_target-Looks, further) depth 12

  xdma_indices-Looks : (bdf : Text) → Keeps P (xdma_indices_for_bdf host bdf)
  unfolding xdma_indices_for_bdf
  xdma_indices-Looks bdf = search (keeps_rules, looking.entries, indices_loop-Looks)

  config_control-Looks : (path : Text) → Keeps P (read_config host path >>= decode_pcie_control)
  config_control-Looks path = search (keeps_rules, read_config-Looks, decode-Looks)

  try_control-Looks : (path : Text) → Keeps P (try_control host path)
  unfolding try_control
  try_control-Looks path = record { at = λ s h. (config_control-Looks path).at s h }

  pub endpoint_details-Looks : (bdf : Text) → Keeps P (endpoint_details host bdf)
  unfolding endpoint_details
  endpoint_details-Looks bdf =
      search
        (
          keeps_rules, endpoint_path-Looks, looking.is_directory, read_text-Looks,
          resolved_name-Looks, parse_resources-Looks, xdma_indices-Looks, try_control-Looks,
        )
        depth 60

module _ {S : Type 0} (host : Host S) (options : PcieOptions) {P : S → Type 0}
    (looking : IsLooking host P) where
  driver_bound_bdfs-Looks : Keeps P (driver_bound_bdfs host options)
  unfolding driver_bound_bdfs
  driver_bound_bdfs-Looks = search (keeps_rules, looking.entries) depth 9

  matching_loop-Looks :
      (result names : List Text) → Keeps P (matching_loop host options result names)
  unfolding matching_loop
  matching_loop-Looks result [] = search keeps_rules
  matching_loop-Looks result (name ∷ rest) =
      let further = λ (k : List Text). matching_loop-Looks k rest in
      let hex = λ (path : Text). read_hex-Looks host looking path in
      search (keeps_rules, hex, further) depth 12

  matching_endpoints-Looks : Keeps P (matching_endpoints host options)
  unfolding matching_endpoints
  matching_endpoints-Looks = search (keeps_rules, looking.entries, matching_loop-Looks) depth 9

  only-Looks :
      (found : List Text) (message : Text) (next : M S (Option Text))
      → Keeps P next
      → Keeps P (only host options found message next)
  only-Looks [] message next k = k
  only-Looks (bdf ∷ []) message next k = search keeps_rules
  only-Looks (bdf ∷ other ∷ rest) message next k = search keeps_rules

  linked_bdf-Looks : (suffix : Text) → Keeps P (linked_bdf host options suffix)
  unfolding linked_bdf
  linked_bdf-Looks suffix =
      let name = λ (path : Text). resolved_name-Looks host looking path in
      search (keeps_rules, name) depth 9

  discover-Looks : Keeps P (discover host options)
  unfolding discover
  discover-Looks =
      let bound = driver_bound_bdfs-Looks in
      let matching = matching_endpoints-Looks in
      search (keeps_rules, linked_bdf-Looks, only-Looks) depth 14

  pub find_current_bdf-Looks : (b : Bool) → Keeps P (find_current_bdf host options b)
  unfolding find_current_bdf
  find_current_bdf-Looks b =
      let found = discover-Looks in
      let path = λ (bdf : Text). endpoint_path-Looks host looking bdf in
      search (keeps_rules, path, looking.exists) depth 14

  read_saved_bdf-Looks : (index : ℕ) → Keeps P (read_saved_bdf host index)
  unfolding read_saved_bdf
  read_saved_bdf-Looks index =
      let text = λ (path fallback : Text). read_text-Looks host looking path fallback in
      search (keeps_rules, text) depth 9

module _ {S : Type 0} (host : Host S) (rounds : ℕ) (message : Exception → Text)
    (options : PcieOptions) {P : S → Type 0} (looking : IsLooking host P) where
  is_visible-Looks : (bdf : Option Text) → Keeps P (is_visible host rounds bdf)
  unfolding is_visible
  is_visible-Looks none = search keeps_rules
  is_visible-Looks (some bdf) =
      let path = λ (b : Text). endpoint_path-Looks host looking b in
      search (keeps_rules, path, looking.exists) depth 9

  selected-Looks : Keeps P (selected host rounds message options)
  unfolding selected
  selected-Looks =
      let found = find_current_bdf-Looks host options looking true in
      let saved = read_saved_bdf-Looks host options looking options.device_index in
      search keeps_rules depth 12

  print_indices-Looks : (indices : List ℕ) → Keeps P (print_indices host indices)
  unfolding print_indices
  print_indices-Looks [] = search keeps_rules
  print_indices-Looks (n ∷ rest) =
      let further = print_indices-Looks rest in
      let nodes = λ (k : ℕ). xdma_nodes-Looks host looking k in
      search (keeps_rules, nodes, looking.print) depth 12

  print_endpoint-Looks : (e : Endpoint) → Keeps P (print_endpoint host message e)
  unfolding print_endpoint
  print_endpoint-Looks e = search (keeps_rules, print_indices-Looks, looking.print) depth 16

  print_endpoint_json-Looks :
      (e : Endpoint) (indent : ℕ) → Keeps P (print_endpoint_json host e indent)
  unfolding print_endpoint_json
  print_endpoint_json-Looks e indent = looking.print _

  details-Looks : (bdf : Text) → Keeps P (endpoint_details host bdf)
  details-Looks bdf = endpoint_details-Looks host looking bdf

  show_text-Looks :
      (bdf : Option Text) (visible : Bool)
      → Keeps P (show_text host rounds message options bdf visible)
  show_text-Looks bdf true =
      search (keeps_rules, details-Looks, print_endpoint-Looks, looking.is_directory, looking.print)
        depth 12
  show_text-Looks bdf false =
      let nodes = λ (k : ℕ). xdma_nodes-Looks host looking k in
      search (keeps_rules, nodes, looking.print) depth 12

  pub run_show-Looks : Keeps P (run_show host rounds message options)
  unfolding run_show
  run_show-Looks =
      let chosen = selected-Looks in
      search
        (
          keeps_rules, is_visible-Looks, show_text-Looks, details-Looks, print_endpoint_json-Looks,
          looking.is_directory, looking.print,
        )
        depth 16

  list_loop-Looks :
      (first : Bool) (names : List Text)
      → Keeps P (list_loop host rounds message options first names)
  unfolding list_loop
  list_loop-Looks first [] = search keeps_rules
  list_loop-Looks first (bdf ∷ rest) =
      let further = list_loop-Looks false rest in
      search
        (keeps_rules, details-Looks, print_endpoint-Looks, print_endpoint_json-Looks, looking.print)
        depth 16

  pub run_list-Looks : Keeps P (run_list host rounds message options)
  unfolding run_list
  run_list-Looks =
      let found = matching_endpoints-Looks host options looking in
      search (keeps_rules, list_loop-Looks, looking.print) depth 14
