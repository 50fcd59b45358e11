-- ===== src/Pcie/Find.antt =====
-- Which endpoint fpgactl/src/pcie.cpp means: `driverBoundBdfs`, `matchingEndpoints`, `findCurrentBdf`, and the address
-- that is remembered under /run.
use mrs_fpga_toolkit.Base.{
  ℕ, Bool, true, false, not, ◌==◌, ◌&&◌, ◌||◌, if◌then◌else◌, List, [], ◌∷◌, ◌++◌, Text, codes,
  Option, none, some,
}
use mrs_fpga_toolkit.Machine.{
  M, ⊤, Outcome, ok, throws, hangs, error, pure, lift, throw, throw_if, choose, given, when, ◌>>=◌,
  ◌>>◌,
}
use mrs_fpga_toolkit.Xdma.{call}
use mrs_fpga_toolkit.CommandText.{is_empty}
use mrs_fpga_toolkit.Common.{Host}
use mrs_fpga_toolkit.Common.Files.{read_text, resolved_name}
use mrs_fpga_toolkit.Pcie.{
  PcieOptions, sysfs_pci, sysfs_xdma, runtime_state, sort_texts, matches_bdf, normalize_bdf,
  saved_bdf_path, node_prefix,
}
use mrs_fpga_toolkit.Pcie.Inspect.{endpoint_path, read_hex}

-- `wanted.has_value() && found != wanted`
abbrev pub differs : Option ℕ → Option ℕ → Bool
differs none found = false
differs (some n) none = true
differs (some n) (some k) = not (k == n)

unfoldable pub addresses : List Text → List Text
addresses [] = []
addresses (name ∷ rest) =
    let further = addresses rest in if matches_bdf name then name ∷ further else further

module _ {S : Type 0} (host : Host S) (options : PcieOptions) where
  unfoldable pub driver_bound_bdfs : M S (List Text)
  driver_bound_bdfs = do
    names ← call (host.entries (sysfs_pci ++ codes "/drivers/" ++ options.module_name))
    pure (sort_texts (addresses names))

  unfoldable pub matching_loop : List Text → List Text → M S (List Text)
  matching_loop result [] = pure result
  matching_loop result (name ∷ rest) =
      choose (not (matches_bdf name)) (matching_loop result rest) (do
        vendor ← read_hex host (sysfs_pci ++ codes "/devices/" ++ name ++ codes "/vendor")
        device ← read_hex host (sysfs_pci ++ codes "/devices/" ++ name ++ codes "/device")
        choose
            (not options.include_all
              && (differs options.vendor_id vendor || differs options.device_id device))
            (matching_loop result rest) (matching_loop (result ++ name ∷ []) rest))

  unfoldable pub matching_endpoints : M S (List Text)
  matching_endpoints = do
    names ← call (host.entries (sysfs_pci ++ codes "/devices"))
    found ← matching_loop [] names
    pure (sort_texts found)

  -- `if (size() == 1) return front(); if (size() > 1) throw`, and otherwise what comes next.
  abbrev pub only : List Text → Text → M S (Option Text) → M S (Option Text)
  only [] message next = next
  only (bdf ∷ []) message next = pure (some bdf)
  only (bdf ∷ other ∷ rest) message next = throw (error message)

  -- The address that the class device of one kind is linked to.
  unfoldable pub linked_bdf : Text → M S (Option Text)
  linked_bdf suffix = do
    linked ←
        resolved_name host
          (sysfs_xdma ++ codes "/" ++ node_prefix options.device_index ++ suffix ++ codes "/device")
    pure (elim linked [
      | none ↦ none
      | some target ↦ if matches_bdf target then some target else none
    ])

  unfoldable pub discover : M S (Option Text)
  discover = do
    control ← linked_bdf (codes "control")
    user ← given control (linked_bdf (codes "user")) (λ bdf. pure (some bdf))
    given user
        (do
          bound ← driver_bound_bdfs
          only bound
              (codes "multiple endpoints are bound to "
                ++ options.module_name
                ++ codes "; select --bdf")
              (do
                matches ← matching_endpoints
                only matches (codes "multiple PCIe endpoints match; select --bdf or --device-id")
                    (pure none)))
        (λ bdf. pure (some bdf))

  unfoldable pub find_current_bdf : Bool → M S (Option Text)
  find_current_bdf allow_absent_explicit = given options.bdf discover (λ bdf. do
    normalized ← lift (normalize_bdf bdf)
    path ← endpoint_path host normalized
    present ← choose allow_absent_explicit (pure true) (call (host.exists path))
    throw_if (not present) (error (codes "PCIe endpoint does not exist: " ++ normalized))
    pure (some normalized))

abbrev pub valid_hint : Outcome Text → Option Text
valid_hint (ok bdf) = some bdf
valid_hint (throws e) = none
valid_hint hangs = none

module _ {S : Type 0} (host : Host S) where
  unfoldable pub read_saved_bdf : ℕ → M S (Option Text)
  read_saved_bdf device_index = do
    value ← read_text host (saved_bdf_path device_index) []
    pure (if is_empty value then none else valid_hint (normalize_bdf value))

  -- The file is opened, and so emptied, before the address is checked.
  unfoldable pub remember_bdf : ℕ → Text → M S ⊤
  remember_bdf device_index bdf = do
    call (host.create_directories runtime_state)
    cleared ← call (host.write_all (saved_bdf_path device_index) [])
    choose (not cleared.opened)
        (call (host.print_error (codes "warning: could not save runtime BDF hint\n")))
        (do
          normalized ← lift (normalize_bdf bdf)
          result ← call (host.write_all (saved_bdf_path device_index) (normalized ++ codes "\n"))
          when (not result.written)
              (call (host.print_error (codes "warning: could not save runtime BDF hint\n"))))
