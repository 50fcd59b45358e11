-- ===== src/Common/Files.antt =====
-- Files of fpgactl/src/common.cpp: `readText`, `readBinary`, `writeBinary`, `resolvedName`, `commandExists`.
use mrs_fpga_toolkit.Base.{
  ℕ, Bool, true, false, not, ◌==◌, ◌&&◌, if◌then◌else◌, List, [], ◌∷◌, ◌++◌, Text, codes, Option,
  none, some,
}
use mrs_fpga_toolkit.Machine.{M, ⊤, error, pure, throw, throw_if, choose, given, ◌>>=◌, ◌>>◌}
use mrs_fpga_toolkit.CommandText.{is_space, is_empty}
use mrs_fpga_toolkit.Xdma.{call}
use mrs_fpga_toolkit.Common.{Host}

-- `while (!result.empty() && isspace(result.back())) result.pop_back();`
unfoldable pub trim_end : Text → Text
trim_end [] = []
trim_end (c ∷ rest) =
    let trimmed = trim_end rest in if is_empty trimmed && is_space c then [] else c ∷ trimmed

-- The last component of a path.
unfoldable pub last_component : Text → Text → Text
last_component name [] = name
last_component name (c ∷ rest) =
    let after = last_component [] rest in
    let within = last_component (name ++ c ∷ []) rest in if c == 47 then after else within

-- The parts of `PATH`.
unfoldable pub split_colons : Text → Text → List Text
split_colons item [] = if is_empty item then [] else item ∷ []
split_colons item (c ∷ rest) =
    let next = split_colons [] rest in
    let within = split_colons (item ++ c ∷ []) rest in if c == 58 then item ∷ next else within

-- `executable.find('/') != npos`
unfoldable pub has_slash : Text → Bool
has_slash [] = false
has_slash (c ∷ rest) = let later = has_slash rest in if c == 47 then true else later

module _ {S : Type 0} (host : Host S) where
  unfoldable pub read_text : Text → Text → M S Text
  read_text path fallback = do
    content ← call (host.read_all path)
    given content (pure fallback) (λ text. pure (trim_end text))

  unfoldable pub read_binary : Text → M S (List ℕ)
  read_binary path = do
    content ← call (host.read_all path)
    given content (throw (error (codes "cannot open file for reading: " ++ path))) pure

  unfoldable pub write_binary : Text → List ℕ → Bool → M S ⊤
  write_binary path bytes overwrite = do
    present ← choose overwrite (pure false) (call (host.exists path))
    throw_if present (error (codes "output exists: " ++ path ++ codes "; use --force to overwrite"))
    result ← call (host.write_all path bytes)
    throw_if (not result.opened) (error (codes "cannot open file for writing: " ++ path))
    throw_if (not result.written) (error (codes "failed while writing file: " ++ path))

  unfoldable pub resolved_name : Text → M S (Option Text)
  resolved_name path = do
    resolved ← call (host.canonical path)
    given resolved (pure none) (λ target. pure (some (last_component [] target)))

  unfoldable pub search_directories : Text → List Text → M S Bool
  search_directories executable [] = pure false
  search_directories executable (directory ∷ rest) = do
    found ← call (
        host.is_executable
          ((if is_empty directory then codes "." else directory) ++ codes "/" ++ executable))
    choose found (pure true) (search_directories executable rest)

  unfoldable pub command_exists : Text → M S Bool
  command_exists executable =
      choose (has_slash executable) (call (host.is_executable executable)) (do
        paths ← call host.search_path
        given paths (pure false) (λ raw. search_directories executable (split_colons [] raw)))
