-- ===== src/Util/FileUtils.antt =====
-- util/FileUtils.cpp: paths and permissions, over what the operating system says of its files.
-- `word_exp` is the first word that wordexp makes of a path; the paths that it refuses, for which
-- ExtractExpandedPath throws, are not modelled.
pub mod Permissions
use Prim.Native.String.{String}
use aws_iot_device_client.Base.{
  or_else, ℕ, ◌+◌, ◌*◌, ◌/◌, ◌%◌, ◌^◌, Bool, true, false, not, ◌&&◌, ◌||◌, List, [], ◌∷◌, Option,
  none, some, Text, text, is_empty, if◌then◌else◌, ◌==◌,
}

-- struct stat, as far as it is read.
pub record FileInfo : Type 0 where
  pub mode : ℕ
  pub owner : ℕ
  pub size : ℕ
  pub is_dir : Bool

pub record FileSystem : Type 0 where
  pub word_exp : Text → Text
  pub stat : Text → Option FileInfo
  pub opens : Text → Bool
  pub uid : ℕ

-- The text up to the last slash.
unfoldable pub up_to_slash : Text → Option Text
up_to_slash [] = none
up_to_slash (c ∷ s) = elim (up_to_slash s) [
  | some p ↦ some (c ∷ p)
  | none ↦ if c == 47 then some (c ∷ []) else none
]

-- ExtractParentDirectory.
unfoldable pub extract_parent_directory : Text → Text
unfolding up_to_slash
extract_parent_directory path = or_else (up_to_slash path) (λ p. p) (text "./")

-- A bit of the mode, weighted.
abbrev pub bit : ℕ → ℕ → ℕ → ℕ
bit mask k weight = if (mask / 2 ^ k) % 2 == 1 then weight else 0

-- PermissionsMaskToInt; S_IRUSR is the bit 8, S_IXOTH the bit 0.
unfoldable pub permissions_mask_to_int : ℕ → ℕ
permissions_mask_to_int mask =
    let user = bit mask 8 4 + bit mask 7 2 + bit mask 6 1 in
    let group = bit mask 5 4 + bit mask 4 2 + bit mask 3 1 in
    let world = bit mask 2 4 + bit mask 1 2 + bit mask 0 1 in user * 100 + group * 10 + world

module _ (fs : FileSystem) where
  -- ExtractExpandedPath.
  unfoldable pub extract_expanded_path : Text → Text
  extract_expanded_path path = if is_empty path then [] else fs.word_exp path

  -- GetFilePermissions; a path that has no file is 0.
  unfoldable pub get_file_permissions : Text → ℕ
  unfolding permissions_mask_to_int
  get_file_permissions path = or_else (fs.stat path) (λ info. permissions_mask_to_int info.mode) 0

  -- ValidateFileOwnershipPermissions.
  unfoldable pub validate_file_ownership_permissions : Text → Bool
  validate_file_ownership_permissions path =
      or_else (fs.stat path) (λ info. fs.uid == 0 || fs.uid == info.owner) false

  -- ValidateFilePermissions.
  unfoldable pub validate_file_permissions : Text → ℕ → Bool → Bool
  unfolding extract_expanded_path validate_file_ownership_permissions get_file_permissions
  validate_file_permissions path file_permissions fatal_error =
      let expanded_path = extract_expanded_path path in
      if fatal_error && not (validate_file_ownership_permissions expanded_path)
      then false
      else file_permissions == get_file_permissions expanded_path

  -- GetFileSize.
  unfoldable pub get_file_size : Text → ℕ
  unfolding extract_expanded_path
  get_file_size path = or_else (fs.stat (extract_expanded_path path)) (λ info. info.size) 0

  -- DirectoryExists.
  unfoldable pub directory_exists : Text → Bool
  unfolding extract_expanded_path
  directory_exists path = or_else (fs.stat (extract_expanded_path path)) (λ info. info.is_dir) false

  -- FileExists.
  unfoldable pub file_exists : Text → Bool
  unfolding extract_expanded_path
  file_exists path = fs.opens (extract_expanded_path path)

  -- IsValidFilePath, for a path that is not empty.
  unfoldable pub is_valid_file_path : Text → Bool
  unfolding file_exists
  is_valid_file_path path = file_exists (fs.word_exp path)
