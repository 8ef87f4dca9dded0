-- ===== src/Util/FileUtils/Permissions.antt =====
-- The permissions of files.
use aws_iot_device_client.Base.{
  ℕ, ◌+◌, ◌*◌, ◌/◌, ◌%◌, ◌≡◌, ◌≢◌, ◌⊎◌, ◌↔◌, refl, Bool, true, false, some, Text, arith, ◌&&◌, ◌||◌,
  Bool-cases, ==_iff, sym, ◌∙◌, if◌then◌else◌, Option-cases, inl, inr, ◌==◌, not,
}
use aws_iot_device_client.Util.FileUtils.{
  FileInfo, FileSystem, permissions_mask_to_int, extract_expanded_path, validate_file_permissions,
  bit,
}

three_bits :
    (n : ℕ)
    → (if n / 4 % 2 == 1 then 4 else 0)
        + (if n / 2 % 2 == 1 then 2 else 0)
        + (if n % 2 == 1 then 1 else 0)
      ≡ n % 8
three_bits n = ground arith

world_bits : (m : ℕ) → bit m 2 4 + bit m 1 2 + bit m 0 1 ≡ m % 8
world_bits m = let e0 : m / 1 ≡ m = omega arith in rw e0 (three_bits m)

user_bits : (m : ℕ) → bit m 8 4 + bit m 7 2 + bit m 6 1 ≡ m / 64 % 8
user_bits m =
    let e8 : m / 256 ≡ m / 64 / 4 = omega arith in
    let e7 : m / 128 ≡ m / 64 / 2 = omega arith in rw (e8, e7) (three_bits (m / 64))

group_bits : (m : ℕ) → bit m 5 4 + bit m 4 2 + bit m 3 1 ≡ m / 8 % 8
group_bits m =
    let e5 : m / 32 ≡ m / 8 / 4 = omega arith in
    let e4 : m / 16 ≡ m / 8 / 2 = omega arith in rw (e5, e4) (three_bits (m / 8))

-- The mode as its three octal digits, written in decimal.
abbrev pub octal : ℕ → ℕ
octal mode = mode / 64 % 8 * 100 + mode / 8 % 8 * 10 + mode % 8

pub permissions_mask_to_int_lem : (mask : ℕ) → permissions_mask_to_int mask ≡ octal mask
unfolding permissions_mask_to_int
permissions_mask_to_int_lem mask = rw (user_bits mask, group_bits mask, world_bits mask) refl

-- A file with the permissions, which is the user's own, or the user is root, if that matters.
pub record Permitted (fs : FileSystem) (path : Text) (permissions : ℕ) (fatal : Bool) : Type 0 where
  pub info : FileInfo
  pub there : fs.stat (extract_expanded_path fs path) ≡ some info
  pub digits : octal info.mode ≡ permissions
  pub owned : (fatal ≡ false) ⊎ ((fs.uid ≡ 0) ⊎ (fs.uid ≡ info.owner))

owned : (uid owner : ℕ) → (uid == 0 || uid == owner) ≡ true → (uid ≡ 0) ⊎ (uid ≡ owner)
owned uid owner h = elim (Bool-cases (uid == 0)) [
  | inl root ↦ inl ((==_iff uid 0).0 root)
  | inr other ↦ inr (ground (arith, h, other))
]

accepts :
    (fatal : Bool) (uid owner want have : ℕ)
    → ((if fatal && not (uid == 0 || uid == owner) then false else want == have) ≡ true)
      ↔ ((have ≡ want) × ((fatal ≡ false) ⊎ ((uid ≡ 0) ⊎ (uid ≡ owner))))
accepts false uid owner want have = (λ h. (ground (arith, h), inl refl), λ h. ground (arith, h))
accepts true uid owner want have = (
  λ h. elim (Bool-cases (uid == 0 || uid == owner)) [
    | inl own ↦ (ground (arith, h, own), inr (owned uid owner own))
    | inr foreign ↦ absurd (ground (arith, h, foreign))
  ],
  λ (e, o). elim o [ inl no_fatal ↦ absurd (cc) | inr own ↦ ground (arith, e, own) ],
)

-- ValidateFilePermissions accepts a path, with permissions other than 0, exactly when the path has
-- a file, the octal digits of whose mode are the permissions, and which the user owns, unless the
-- user is root or the error is not fatal.
pub validate_file_permissions_iff :
    (fs : FileSystem) (path : Text) (permissions : ℕ) (fatal : Bool)
    → permissions ≢ 0
    → (validate_file_permissions fs path permissions fatal ≡ true)
      ↔ Permitted fs path permissions fatal
unfolding validate_file_permissions
validate_file_permissions_iff fs path permissions fatal given = (
  λ h. elim (Option-cases (fs.stat (extract_expanded_path fs path))) [
    | inl gone ↦ absurd (given (ground (arith, rw gone at h)))
    | inr (info, there) ↦
        let r =
          (accepts fatal fs.uid info.owner permissions (permissions_mask_to_int info.mode)).0
            (rw there at h) in
        record {
          info = info;
          there = there;
          digits = sym (permissions_mask_to_int_lem info.mode) ∙ r.0;
          owned = r.1;
        }
  ],
  λ p. rw (p.there) (
      (accepts fatal fs.uid p.info.owner permissions (permissions_mask_to_int p.info.mode)).1
        (permissions_mask_to_int_lem p.info.mode ∙ p.digits, p.owned)),
)
