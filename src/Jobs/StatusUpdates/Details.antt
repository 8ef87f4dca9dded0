-- ===== src/Jobs/StatusUpdates/Details.antt =====
-- What the status details of an update hold of the texts they report.
use mathlib.Core.List.{append_assoc}
use aws_iot_device_client.Base.{
  ◌⊎◌, inl, inr, Bool-cases, ℕ, zero, suc, ◌-◌, ◌≤◌, ◌≡◌, ◌≢◌, ==_iff, Bool, true, false, [], ◌∷◌,
  ◌++◌, ◌∙◌, ◌==◌, min, Option, none, some, Text, is_empty, length, drop, ltb, arith, refl, ap,
  Bool-cases, inl, inr, if◌then◌else◌, length-drop,
}
use aws_iot_device_client.Jobs.JobEngine.{until_nul}
use aws_iot_device_client.Jobs.StatusUpdates.{
  JobExecutionStatusInfo, prefix, recent, status_details,
}

abbrev pub nul_free : Text → Bool
nul_free [] = true
nul_free (c ∷ s) = if c == 0 then false else nul_free s

-- Why an entry ends: it has all that it can hold, or the text goes on with a NUL byte.
abbrev pub Ends : Text → Text → Text → Type 0
Ends s e after = (length e ≡ min (length s) 1024) ⊎ ((rest : Text) × (after ≡ 0 ∷ rest))

-- A run of the text that starts after `skip` bytes, and ends before a NUL byte or after 1024.
abbrev pub IsExcerpt : ℕ → Text → Text → Type 0
IsExcerpt skip s e =
    (length e ≤ 1024)
    × (nul_free e ≡ true)
    × ((before : Text) × (after : Text) × (s ≡ before ++ (e ++ after))
        × (length before ≡ skip)
        × Ends s e after)

abbrev pub Reports : ℕ → Text → Option Text → Type 0
Reports skip s none = s ≡ []
Reports skip s (some e) = (s ≢ []) × IsExcerpt skip s e

until_nul-length : (s : Text) → length (until_nul s) ≤ length s
until_nul-length [] = omega arith
until_nul-length (c ∷ s) = ground (arith, until_nul-length s)

nul_free-until_nul : (s : Text) → nul_free (until_nul s) ≡ true
nul_free-until_nul [] = refl
nul_free-until_nul (c ∷ s) = elim (Bool-cases (c == 0)) [
  | inl nul ↦ ground (arith, nul)
  | inr other ↦ ground (arith, other, nul_free-until_nul s)
]

-- What until_nul leaves off: nothing, or all from the first NUL byte on.
until_nul-split :
    (s : Text)
    → (after : Text) × (s ≡ until_nul s ++ after)
      × ((length (until_nul s) ≡ length s) ⊎ ((rest : Text) × (after ≡ 0 ∷ rest)))
until_nul-split [] = ([], refl, inl refl)
until_nul-split (c ∷ s) = elim (Bool-cases (c == 0)) [
  | inl nul ↦ (c ∷ s, ground (arith, nul), inr (s, ap (λ d. d ∷ s) ((==_iff c 0).0 nul)))
  | inr other ↦
      let (after, e, ends) = until_nul-split s in
      (
        after,
        ground (arith, other, e),
        elim ends [ inl all ↦ inl (ground (arith, other, all)) | inr nul ↦ inr nul ],
      )
]

drop-split :
    (n : ℕ) (s : Text)
    → n ≤ length s
    → (before : Text) × ((s ≡ before ++ drop n s) × (length before ≡ n))
drop-split zero s h = ([], (refl, refl))
drop-split (suc n) [] h = absurd (omega arith)
drop-split (suc n) (c ∷ s) h =
    let (before, (e, k)) = drop-split n s (omega arith) in (c ∷ before, (ap (◌∷◌ c) e, ap suc k))

prefix-split : (n : ℕ) (s : Text) → (after : Text) × (s ≡ prefix n s ++ after)
prefix-split zero s = (s, refl)
prefix-split (suc n) [] = ([], refl)
prefix-split (suc n) (c ∷ s) = let (after, e) = prefix-split n s in (after, ap (◌∷◌ c) e)

prefix-length : (n : ℕ) (s : Text) → length (prefix n s) ≡ min (length s) n
prefix-length zero s = omega arith
prefix-length (suc n) [] = omega arith
prefix-length (suc n) (c ∷ s) = omega (arith, prefix-length n s)

prefix-IsExcerpt : (s : Text) → IsExcerpt 0 s (until_nul (prefix 1024 s))
prefix-IsExcerpt s =
    let (after, e) = prefix-split 1024 s in
    let (rest, f, ends) = until_nul-split (prefix 1024 s) in
    (
      omega (arith, until_nul-length (prefix 1024 s), prefix-length 1024 s),
      nul_free-until_nul (prefix 1024 s),
      (
        [],
        rest ++ after,
        e ∙ ap (λ t. t ++ after) f ∙ append_assoc (until_nul (prefix 1024 s)) rest after,
        refl,
        elim ends [
          | inl all ↦ inl (all ∙ prefix-length 1024 s)
          | inr (more, nul) ↦ inr (more ++ after, ap (λ t. t ++ after) nul)
        ],
      ),
    )

drop-IsExcerpt :
    (skip : ℕ) (s : Text) → skip ≡ length s - 1024 → IsExcerpt skip s (until_nul (drop skip s))
drop-IsExcerpt skip s k =
    let (before, (e, l)) = drop-split skip s (omega arith) in
    let (rest, f, ends) = until_nul-split (drop skip s) in
    (
      omega (arith, until_nul-length (drop skip s), length-drop skip s, k),
      nul_free-until_nul (drop skip s),
      (
        before,
        rest,
        e ∙ ap (λ t. before ++ t) f,
        l,
        elim ends [
          | inl all ↦ inl (all ∙ length-drop skip s ∙ omega (arith, k))
          | inr nul ↦ inr nul
        ],
      ),
    )

filled : (c : ℕ) (s : Text) → ◌≢◌ {A = Text} (c ∷ s) []
filled c s h = absurd (cc)

start_lem : (n : ℕ) → (if ltb 1024 n then n - 1024 else 0) ≡ n - 1024
start_lem n = ground arith

recent-Reports : (s : Text) → Reports (length s - 1024) s (recent s)
unfolding recent
recent-Reports [] = refl
recent-Reports (c ∷ s) =
    (filled c s, rw (start_lem (length (c ∷ s))) (drop-IsExcerpt _ (c ∷ s) refl))

first-Reports :
    (s : Text) → Reports 0 s (if is_empty s then none else some (until_nul (prefix 1024 s)))
first-Reports [] = refl
first-Reports (c ∷ s) = (filled c s, prefix-IsExcerpt (c ∷ s))

-- A text of a status update has no entry exactly when it is empty. Its entry is a run of it, without
-- a NUL byte and of at most 1024 bytes, the reason's from its start and the two outputs' from 1024
-- bytes before their end; it has min(1024, size) bytes, or the text has a NUL byte right after it.
pub status_details_lem :
    (info : JobExecutionStatusInfo)
    → let d = status_details info in
      Reports 0 info.reason d.reason
      × Reports (length info.stdoutput - 1024) info.stdoutput d.stdout
      × Reports (length info.stderror - 1024) info.stderror d.stderr
unfolding status_details
status_details_lem info =
    (first-Reports info.reason, recent-Reports info.stdoutput, recent-Reports info.stderror)
