-- ===== src/Jobs/JobEngine/Argv.antt =====
-- The argument vectors that are handed to execvp.
use mathlib.Core.List.{append_assoc}
use native.Mathlib.Numerals.{towards_suc}
use aws_iot_device_client.Base.{
  ℕ, zero, suc, ◌≡◌, refl, sym, ◌∙◌, ap, ap₂, List, [], ◌∷◌, ◌++◌, map, Option, none, some, Text,
  text, length, set, replicate,
}
use aws_iot_device_client.Jobs.JobEngine.{Argv, fill}
use aws_iot_device_client.Jobs.JobEngine.Actions.{
  handler_argv, plain_argv, sudo_argv, args_or_empty,
}

set_at :
    {A : Type 0} (pre : List A) (a b : A) (post : List A)
    → set (pre ++ a ∷ post) (length pre) b ≡ pre ++ b ∷ post
set_at [] a b post = refl
set_at (x ∷ pre) a b post = ap (◌∷◌ x) (set_at pre a b post)

length_snoc : {A : Type 0} (pre : List A) (a : A) → length (pre ++ a ∷ []) ≡ suc (length pre)
length_snoc [] a = refl
length_snoc (x ∷ pre) a = ap suc (length_snoc pre a)

-- The loop writes the arguments into the slots that are there for them.
fill_slots :
    (pre : Argv) (args : List Text) (post : Argv)
    → fill (length pre) args (pre ++ (replicate (length args) none ++ post))
      ≡ pre ++ (map some args ++ post)
unfolding fill
fill_slots pre [] post = refl
fill_slots pre (s ∷ args) post =
    ap (fill (suc (length pre)) args)
      (set_at pre none (some s) (replicate (length args) none ++ post))
    ∙ ap₂ (λ k l. fill k args l) (sym (length_snoc pre (some s)))
        (sym (append_assoc pre (some s ∷ []) (replicate (length args) none ++ post)))
    ∙ fill_slots (pre ++ some s ∷ []) args post
    ∙ append_assoc pre (some s ∷ []) (map some args ++ post)

-- The null pointer at the end is there from the start.
set-none : (n k : ℕ) → set (replicate n none) k none ≡ replicate {A = Option Text} n none
set-none zero k = refl
set-none (suc n) zero = refl
set-none (suc n) (suc k) = ap (◌∷◌ none) (set-none n k)

replicate_snoc : (n : ℕ) → replicate {A = Option Text} (suc n) none ≡ replicate n none ++ none ∷ []
replicate_snoc zero = refl
replicate_snoc (suc n) = ap (◌∷◌ none) (replicate_snoc n)

abbrev slots : Argv → List Text → Argv
slots pre args = pre ++ replicate (suc (length args)) none

filled :
    (pre : Argv) (args : List Text)
    → fill (length pre) args (pre ++ replicate (suc (length args)) none)
      ≡ pre ++ (map some args ++ none ∷ [])
filled pre args =
    ap (λ l. fill (length pre) args (pre ++ l)) (replicate_snoc (length args))
    ∙ fill_slots pre args (none ∷ [])

handler_argv_lem :
    (command user : Text) (args : Option (List Text))
    → handler_argv command user args
      ≡ some command ∷ some user ∷ (map some (args_or_empty args) ++ none ∷ [])
unfolding handler_argv
handler_argv_lem command user args =
    let n : ℕ = length (args_or_empty args) in
    let pre : Argv = some command ∷ some user ∷ [] in
    simp towards_suc (
      ap (λ l. fill 2 (args_or_empty args) (pre ++ l)) (set-none (suc n) n)
      ∙ filled pre (args_or_empty args))

plain_argv_lem : (command : List Text) → plain_argv command ≡ map some command ++ none ∷ []
unfolding plain_argv
plain_argv_lem command =
    simp towards_suc
      (ap (fill 0 command) (set-none (suc (length command)) (length command)) ∙ filled [] command)

sudo_argv_lem :
    (user : Text) (command : List Text)
    → sudo_argv user command
      ≡ some (text "sudo")
        ∷ some (text "-u")
        ∷ some user
        ∷ some (text "-n")
        ∷ (map some command ++ none ∷ [])
unfolding sudo_argv
sudo_argv_lem user command =
    let n : ℕ = length command in
    let pre : Argv = some (text "sudo") ∷ some (text "-u") ∷ some user ∷ some (text "-n") ∷ [] in
    simp towards_suc (ap (λ l. fill 4 command (pre ++ l)) (set-none (suc n) n) ∙ filled pre command)

-- Every argument vector is filled to its end and closed by one null pointer: the handler's has the
-- command, the user and the arguments; a shell command's its words, behind `sudo -u user -n` where
-- the user and sudo were verified.
pub argv_lem :
    (command user : Text) (args : Option (List Text)) (words : List Text)
    → (handler_argv command user args
        ≡ some command ∷ some user ∷ (map some (args_or_empty args) ++ none ∷ []))
      × (plain_argv words ≡ map some words ++ none ∷ [])
      × (sudo_argv user words
          ≡ some (text "sudo")
            ∷ some (text "-u")
            ∷ some user
            ∷ some (text "-n")
            ∷ (map some words ++ none ∷ []))
argv_lem command user args words =
    (handler_argv_lem command user args, plain_argv_lem words, sudo_argv_lem user words)
