-- ===== src/Jobs/JobEngine/Steps.antt =====
-- What the execution status of a job document says of its steps.
use aws_iot_device_client.Base.{
  ◌≡◌, inl, inr, refl, true, List, [], ◌∷◌, Option, none, some, Text, All, arith, Option-cases,
}
use aws_iot_device_client.Base.Int.{ℤ, is_zero}
use aws_iot_device_client.Jobs.JobDocument.{JobAction, PlainJobDocument, run_command}
use aws_iot_device_client.Jobs.JobEngine.{JobEngine, Os}
use aws_iot_device_client.Jobs.JobEngine.Actions.{
  Progress, settle_status, finish_action, exec_command_action, exec_action, exec_each, exec_steps,
  exec_shell_command,
}

-- A command action that states how many lines of standard error it may write.
abbrev pub AllowsStdErr : JobAction → Type 0
AllowsStdErr a = (a.type ≡ run_command) × ((n : ℤ) × (a.allow_std_err ≡ some n))

abbrev FinalAllowsStdErr : Option JobAction → Type 0
FinalAllowsStdErr none = Unit
FinalAllowsStdErr (some a) = AllowsStdErr a

settle-allowed :
    (a : JobAction) (code status s : ℤ) (e : JobEngine) (n : ℤ)
    → a.allow_std_err ≡ some n
    → settle_status a code status e ≡ some s
    → is_zero status ≡ true
    → is_zero s ≡ true
unfolding settle_status
settle-allowed a code status s e n h k z = ground arith

module _ {W : Type 0} where
  abbrev StaysZero : Option (Progress W) → Type 0
  StaysZero m = (q : Progress W) → m ≡ some q → is_zero q.status ≡ true

  finish-allowed :
      (a : JobAction) (status : ℤ) (r : Option (ℤ × JobEngine × W)) (n : ℤ)
      → a.allow_std_err ≡ some n
      → is_zero status ≡ true
      → StaysZero (finish_action a status r)
  unfolding finish_action
  finish-allowed a status none n h z q e = absurd (cc)
  finish-allowed a status (some (code, f, v)) n h z q e =
      elim (Option-cases (settle_status a code status f)) [
        | inl gone ↦ absurd (ground (arith, gone, e))
        | inr (s, found) ↦
            let k = settle-allowed a code status s f n h found z in ground (arith, found, e, k)
      ]

  gone-StaysZero : StaysZero none
  gone-StaysZero q e = absurd (cc)

  command-allowed :
      (os : Os W) (a : JobAction) (command : List Text) (p : Progress W) (n : ℤ)
      → a.allow_std_err ≡ some n
      → is_zero p.status ≡ true
      → StaysZero (exec_command_action os a command p)
  unfolding exec_command_action
  command-allowed os a [] p n h z q e = absurd (cc)
  command-allowed os a (first ∷ rest) p n h z q e = elim (Option-cases a.run_as_user) [
    | inl gone ↦ absurd (ground (arith, gone, e))
    | inr (user, found) ↦
        finish-allowed a p.status (exec_shell_command os user (first ∷ rest) p.engine p.world) n h z
          q (ground (arith, found, e))
  ]

  action-allowed :
      (os : Os W) (a : JobAction) (dir : Text) (p : Progress W)
      → AllowsStdErr a
      → is_zero p.status ≡ true
      → StaysZero (exec_action os a dir p)
  unfolding exec_action
  action-allowed os a dir p (t, (n, h)) z q e = elim (Option-cases a.command_input) [
    | inl gone ↦ gone-StaysZero q (rw (t, gone) at e)
    | inr (i, found) ↦ command-allowed os a i.command p n h z q (rw (t, found) at e)
  ]

  each-allowed :
      (os : Os W) (steps : List JobAction) (final : Option JobAction) (dir : Text) (p : Progress W)
      → All AllowsStdErr steps
      → FinalAllowsStdErr final
      → is_zero p.status ≡ true
      → StaysZero (exec_each os steps final dir p)
  unfolding exec_each
  each-allowed os [] none dir p h k z q e = ground arith
  each-allowed os [] (some a) dir p h k z q e = action-allowed os a dir p k z q e
  each-allowed os (a ∷ rest) final dir p h k z q e = elim (Option-cases (exec_action os a dir p)) [
    | inl gone ↦ absurd (ground (arith, gone, e))
    | inr (r, found) ↦
        let same = action-allowed os a dir p h.0 z r found in
        each-allowed os rest final dir r h.1 k same q (ground (arith, found, same, e))
  ]

-- Where every step runs a command and states how many lines of standard error it may write, the
-- execution status is 0 whatever the commands return and however much they write: the job counts
-- as having succeeded.
pub allowed_never_fails :
    {W : Type 0} (os : Os W) (d : PlainJobDocument) (dir : Text) (e : JobEngine) (w : W)
    (p : Progress W)
    → All AllowsStdErr d.steps
    → FinalAllowsStdErr d.final_step
    → exec_steps os d dir e w ≡ some p
    → is_zero p.status ≡ true
unfolding exec_steps
allowed_never_fails os d dir e w p h k r = each-allowed os d.steps d.final_step dir _ h k refl p r
