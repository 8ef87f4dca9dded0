-- ===== src/Base/Options.antt =====
-- Aws::Crt::Optional, as the settings and the files use it.
use mathlib.Core.Option.{Option, none, some}

abbrev pub or_else {ℓ κ} : {A : Type ℓ} {B : Type κ} → Option A → (A → B) → B → B
or_else none f b = b
or_else (some a) f b = f a
