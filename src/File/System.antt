-- ===== src/File/System.antt =====
-- The system as Sources/directory.cpp calls it. It answers a call by what it was asked to do before;
-- of that it keeps the calls that changed a path, the latest first.
use kssio.Prelude.{
  ℕ, Bool, true, false, Option, none, some, List, ◌∷◌, Text, Result, ok, thrown, system_error, Sys,
  done, fails,
}
use kssio.Prelude.Effect.{Effect}
use kssio.File.Directory.{DirStream}

pub data Call : Type 0 where
  unlink rmdir : Text → Call
  mkdir chmod : Text → ℕ → Call

abbrev pub History : Type 0
History = List Call

pub record System : Type 0 where
  pub stat : History → Text → Bool → Sys ℕ
  pub opendir : History → Text → Sys DirStream
  pub answer : History → Call → Sys (Unit {0})

-- What has been called, or none where the fuel was not enough, or where an exception in a function
-- that is noexcept has ended the program; nothing more is called then.
abbrev pub M : Type 0 → Type 0
M A = Effect (Option History) A

module _ (sys : System) where
  -- A call, whose failure is thrown.
  unfoldable pub perform : Text → Call → M (Unit {0})
  perform what call none = (ok tt, none)
  perform what call (some h) = elim (sys.answer h call) [
    | done _ ↦ (ok tt, some (call ∷ h))
    | fails errno ↦ (thrown (system_error errno what), some h)
  ]

  -- A question about a path.
  unfoldable pub ask : ((Text → Bool → Sys ℕ) → Text → Bool → Result Bool) → Text → M Bool
  ask question path none = (ok false, none)
  ask question path (some h) = (question (sys.stat h) path true, some h)
