-- ===== src/Writer.antt =====
-- The parallel writer: dataset_rt/writer.py and the outcome records of dataset_rt/records.py.
-- `Text` is a Python string, by its code points, which may be lone surrogates. The case folding
-- and the normalization of the Unicode tables are parameters.
pub mod Names
pub mod Jobs
pub mod Pool
pub mod Supervise
pub mod Unique
pub mod Ledger
pub mod Results
pub mod Parallel
pub mod Outcome
pub mod Told
pub mod Ending
pub mod Progress
pub mod Child
pub mod Stop
use dataset_rt.Prelude.{
  ℕ, ◌≡◌, ℤ, pos, String, Bool, true, false, Option, none, some, List, [], ◌∷◌, ◌++◌, take, ◌&&◌,
  ◌==◌,
}

abbrev pub Text : Type 0
Text = List ℕ

-- Equality of strings.
abbrev pub text_eq : Text → Text → Bool
text_eq [] [] = true
text_eq [] (c ∷ t) = false
text_eq (b ∷ s) [] = false
text_eq (b ∷ s) (c ∷ t) = b == c && text_eq s t

-- A diagnostic is fixed text, with the text that is interpolated behind it.
pub data Message : Type 0 where
  fixed : String → Message
  about : String → Text → Message

-- `CacheWriteSuccess` and `CacheWriteError`.
pub data CacheWriteResult : Type 0 where
  success : (source_name path : Text) → CacheWriteResult
  failure : (source_name : Text) → Message → CacheWriteResult

-- An exception: the name of its type, and its text, which is missing where formatting it raises.
pub record Raised : Type 0 where
  pub type_name : Text
  pub rendered : Option Text

unfoldable pub diagnostic : Raised → Text
diagnostic error = elim error.rendered [
  | none ↦ error.type_name
  | some text ↦ take 2048 (error.type_name ++ ((58 ∷ 32 ∷ []) ++ text))
]

-- The status of an exit, `int | str`.
pub data ExitStatus : Type 0 where
  number : ℤ → ExitStatus
  text : Text → ExitStatus

-- `SystemExit.code`: an integer, a string, `None`, or any other object.
pub data ExitCode : Type 0 where
  code : ℤ → ExitCode
  message : Text → ExitCode
  absent : ExitCode
  object : ExitCode

unfoldable pub exit_status : Raised → ExitCode → ExitStatus
unfolding diagnostic
exit_status error (code n) = number n
exit_status error (message t) = text (take 2048 t)
exit_status error absent = number (pos 0)
exit_status error object = text (diagnostic error)
