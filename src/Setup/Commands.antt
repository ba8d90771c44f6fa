-- ===== src/Setup/Commands.antt =====
-- crates/rbs-setup/src/runner.rs: the programs that are run, and what they answer. A program that cannot be
-- spawned answers with a text. The history of a run has the newest first, and what a program answers may
-- depend on it.
use rust_build_server.Prelude.{
  Bool, false, List, [], ◌∷◌, ◌++◌, Option, none, some, Bytes, codes, decimal, suc, ℤ, pos, negsuc,
  ◌==◌, Result,
}
use rust_build_server.Config.Env.{trim}

pub record Output : Type 0 where
  pub status : Option ℤ
  pub stdout : Bytes
  pub stderr : Bytes

unfoldable pub success : Output → Bool
success out = elim out.status [
  | some code ↦ elim code [ pos n ↦ n == 0 | negsuc n ↦ false ]
  | none ↦ false
]

unfoldable pub status_text : Option ℤ → Bytes
status_text (some (pos n)) = codes "exit code " ++ decimal n
status_text (some (negsuc n)) = codes "exit code -" ++ decimal (suc n)
status_text none = codes "killed by signal"

unfoldable pub failure_detail : Output → Bytes
unfolding status_text
failure_detail out = elim (trim out.stderr) [
  | c ∷ cs ↦ c ∷ cs
  | [] ↦ elim (trim out.stdout) [ c ∷ cs ↦ c ∷ cs | [] ↦ status_text out.status ]
]

abbrev pub Answer : Type 0
Answer = Result Bytes Output

-- A program that has run, or a file that has been written.
pub data Event : Type 0 where
  ran : (program : Bytes) (args : List Bytes) → Answer → Event
  wrote : (path : List Bytes) (text : Bytes) → Event

abbrev pub History : Type 0
History = List Event

-- `dyn Runner`
abbrev pub Runner : Type 0
Runner = History → (program : Bytes) → List Bytes → Answer
