-- ===== src/FileHandlers/Put/Chunked.antt =====
-- server/handlers/put_file_enhanced.go: the record that a chunked PUT leaves of a file that another
-- instance owns.
use callfs.Prelude.{ℕ, ◌≡◌, Text, Option, some, Result}
use callfs.Prelude.Map
use callfs.Metadata.{Metadata}
use callfs.Raft.{State}
use callfs.Engine.{EngineConfig, Backend, Call, World}
use callfs.FileHandlers.Put.{Upload, Correction, resized}
use callfs.FileHandlers.Put.Recorded.{Recorded}

module _ {Disk : Type 0} (cfg : EngineConfig) (default_backend : Text)
    (open_file : Backend → Text → Disk → Result Text)
    (update_blob create_blob : Backend → Text → Text → ℕ → Disk → Result (Unit {0}) × Disk)
    (make_dir remove_blob : Backend → Text → Disk → Result (Unit {0}) × Disk)
    (update_on : Text → Text → Text → ℕ → Disk → Result (Unit {0}) × Disk) (calls : Text → Call)
    (call : Call) (c : Correction) (u : Upload) (atime mtime ctime : ℕ) where
  -- an answer of 200 leaves the record with the size 0, or the store as it was
  abbrev pub SizeLost : Metadata → State → ℕ × World Disk → Type 0
  SizeLost md s answer = answer.0 ≡ 200 → Recorded (resized c 0 md) s answer.1.store

  -- the same of an answer that may be out of fuel
  abbrev pub AnswerSizeLost : Metadata → State → Option (ℕ × World Disk) → Type 0
  AnswerSizeLost md s r = (answer : ℕ × World Disk) → r ≡ some answer → SizeLost md s answer
