-- ===== src/Storage/Disk.antt =====
-- `CatalogStorage` and `ContentIndexStorage` of backend/src/adapters/storage: the files of the data
-- directory, by their names, and what a save does to them, step by step.
use linux_rag_t.Prelude.{◌==◌, if◌then◌else◌, ◌<>◌, none, some, [], ◌∷◌, List, Option, String}
use linux_rag_t.Json.{Json, Codec}

abbrev pub Disk : Type 0
Disk = String → Option String

pub data Op : Type 0 where
  make_dir : Op
  write_text : String → String → Op
  move : String → String → Op

abbrev pub put : String → Option String → Disk → Disk
put name content d other = if other == name then content else d other

-- `write_text` makes or replaces a file, `replace` moves a file over another one.
unfoldable pub apply : Op → Disk → Disk
apply make_dir d = d
apply (write_text name content) d = put name (some content) d
apply (move from to) d = put from none (put to (d from) d)

unfoldable pub perform : List Op → Disk → Disk
unfolding apply
perform [] d = d
perform (op ∷ ops) d = perform ops (apply op d)

-- The disks that can be found when the work stops, be it that the process dies or that an operation
-- raises: between two operations, or within a write, which leaves any part of the text. What the system
-- has done it keeps: nothing is flushed, so a loss of power is not covered.
pub data Interrupted : List Op → Disk → Disk → Type 0 where
  stopped : {ops : List Op} {d : Disk} → Interrupted ops d d
  torn :
      {name content : String} {ops : List Op} {d : Disk} (part : Option String)
      → Interrupted (write_text name content ∷ ops) d (put name part d)
  later :
      {op : Op} {ops : List Op} {d e : Disk}
      → Interrupted ops (apply op d) e
      → Interrupted (op ∷ ops) d e

-- `f".{filename}.tmp"`
abbrev pub temp_name : String → String
temp_name filename = "." <> filename <> ".tmp"

-- What `save` does with the payload.
unfoldable pub save_ops : Codec → String → Json → List Op
save_ops c filename payload =
    make_dir
    ∷ write_text (temp_name filename) (c.dumps payload)
    ∷ move (temp_name filename) filename
    ∷ []
