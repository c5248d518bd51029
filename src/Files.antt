-- ===== src/Files.antt =====
-- The file system, as `pathlib` shows it during one operation. It is an argument of the model.
use linux_rag_t.Prelude.{ℕ, String, ◌<>◌, Bool, Result, ok, err, file_not_found, if◌then◌else◌}

pub record Files : Type 0 where
  -- `str(Path(location).expanduser())`
  pub expand : String → String
  pub exists : String → Bool
  pub is_file : String → Bool
  pub stem : String → String
  pub name : String → String
  -- `stat().st_size`
  pub size : String → ℕ

-- `_resolve_location` of backend/src/application/source_catalog.py
unfoldable pub resolve_location : Files → String → Result String
resolve_location files location =
    let expanded = files.expand location in
    if files.exists expanded
    then ok expanded
    else err (file_not_found ("source location " <> expanded <> " does not exist"))
