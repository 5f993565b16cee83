-- ===== src/Cli/Commands.antt =====
-- What the command line asks for.
use oget.Prelude.{◌≡◌, ◌≢◌, true, List, [], if◌then◌else◌}
use oget.Prelude.Int.{pos, ltb_ℤ}
use oget.Prelude.Text.{Bytes, codes, is_empty}
use oget.Cli.{Flags, Download, named}

-- What holds of every download that the command line starts.
pub record IsUsual (f : Flags) (rest : List Bytes) (d : Download) : Type 0 where
  pub urls : d.urls ≡ named f rest
  pub some_url : d.urls ≢ []
  pub workers : ltb_ℤ (pos 0) d.concurrency ≡ true
  pub plain_files : d.config.storage_type ≡ codes "file"
  pub tuned : d.config.auto_tune ≡ true
  pub limit : d.config.max_concurrency ≡ pos 128
  pub target : d.config.output_dir ≡ (if is_empty f.dir then f.file else f.dir)
  pub waits : ltb_ℤ (pos 0) d.config.timeout ≡ true
