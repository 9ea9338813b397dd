-- ===== src/Tests/FileSystem.antt =====
-- The file operations of configloader/filesystem.c at examples.
use deadline_knapp_verparsed.Base.{true, false, [], ◌∷◌, some, codes, arith}
use deadline_knapp_verparsed.Runtime.Files.{Files, standard_out}
use deadline_knapp_verparsed.Runtime.Leaves.{Leaves}
use deadline_knapp_verparsed.Filesystem.{filesystem_close}
use deadline_knapp_verparsed.Filesystem.Open.{Closes, filesystem_close-Closes}
use deadline_knapp_verparsed.Tests.{quiet_world}

-- Every path is a file, and the next call of `fclose` fails.
abbrev pub some_files : Files
some_files = record {
  contents = λ path. some (codes "l 8;");
  denied = λ path mode. false;
  close_fails = true ∷ [];
  open_files = 1;
  closed_streams = [];
  pointer_text = λ path. codes "0x1";
}

filesystem_close-Closes_example :
    Leaves quiet_world
      (Closes (some standard_out) some_files)
      (filesystem_close (some standard_out) some_files quiet_world)
filesystem_close-Closes_example =
    filesystem_close-Closes (some standard_out) some_files quiet_world (omega arith)
