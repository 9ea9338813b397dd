-- ===== src/Printer.antt =====
-- configloader/printer.c: the layer over `vfprintf`. A call returns the number of bytes written;
-- a failing write is not modelled, since no caller looks at the result. Where the output stream
-- is `stdout`, what is printed stands beside what is put out here, not among it.
use deadline_knapp_verparsed.Base.{ℕ, List, ◌++◌, none, some, length}
use deadline_knapp_verparsed.Runtime.{M, Piece, vformat, crash, World, done}

-- The output stream of a run, and the two streams that have a name.
pub data Stream : Type 0 where
  output stderr stdout : Stream

abbrev pub written : Stream → List ℕ → World → World
written output t w = record w { out = w.out ++ t }
written stderr t w = record w { err = w.err ++ t }
written stdout t w = record w { printed = w.printed ++ t }

unfoldable pub cfg_vfprintf : Stream → List Piece → M ℕ
cfg_vfprintf stream format w = elim (vformat format) [
  | none ↦ crash w
  | some t ↦ done (length t) (written stream t w)
]

unfoldable pub cfg_fprintf : Stream → List Piece → M ℕ
unfolding cfg_vfprintf
cfg_fprintf stream format = cfg_vfprintf stream format

unfoldable pub cfg_err_vprintf : List Piece → M ℕ
unfolding cfg_vfprintf
cfg_err_vprintf format = cfg_vfprintf stderr format

unfoldable pub cfg_err_printf : List Piece → M ℕ
unfolding cfg_err_vprintf
cfg_err_printf format = cfg_err_vprintf format

unfoldable pub cfg_vprintf : List Piece → M ℕ
cfg_vprintf format w = elim (vformat format) [
  | none ↦ crash w
  | some t ↦ done (length t) (written stdout t w)
]

unfoldable pub cfg_printf : List Piece → M ℕ
unfolding cfg_vprintf
cfg_printf format = cfg_vprintf format
