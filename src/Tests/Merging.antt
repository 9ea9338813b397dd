-- ===== src/Tests/Merging.antt =====
-- Runs of the merge on small blocks.
use deadline_knapp_verparsed.Base.{ℕ, [], ◌∷◌, Option, none, some, codes, ◌≡◌, refl}
use deadline_knapp_verparsed.Runtime.{Outcome, done, malloc, realloc, free}
use deadline_knapp_verparsed.Configfile.{
  Directive, Block, block, nil, cons, config_block_create, config_block_free, config_block_add_arg,
  config_block_add_directive, config_block_add_subblock, config_directive_create,
  config_directive_free, config_directive_add_arg, append_arg, store_arg, config_strdup,
  config_realloc_array, free_array, free_block, free_directives, free_args, free_strings,
  config_block_copy, copy_block, copy_subblocks, copy_directives, copy_block_args, and_then,
  config_directive_copy, copy_directive_args,
}
use deadline_knapp_verparsed.Logger.{
  log_debug, log_info, log_warning, log_error, vlog, log_level_string,
}
use deadline_knapp_verparsed.Printer.{cfg_err_printf, cfg_err_vprintf, cfg_vfprintf}
use deadline_knapp_verparsed.Sysunsafe.{str_equal}
use deadline_knapp_verparsed.Merge.{
  config_merge, merge_into, merge_matching, merge_directives, scan_directives, directive_equals,
  compare_args, same_string, same_args, block_equals, find_match, find_matches, copy_unmatched,
  request_array, put_subblock, on_subblock, unless_error, keep_merged,
}
use deadline_knapp_verparsed.Tests.{main, listen, server, quiet_world}

-- What a run returns, and the allocations that are left.
abbrev result : Outcome (Option Block) → Option (Option Block) × ℕ
result (done r w) = (some r, w.live)
result _ = (none, 0)

abbrev user : Directive
user = record { name = some (codes "u"); args = [] }

abbrev other_server : Block
other_server = block (some (codes "s")) (some (codes "b") ∷ []) [] nil

-- A new directive, and a subblock with other arguments, come behind those of the first block; the
-- equal directive and the equal subblock are kept once.
union-merged :
    result (
      config_merge
        (some main)
        (some (
          block
            (some (codes "main"))
            []
            (listen ∷ user ∷ [])
            (cons other_server (cons server nil))))
        quiet_world)
    ≡ (
      some (
          some (
            block
              (some (codes "main"))
              []
              (listen ∷ user ∷ [])
              (cons server (cons other_server nil)))),
      23,
    )
unfolding config_block_create config_block_free config_block_add_arg config_block_add_directive
    config_block_add_subblock config_directive_create config_directive_free config_directive_add_arg
    append_arg store_arg config_strdup config_realloc_array free_array free_block free_directives
    free_args free_strings config_block_copy copy_block copy_subblocks copy_directives
    copy_block_args and_then config_directive_copy copy_directive_args log_debug log_info
    log_warning log_error vlog log_level_string malloc realloc free cfg_err_printf cfg_err_vprintf
    cfg_vfprintf str_equal config_merge merge_into merge_matching merge_directives scan_directives
    directive_equals compare_args same_string same_args block_equals find_match find_matches
    copy_unmatched request_array put_subblock on_subblock unless_error keep_merged
union-merged = refl

-- A directive of the same name with another argument: no block, and nothing is left allocated.
conflict-refused :
    result (
      config_merge
        (some main)
        (some (
          block
            (some (codes "main"))
            []
            (record { name = some (codes "l"); args = some (codes "9") ∷ [] } ∷ [])
            nil))
        quiet_world)
    ≡ (some none, 0)
unfolding config_block_create config_block_free config_block_add_arg config_block_add_directive
    config_block_add_subblock config_directive_create config_directive_free config_directive_add_arg
    append_arg store_arg config_strdup config_realloc_array free_array free_block free_directives
    free_args free_strings config_block_copy copy_block copy_subblocks copy_directives
    copy_block_args and_then config_directive_copy copy_directive_args log_debug log_info
    log_warning log_error vlog log_level_string malloc realloc free cfg_err_printf cfg_err_vprintf
    cfg_vfprintf str_equal config_merge merge_into merge_matching merge_directives scan_directives
    directive_equals compare_args same_string same_args block_equals find_match find_matches
    copy_unmatched request_array put_subblock on_subblock unless_error keep_merged
conflict-refused = refl
